-- ===== src/Template/Render/Bind/Given.antt =====
-- dbx/sqltmplx/render/bind.go: the items that a placeholder stands for, and their bind variables.
use mathlib.Core.List.{append_assoc, append-nil}
use arcgo.Prelude.{
  ℕ, suc, ◌+◌, ◌≡◌, refl, sym, ap, inl, inr, Bool, true, false, List, [], ◌∷◌, ◌++◌, Option, some,
  if◌then◌else◌, length, arith, Option-cases,
}
use arcgo.Template.Text.{Str, Result, ok, err, stuck, ◌>>=◌}
use arcgo.Template.Render.Bind.{
  View, State, spread_value, bind_one, bind_items, bind_value, bind_param,
}

-- Bind variables one behind another, and those behind the first.
abbrev pub behind : List Str → Str
behind [] = []
behind (w ∷ ws) = 44 ∷ 32 ∷ (w ++ behind ws)

abbrev pub listed : List Str → Str
listed [] = []
listed (w ∷ ws) = w ++ behind ws

module _ {ℓ} {A : Type ℓ} where
  abbrev pub bound_state : State A → List A → State A
  bound_state st items = record { args = st.args ++ items; bind_n = st.bind_n + length items }

module _ {ℓ} {A : Type ℓ} (bind_var : ℕ → Str) where
  -- The bind variables of some items, of which the first has number `n + 1`.
  abbrev pub numbered : ℕ → List A → List Str
  numbered n [] = []
  numbered n (a ∷ items) = bind_var (n + 1) ∷ numbered (n + 1) items

  bound_next :
      (a : A) (items : List A) (st : State A)
      → bound_state (bind_one bind_var a st).1 items ≡ bound_state st (a ∷ items)
  bound_next a items st =
      let args : (st.args ++ (a ∷ [])) ++ items ≡ st.args ++ (a ∷ items) =
        append_assoc st.args (a ∷ []) items in
      let n : st.bind_n + 1 + length items ≡ st.bind_n + suc (length items) = omega arith in
      rw (args, n) refl

  items_lem :
      (first : Bool) (items : List A) (st : State A)
      → bind_items bind_var first items st ≡ (
        (if first then listed (numbered st.bind_n items) else behind (numbered st.bind_n items)),
        bound_state st items,
      )
  items_lem true [] st =
      let none_more : st.bind_n + 0 ≡ st.bind_n = omega arith in rw (append-nil, none_more) refl
  items_lem false [] st =
      let none_more : st.bind_n + 0 ≡ st.bind_n = omega arith in rw (append-nil, none_more) refl
  items_lem true (a ∷ items) st =
      rw (items_lem false items (bind_one bind_var a st).1, bound_next a items st) refl
  items_lem false (a ∷ items) st =
      rw (items_lem false items (bind_one bind_var a st).1, bound_next a items st) refl

module _ {ℓ} {A : Type ℓ} (view : A → View A) (lookup : Str → Option A) where
  -- The value of a parameter, or the items of it as a collection.
  pub data Given : Str → Bool → List A → Type ℓ where
    one : {name : Str} {a : A} → lookup name ≡ some a → Given name false (a ∷ [])
    many :
        {name : Str} {a : A} {items : List A}
        → lookup name ≡ some a
        → spread_value (view a) ≡ ok items
        → Given name true items

module _ {ℓ} {A : Type ℓ} (bind_var : ℕ → Str) (view : A → View A) (lookup : Str → Option A) where
  -- What binding a parameter comes to.
  abbrev pub BoundAs : Str → Bool → State A → Result (Str × State A) → Type ℓ
  BoundAs name spread st (ok (text, st')) =
      (items : List A) × Given view lookup name spread items
      × (text ≡ listed (numbered bind_var st.bind_n items))
      × (st' ≡ bound_state st items)
  BoundAs name spread st (err e) = Unit
  BoundAs name spread st stuck = Unit

  spread-BoundAs :
      (name : Str) (a : A) (st : State A) (r : Result (List A))
      → lookup name ≡ some a
      → spread_value (view a) ≡ r
      → BoundAs name true st (r >>= (λ items. ok (bind_items bind_var true items st)))
  spread-BoundAs name a st (ok items) h e =
      let all = items_lem bind_var true items st in
      (items, many h e, ap (λ (r : Str × State A). r.0) all, ap (λ (r : Str × State A). r.1) all)
  spread-BoundAs name a st (err x) h e = tt
  spread-BoundAs name a st stuck h e = tt

  value-BoundAs :
      (name : Str) (spread : Bool) (a : A) (st : State A)
      → lookup name ≡ some a
      → BoundAs name spread st (bind_value bind_var view lookup a spread st)
  value-BoundAs name true a st h = spread-BoundAs name a st (spread_value (view a)) h refl
  value-BoundAs name false a st h = (a ∷ [], one h, sym (append-nil _), refl)

  pub param-BoundAs :
      (name : Str) (spread : Bool) (st : State A)
      → BoundAs name spread st (bind_param bind_var view lookup name spread st)
  param-BoundAs name spread st = elim (Option-cases (lookup name)) [
    | inl e ↦ rw e tt
    | inr (a, e) ↦ rw e (value-BoundAs name spread a st e)
  ]
