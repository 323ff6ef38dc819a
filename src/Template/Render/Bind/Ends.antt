-- ===== src/Template/Render/Bind/Ends.antt =====
-- dbx/sqltmplx/render/bind.go: binding ends, and each bind variable has its argument.
use arcgo.Prelude.{
  ℕ, zero, suc, ◌≤◌, ◌≡◌, refl, true, false, ◌&&◌, ◌||◌, not, Bool, List, [], ◌∷◌, Option, none,
  some, arith, length, length-append, nat_eqb, is_nil, is_some, Bool-cases, Option-cases, inl, inr,
}
use arcgo.Template.Text.{
  Str, Result, ok, err, stuck, ◌>>=◌, trim_left, trim_space, split_at, split_at-length, cut_prefix,
}
use arcgo.Template.Scan.{percent}
use arcgo.Template.Render.Sample.{skip_placeholder_sample}
use arcgo.Template.Render.Skips.{Below, trim_left-length, Below-le, skip_placeholder_sample-Below}
use arcgo.Template.Render.Bind.{
  View, invalid, nil_pointer, other_kind, pointer, sequence, State, is_param_path, spread_value,
  bind_one, bind_items, bind_value, bind_param, bind_sample, bind_comment, bind_comment_placeholder,
  bind_next, bind_loop, bind_text,
}

abbrev pub IsCounted {ℓ} : {A : Type ℓ} → State A → Type 0
IsCounted st = length st.args ≡ st.bind_n

-- A text with a state in which each bind variable has an argument, or an error of the template.
abbrev pub Bound {ℓ} : {A : Type ℓ} → Result (Str × State A) → Type 0
Bound (ok (text, st)) = IsCounted st
Bound (err e) = Unit
Bound stuck = ⊥

abbrev Handled {ℓ} : {A : Type ℓ} → ℕ → Result (Option (Str × Str × State A)) → Type 0
Handled n (ok none) = Unit
Handled n (ok (some (text, rest, st))) = (length rest ≤ n) × IsCounted st
Handled n (err e) = Unit
Handled n stuck = ⊥

Handled-le {ℓ} :
    {A : Type ℓ} {m n : ℕ} (r : Result (Option (Str × Str × State A)))
    → m ≤ n
    → Handled m r
    → Handled n r
Handled-le (ok none) h k = tt
Handled-le (ok (some (text, rest, st))) h (k, i) = (omega arith, i)
Handled-le (err e) h k = tt
Handled-le stuck h k = k

module _ {ℓ} {A : Type ℓ} (bind_var : ℕ → Str) where
  bind_one-IsCounted : (a : A) (st : State A) → IsCounted st → IsCounted (bind_one bind_var a st).1
  bind_one-IsCounted a st h = omega (arith, h, length-append st.args (a ∷ []))

  bind_items-IsCounted :
      (first : Bool) (items : List A) (st : State A)
      → IsCounted st
      → IsCounted (bind_items bind_var first items st).1
  bind_items-IsCounted first [] st h = h
  bind_items-IsCounted first (a ∷ items) st h =
      bind_items-IsCounted false items (bind_one bind_var a st).1 (bind_one-IsCounted a st h)

-- No run out of fuel.
abbrev Ended {ℓ} : {A : Type ℓ} → Result A → Type 0
Ended (ok a) = Unit
Ended (err e) = Unit
Ended stuck = ⊥

spread_value-Ended {ℓ} : {A : Type ℓ} (v : View A) → Ended (spread_value v)
spread_value-Ended invalid = tt
spread_value-Ended nil_pointer = tt
spread_value-Ended other_kind = tt
spread_value-Ended (pointer v) = spread_value-Ended v
spread_value-Ended (sequence []) = tt
spread_value-Ended (sequence (a ∷ items)) = tt

module _ {ℓ} {A : Type ℓ} (bind_var : ℕ → Str) (view : A → View A) (lookup : Str → Option A) where
  bind_spread-Bound :
      (items : Result (List A)) (st : State A)
      → Ended items
      → IsCounted st
      → Bound (items >>= (λ (l : List A). ok (bind_items bind_var true l st)))
  bind_spread-Bound (ok l) st e h = bind_items-IsCounted bind_var true l st h
  bind_spread-Bound (err x) st e h = tt
  bind_spread-Bound stuck st e h = e

  bind_value-Bound :
      (a : A) (spread : Bool) (st : State A)
      → IsCounted st
      → Bound (bind_value bind_var view lookup a spread st)
  bind_value-Bound a false st h = bind_one-IsCounted bind_var a st h
  bind_value-Bound a true st h =
      bind_spread-Bound (spread_value (view a)) st (spread_value-Ended (view a)) h

  bind_param-Bound :
      (name : Str) (spread : Bool) (st : State A)
      → IsCounted st
      → Bound (bind_param bind_var view lookup name spread st)
  bind_param-Bound name spread st h = elim (Option-cases (lookup name)) [
    | inl e ↦ rw e tt
    | inr (a, e) ↦ rw e (bind_value-Bound a spread st h)
  ]

  sample-Handled :
      (n : ℕ) (p : Result (Str × State A)) (r : Result Str)
      → Bound p
      → Below (suc n) r
      → Handled n
          (p >>= (λ (b : Str × State A). r >>= (λ (rest : Str). ok (some (b.0, rest, b.1)))))
  sample-Handled n (ok (text, st)) (ok rest) h k = (omega arith, h)
  sample-Handled n (ok (text, st)) (err e) h k = tt
  sample-Handled n (ok (text, st)) stuck h k = k
  sample-Handled n (err e) r h k = tt
  sample-Handled n stuck r h k = h

  bind_sample-Handled :
      (raw s : Str) (st : State A)
      → IsCounted st
      → Handled (length s) (bind_sample bind_var view lookup raw s st)
  bind_sample-Handled raw [] st h = tt
  bind_sample-Handled raw (c ∷ s) st h =
      sample-Handled (length (c ∷ s)) _ (skip_placeholder_sample (c ∷ s))
        (bind_param-Bound raw _ st h)
        (Below-le (skip_placeholder_sample (c ∷ s)) (omega arith)
          (skip_placeholder_sample-Below (c ∷ s)))

  bind_comment-Handled :
      (o : Option (Str × Str)) (n : ℕ) (st : State A)
      → ((body rest : Str) → o ≡ some (body, rest) → length rest ≤ n)
      → IsCounted st
      → Handled n (bind_comment bind_var view lookup o st)
  bind_comment-Handled none n st h k = tt
  bind_comment-Handled (some (body, rest)) n st h k =
      elim (Bool-cases (
        is_nil (trim_space body)
        || is_some (cut_prefix percent (trim_space body))
        || not (is_param_path (trim_space body)))) [
          | inl e ↦ rw e tt
          | inr e ↦ rw e (
              Handled-le _ (omega (arith, h body rest refl, trim_left-length rest))
                (bind_sample-Handled (trim_space body) (trim_left rest) st k))
        ]

  placeholder-Handled :
      (s : Str) (st : State A)
      → IsCounted st
      → Handled (length s) (bind_comment_placeholder bind_var view lookup s st)
  unfolding bind_comment_placeholder
  placeholder-Handled s st h =
      bind_comment-Handled (split_at 42 47 s) (length s) st
        (λ body rest e. omega (arith, split_at-length 42 47 s body rest e)) h

  next-Bound :
      (r : Result (Option (Str × Str × State A))) (out : Str) (c : ℕ) (s : Str) (st : State A)
      (n : ℕ) (go : Str → Str → State A → Result (Str × State A))
      → Handled n r
      → length s ≤ n
      → IsCounted st
      → ((out' t : Str) (st' : State A) → length t ≤ n → IsCounted st' → Bound (go out' t st'))
      → Bound (r >>= (λ handled. bind_next out c s st handled go))
  next-Bound (ok none) out c s st n go h k i g = g _ s st k i
  next-Bound (ok (some (text, rest, st'))) out c s st n go (h, i') k i g = g _ rest st' h i'
  next-Bound (err e) out c s st n go h k i g = tt
  next-Bound stuck out c s st n go h k i g = h

  bind_loop-Bound :
      (fuel : ℕ) (out s : Str) (st : State A)
      → length s ≤ fuel
      → IsCounted st
      → Bound (bind_loop bind_var view lookup fuel out s st)
  unfolding bind_loop
  bind_loop-Bound fuel out [] st h k = k
  bind_loop-Bound zero out (c ∷ s) st h k = absurd (omega arith)
  bind_loop-Bound (suc fuel) out (c ∷ []) st h k = k
  bind_loop-Bound (suc fuel) out (c ∷ d ∷ s) st h k =
      elim (Bool-cases (nat_eqb c 47 && nat_eqb d 42)) [
        | inl e ↦ rw e (
            next-Bound _ out c (d ∷ s) st fuel (bind_loop bind_var view lookup fuel)
              (Handled-le _ (omega arith) (placeholder-Handled s st k)) (omega arith) k
              (λ out' t st' l i. bind_loop-Bound fuel out' t st' l i))
        | inr e ↦ rw e (bind_loop-Bound fuel _ (d ∷ s) st (omega arith) k)
      ]

  -- bindText ends, and keeps the number of arguments equal to the number of the last bind
  -- variable.
  pub bind_text-Bound :
      (s : Str) (st : State A) → IsCounted st → Bound (bind_text bind_var view lookup s st)
  unfolding bind_text
  bind_text-Bound s st h = bind_loop-Bound (length s) [] s st (omega arith) h
