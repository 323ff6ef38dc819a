-- ===== src/Template/Render/Bind/Placed.antt =====
-- dbx/sqltmplx/render/bind.go: the text that binding makes of a template, character by character.
use mathlib.Core.List.{append_assoc, append-nil}
use arcgo.Prelude.{
  ℕ, zero, suc, ◌≡◌, refl, sym, ap, ◌∙◌, ◌⊎◌, inl, inr, Bool, true, false, ◌&&◌, ◌||◌, not, List,
  [], ◌∷◌, ◌++◌, Option, none, some, nat_eqb, is_nil, is_some, length, arith, Bool-cases,
}
use arcgo.Template.Text.{
  Str, Result, ok, err, stuck, ◌>>=◌, trim_left, trim_space, split_at, cut_prefix,
}
use arcgo.Template.Scan.{percent}
use arcgo.Template.Render.Sample.{looks_like_collection_sample, skip_placeholder_sample}
use arcgo.Template.Render.Bind.{
  View, State, starts_spread, is_param_path, bind_param, bind_sample, bind_comment,
  bind_comment_placeholder, bind_next, bind_loop, bind_text,
}
use arcgo.Template.Render.Bind.Given.{listed, numbered, bound_state, Given, BoundAs, param-BoundAs}

-- The trimmed body of a comment names a parameter.
abbrev pub is_name : Str → Bool
is_name raw = not (is_nil raw || is_some (cut_prefix percent raw) || not (is_param_path raw))

-- No placeholder begins here.
abbrev pub IsCopied : Str → Type 0
IsCopied [] = Unit
IsCopied (c ∷ []) = Unit
IsCopied (c ∷ d ∷ s) =
    ((nat_eqb c 47 && nat_eqb d 42) ≡ false)
    ⊎ ((body : Str) × (rest : Str) × (split_at 42 47 s ≡ some (body, rest))
        × (is_name (trim_space body) ≡ false))

module _ {ℓ} {A : Type ℓ} (bind_var : ℕ → Str) (view : A → View A) (lookup : Str → Option A) where
  -- The text and state that a template is bound to, from the state before: each character is copied,
  -- or a placeholder with its sample gives way to the bind variables of its items.
  pub data Placed : Str → State A → Str → State A → Type ℓ where
    placed_end : {st : State A} → Placed [] st [] st
    placed_char :
        {c : ℕ} {s out : Str} {st st' : State A}
        → IsCopied (c ∷ s)
        → Placed s st out st'
        → Placed (c ∷ s) st (c ∷ out) st'
    placed_items :
        {s body rest tail out : Str} {st st' : State A} {items : List A}
        → split_at 42 47 s ≡ some (body, rest)
        → is_name (trim_space body) ≡ true
        → Given view lookup
            (trim_space body)
            (starts_spread (trim_left rest) || looks_like_collection_sample (trim_left rest))
            items
        → skip_placeholder_sample (trim_left rest) ≡ ok tail
        → Placed tail (bound_state st items) out st'
        → Placed (47 ∷ 42 ∷ s) st (listed (numbered bind_var st.bind_n items) ++ out) st'

  -- What the loop adds to the text so far.
  abbrev PlacedFrom : Str → Str → State A → Result (Str × State A) → Type ℓ
  PlacedFrom out s st (ok (out', st')) = (t : Str) × (out' ≡ out ++ t) × Placed s st t st'
  PlacedFrom out s st (err e) = Unit
  PlacedFrom out s st stuck = Unit

  char-PlacedFrom :
      (out : Str) (c : ℕ) (s : Str) (st : State A) (r : Result (Str × State A))
      → IsCopied (c ∷ s)
      → PlacedFrom (out ++ (c ∷ [])) s st r
      → PlacedFrom out (c ∷ s) st r
  char-PlacedFrom out c s st (ok (out', st')) h (t, e, p) =
      (c ∷ t, e ∙ append_assoc out (c ∷ []) t, placed_char h p)
  char-PlacedFrom out c s st (err e) h k = tt
  char-PlacedFrom out c s st stuck h k = tt

  items-PlacedFrom :
      (out text s body rest tail : Str) (st st1 : State A) (r : Result (Str × State A))
      → split_at 42 47 s ≡ some (body, rest)
      → is_name (trim_space body) ≡ true
      → BoundAs bind_var view lookup
          (trim_space body)
          (starts_spread (trim_left rest) || looks_like_collection_sample (trim_left rest))
          st
          (ok (text, st1))
      → skip_placeholder_sample (trim_left rest) ≡ ok tail
      → PlacedFrom (out ++ text) tail st1 r
      → PlacedFrom out (47 ∷ 42 ∷ s) st r
  items-PlacedFrom out text s body rest tail st st1 (ok (out', st')) h n (items, g, e, f) k
        (t, q, p) =
      (
        listed (numbered bind_var st.bind_n items) ++ t,
        q ∙ append_assoc out text t ∙ ap (λ (w : Str). out ++ (w ++ t)) e,
        placed_items h n g k (rw f at p),
      )
  items-PlacedFrom out text s body rest tail st st1 (err x) h n b k p = tt
  items-PlacedFrom out text s body rest tail st st1 stuck h n b k p = tt

  -- The rest of the loop, from a text and a state.
  abbrev Goes : (Str → Str → State A → Result (Str × State A)) → Type ℓ
  Goes go = (out s : Str) (st : State A) → PlacedFrom out s st (go out s st)

  sample-PlacedFrom :
      (go : Str → Str → State A → Result (Str × State A)) (out s body rest : Str) (st : State A)
      (b : Result (Str × State A)) (k : Result Str)
      → Goes go
      → split_at 42 47 s ≡ some (body, rest)
      → is_name (trim_space body) ≡ true
      → BoundAs bind_var view lookup
          (trim_space body)
          (starts_spread (trim_left rest) || looks_like_collection_sample (trim_left rest))
          st
          b
      → skip_placeholder_sample (trim_left rest) ≡ k
      → PlacedFrom out (47 ∷ 42 ∷ s) st (
          (b >>= (λ (p : Str × State A). k >>= (λ (tail : Str). ok (some (p.0, tail, p.1)))))
          >>= (λ h. bind_next out 47 (42 ∷ s) st h go))
  sample-PlacedFrom go out s body rest st (ok (text, st1)) (ok tail) g h n b e =
      items-PlacedFrom out text s body rest tail st st1 _ h n b e (g (out ++ text) tail st1)
  sample-PlacedFrom go out s body rest st (ok (text, st1)) (err x) g h n b e = tt
  sample-PlacedFrom go out s body rest st (ok (text, st1)) stuck g h n b e = tt
  sample-PlacedFrom go out s body rest st (err x) k g h n b e = tt
  sample-PlacedFrom go out s body rest st stuck k g h n b e = tt

  literal-PlacedFrom :
      (go : Str → Str → State A → Result (Str × State A)) (out s body rest start : Str)
      (st : State A)
      → Goes go
      → split_at 42 47 s ≡ some (body, rest)
      → is_name (trim_space body) ≡ true
      → trim_left rest ≡ start
      → PlacedFrom out (47 ∷ 42 ∷ s) st (
          bind_sample bind_var view lookup (trim_space body) start st
          >>= (λ h. bind_next out 47 (42 ∷ s) st h go))
  literal-PlacedFrom go out s body rest [] st g h n e = tt
  literal-PlacedFrom go out s body rest (c ∷ start) st g h n e =
      let at_start =
        sample-PlacedFrom go out s body rest st
          (bind_param bind_var view lookup (trim_space body)
            (starts_spread (trim_left rest) || looks_like_collection_sample (trim_left rest)) st)
          (skip_placeholder_sample (trim_left rest)) g h n
          (param-BoundAs bind_var view lookup _ _ st) refl in
      rw e at at_start

  comment-PlacedFrom :
      (go : Str → Str → State A → Result (Str × State A)) (out s : Str) (st : State A)
      (o : Option (Str × Str))
      → Goes go
      → split_at 42 47 s ≡ o
      → PlacedFrom out
          (47 ∷ 42 ∷ s)
          st
          (bind_comment bind_var view lookup o st >>= (λ h. bind_next out 47 (42 ∷ s) st h go))
  comment-PlacedFrom go out s st none g h = tt
  comment-PlacedFrom go out s st (some (body, rest)) g h =
      let raw = trim_space body in
      elim (Bool-cases
        (is_nil raw || is_some (cut_prefix percent raw) || not (is_param_path raw))) [
          | inl e ↦
              let skipped : is_name raw ≡ false = rw e refl in
              rw e (
                char-PlacedFrom out 47 (42 ∷ s) st _ (inr (body, rest, h, skipped))
                  (g (out ++ (47 ∷ [])) (42 ∷ s) st))
          | inr e ↦
              let named : is_name raw ≡ true = rw e refl in
              rw e (literal-PlacedFrom go out s body rest (trim_left rest) st g h named refl)
        ]

  loop-Goes : (fuel : ℕ) → Goes (bind_loop bind_var view lookup fuel)
  unfolding bind_loop bind_comment_placeholder
  loop-Goes fuel out [] st = ([], sym (append-nil out), placed_end)
  loop-Goes zero out (c ∷ s) st = tt
  loop-Goes (suc fuel) out (c ∷ []) st = (c ∷ [], refl, placed_char tt placed_end)
  loop-Goes (suc fuel) out (c ∷ d ∷ s) st = elim (Bool-cases (nat_eqb c 47 && nat_eqb d 42)) [
    | inl e ↦
        let slash : c ≡ 47 = ground (arith, e) in
        let star : d ≡ 42 = ground (arith, e) in
        rw (slash, star)
          (comment-PlacedFrom (bind_loop bind_var view lookup fuel) out s st (split_at 42 47 s)
            (loop-Goes fuel) refl)
    | inr e ↦
        rw e
          (char-PlacedFrom out c (d ∷ s) st _ (inl e) (loop-Goes fuel (out ++ (c ∷ [])) (d ∷ s) st))
  ]

  from_nothing :
      (s out : Str) (st st' : State A) (r : Result (Str × State A))
      → r ≡ ok (out, st')
      → PlacedFrom [] s st r
      → Placed s st out st'
  from_nothing s out st st' r e p = let (t, q, placed) = rw e at p in rw q placed

  -- Where bindText returns a text, each character of the template was copied, or is part of a
  -- comment that names a parameter or of the sample behind it; each such comment and sample gave
  -- way to the bind variables of the value of the parameter, or of the items of its collection
  -- where the sample is one, numbered on from those before, with the values behind the arguments
  -- before.
  pub bind_text-Placed :
      (s out : Str) (st st' : State A)
      → bind_text bind_var view lookup s st ≡ ok (out, st')
      → Placed s st out st'
  unfolding bind_text
  bind_text-Placed s out st st' e = from_nothing s out st st' _ e (loop-Goes (length s) [] s st)
