-- ===== src/Template/Render/Skips.antt =====
-- dbx/sqltmplx/render/bind_scan.go: the loops over a test literal end, and skip some of the text.
use arcgo.Prelude.{
  ℕ, zero, suc, ◌+◌, ◌-◌, ◌≤◌, ◌<◌, true, false, ◌&&◌, not, Bool, [], ◌∷◌, Option, none, some,
  if◌then◌else◌, arith, length, nat_eqb, Bool-cases, inl, inr,
}
use arcgo.Template.Text.{Str, Result, ok, err, stuck, ◌>>=◌, trim_left}
use arcgo.Template.Render.Sample.{
  skip_while, skip_quoted, quoted_loop, cast_loop, is_quote, skip_balanced, skip_brackets,
  skip_identifier_call, call_at, skip_found, skip_loop, skip_identifier_expr, cast_type, suffix_at,
  next_expr_suffix, skip_expr_suffixes, ends_scalar, skip_scalar_token, skip_literal,
  skip_placeholder_sample, is_identifier_part, is_identifier_start,
}

-- The text that is left is shorter than `n`; a loop never runs out of fuel.
abbrev pub Below : ℕ → Result Str → Type 0
Below n (ok rest) = length rest < n
Below n (err e) = Unit
Below n stuck = ⊥

pub Below-le : {m n : ℕ} (r : Result Str) → m ≤ n → Below m r → Below n r
Below-le (ok rest) h k = omega arith
Below-le (err e) h k = tt
Below-le stuck h k = k

Below-bind :
    (m n : ℕ) (r : Result Str) (go : Str → Result Str)
    → Below m r
    → ((rest : Str) → length rest < m → Below n (go rest))
    → Below n (r >>= go)
Below-bind m n (ok rest) go h k = k rest h
Below-bind m n (err e) go h k = tt
Below-bind m n stuck go h k = h

pub trim_left-length : (s : Str) → length (trim_left s) ≤ length s
unfolding trim_left
trim_left-length [] = omega arith
trim_left-length (c ∷ s) = grind (arith, trim_left-length s)

skip_while-length : (p : ℕ → Bool) (s : Str) → length (skip_while p s) ≤ length s
unfolding skip_while
skip_while-length p [] = omega arith
skip_while-length p (c ∷ s) = grind (arith, skip_while-length p s)

quoted_loop-Below : (q : ℕ) (b : Bool) (s : Str) → Below (suc (length s)) (quoted_loop q b s)
unfolding quoted_loop
quoted_loop-Below q true [] = omega arith
quoted_loop-Below q false [] = tt
quoted_loop-Below q false (c ∷ s) = Below-le _ (omega arith) (quoted_loop-Below q (nat_eqb c q) s)
quoted_loop-Below q true (c ∷ s) = elim (Bool-cases (nat_eqb c q)) [
  | inl e ↦ rw e (Below-le _ (omega arith) (quoted_loop-Below q false s))
  | inr e ↦ rw e (omega arith)
]

-- A literal has its closing quote at least.
skip_quoted-Below : (q : ℕ) (s : Str) → Below (suc (length s)) (skip_quoted q s)
skip_quoted-Below q s = quoted_loop-Below q false s

skip_balanced-Below :
    (fuel a b depth : ℕ) (s : Str)
    → length s ≤ fuel
    → Below (length s) (skip_balanced fuel a b depth s)
unfolding skip_balanced
skip_balanced-Below fuel a b depth [] h = tt
skip_balanced-Below zero a b depth (c ∷ s) h = absurd (omega arith)
skip_balanced-Below (suc fuel) a b depth (c ∷ s) h =
    let step : (d : ℕ) → Below (length (c ∷ s)) (skip_balanced fuel a b d s) =
      λ d. Below-le _ (omega arith) (skip_balanced-Below fuel a b d s (omega arith)) in
    elim (Bool-cases (is_quote c)) [
      | inl q ↦ rw q (
          Below-bind (suc (length s)) _ (skip_quoted c s) (skip_balanced fuel a b depth)
            (skip_quoted-Below c s)
            (λ rest k.
              Below-le _ (omega arith) (skip_balanced-Below fuel a b depth rest (omega arith))))
      | inr q ↦ elim (Bool-cases (nat_eqb c a)) [
        | inl e ↦ rw (q, e) (step (depth + 1))
        | inr e ↦ elim (Bool-cases (nat_eqb c b)) [
          | inl f ↦ elim (Bool-cases (nat_eqb depth 1)) [
            | inl g ↦ rw (q, e, f, g) (omega arith)
            | inr g ↦ rw (q, e, f, g) (step (depth - 1))
          ]
          | inr f ↦ rw (q, e, f) (step depth)
        ]
      ]
    ]

-- A loop whose steps skip something.
abbrev Skips : Option (Result Str) → Str → Type 0
Skips none s = Unit
Skips (some r) s = Below (length s) r

skip_found-Below :
    (o : Option (Result Str)) (s : Str) (go : Str → Result Str)
    → Skips o s
    → ((rest : Str) → length rest < length s → Below (suc (length s)) (go rest))
    → Below (suc (length s)) (skip_found o s go)
skip_found-Below none s go h k = omega arith
skip_found-Below (some r) s go h k = Below-bind (length s) _ r go h k

skip_loop-Below :
    (next : Str → Option (Result Str)) (fuel : ℕ) (s : Str)
    → ((t : Str) → Skips (next t) t)
    → length s < fuel
    → Below (suc (length s)) (skip_loop next fuel s)
unfolding skip_loop
skip_loop-Below next zero s h k = absurd (omega arith)
skip_loop-Below next (suc fuel) s h k =
    skip_found-Below (next s) s (skip_loop next fuel) (h s)
      (λ rest l. Below-le _ (omega arith) (skip_loop-Below next fuel rest h (omega arith)))

skip_brackets-Below : (a b : ℕ) (s : Str) → Below (length s) (skip_brackets a b s)
skip_brackets-Below a b s = skip_balanced-Below (length s) a b 0 s (omega arith)

-- Spaces before what is skipped.
Skips-trim_left : (o : Option (Result Str)) (s : Str) → Skips o (trim_left s) → Skips o s
Skips-trim_left none s h = tt
Skips-trim_left (some r) s h = Below-le r (trim_left-length s) h

call_at-Skips : (s : Str) → Skips (call_at s) s
call_at-Skips [] = tt
call_at-Skips (c ∷ s) = elim (Bool-cases (nat_eqb c 40)) [
  | inl e ↦ rw e (skip_brackets-Below 40 41 (c ∷ s))
  | inr e ↦ rw e tt
]

if-length :
    (b : Bool) (x y : Str) {n : ℕ} → length x ≤ n → length y ≤ n → length (if b then x else y) ≤ n
if-length true x y h k = h
if-length false x y h k = k

cast_loop-length : (b : Bool) (s : Str) → length (cast_loop b s) ≤ length s
unfolding cast_loop
cast_loop-length b [] = omega arith
cast_loop-length b (c ∷ s) =
    let shorter : (d : Bool) → length (cast_loop d s) ≤ suc (length s) =
      λ d. omega (arith, cast_loop-length d s) in
    if-length _ _ (c ∷ s) (shorter _) (omega arith)

cast_type-Below : (s : Str) → Below (suc (length s)) (cast_type s)
cast_type-Below [] = tt
cast_type-Below (c ∷ s) = elim (Bool-cases (is_identifier_start c)) [
  | inl e ↦ rw e (omega (arith, cast_loop-length false s))
  | inr e ↦ rw e tt
]

suffix_at-Skips : (s : Str) → Skips (suffix_at s) s
suffix_at-Skips [] = tt
suffix_at-Skips (c ∷ []) = elim (Bool-cases (nat_eqb c 91)) [
  | inl e ↦ rw e (skip_brackets-Below 91 93 (c ∷ []))
  | inr e ↦ rw e tt
]
suffix_at-Skips (c ∷ d ∷ s) = elim (Bool-cases (nat_eqb c 58 && nat_eqb d 58)) [
  | inl e ↦ rw e (Below-le _ (omega arith) (cast_type-Below s))
  | inr e ↦ elim (Bool-cases (nat_eqb c 91)) [
    | inl f ↦ rw (e, f) (skip_brackets-Below 91 93 (c ∷ d ∷ s))
    | inr f ↦ rw (e, f) tt
  ]
]

skip_expr_suffixes-Below : (s : Str) → Below (suc (length s)) (skip_expr_suffixes s)
unfolding skip_expr_suffixes
skip_expr_suffixes-Below s =
    skip_loop-Below next_expr_suffix _ s (λ t. Skips-trim_left _ t (suffix_at-Skips (trim_left t)))
      (omega arith)

skip_identifier_expr-Below :
    (c : ℕ) (s : Str) → Below (suc (length s)) (skip_identifier_expr (c ∷ s))
unfolding skip_identifier_expr
skip_identifier_expr-Below c s =
    let shorter = skip_while-length is_identifier_part s in
    Below-le _ (omega (arith, shorter)) (
      skip_loop-Below skip_identifier_call _ (skip_while is_identifier_part s)
        (λ t. Skips-trim_left _ t (call_at-Skips (trim_left t))) (omega arith))

skip_scalar_token-Below : (c : ℕ) (s : Str) → Below (suc (length s)) (skip_scalar_token (c ∷ s))
unfolding skip_scalar_token
skip_scalar_token-Below c s = elim (Bool-cases (ends_scalar c)) [
  | inl e ↦ rw e tt
  | inr e ↦ rw e (omega (arith, skip_while-length (λ d. not (ends_scalar d)) s))
]

skip_literal-Below : (s : Str) → Below (length s) (skip_literal s)
skip_literal-Below [] = tt
skip_literal-Below (c ∷ s) = elim (Bool-cases (nat_eqb c 40)) [
  | inl e ↦ rw e (skip_brackets-Below 40 41 (c ∷ s))
  | inr e ↦ elim (Bool-cases (is_quote c)) [
    | inl q ↦ rw (e, q) (skip_quoted-Below c s)
    | inr q ↦ elim (Bool-cases (is_identifier_start c)) [
      | inl i ↦ rw (e, q, i) (skip_identifier_expr-Below c s)
      | inr i ↦ rw (e, q, i) (skip_scalar_token-Below c s)
    ]
  ]
]

-- skipPlaceholderSample ends on any input, and either fails or skips a character at least.
pub skip_placeholder_sample-Below : (s : Str) → Below (length s) (skip_placeholder_sample s)
unfolding skip_placeholder_sample
skip_placeholder_sample-Below s =
    Below-bind (length s) _ (skip_literal s) skip_expr_suffixes (skip_literal-Below s)
      (λ rest h. Below-le _ (omega arith) (skip_expr_suffixes-Below rest))
