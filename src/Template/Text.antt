-- ===== src/Template/Text.antt =====
-- The functions of Go's `strings` and `unicode` that dbx/sqltmplx calls, on lists of code points.
pub mod Trim
use arcgo.Prelude.{
  ℕ, zero, suc, ◌+◌, ◌≤◌, ◌<◌, ◌≡◌, ◌≢◌, refl, sym, ap, Bool, true, false, ◌&&◌, ◌||◌, not, List,
  [], ◌∷◌, ◌++◌, Option, none, some, if◌then◌else◌, leb, nat_eqb, is_nil, length, arith, Bool-cases,
  inl, inr, length-append,
}

abbrev pub Str : Type 0
Str = List ℕ

-- What a step of the template code returns; `stuck` is no Go value: a loop ran out of fuel.
pub data Error : Type 0 where
  unterminated_directive : Error
  not_a_directive missing_expression unsupported_directive not_compiled : Error
  unexpected_end unclosed_block : Error
  unterminated_sql_comment missing_literal parameter_not_found : Error
  unterminated_balanced unterminated_quoted empty_scalar invalid_cast : Error
  spread_empty spread_type run_failed not_bool : Error

pub data Result {ℓ} (A : Type ℓ) : Type ℓ where
  ok : A → Result A
  err : Error → Result A
  stuck : Result A

infixl 5 ◌>>=◌
abbrev pub ◌>>=◌ {ℓ κ} : {A : Type ℓ} {B : Type κ} → Result A → (A → Result B) → Result B
ok a >>= f = f a
err e >>= f = err e
stuck >>= f = stuck

-- `unicode.IsSpace`
abbrev pub is_space : ℕ → Bool
is_space c =
    (leb 9 c && leb c 13)
    || nat_eqb c 32
    || nat_eqb c 0x85
    || nat_eqb c 0xa0
    || nat_eqb c 0x1680
    || (leb 0x2000 c && leb c 0x200a)
    || nat_eqb c 0x2028
    || nat_eqb c 0x2029
    || nat_eqb c 0x202f
    || nat_eqb c 0x205f
    || nat_eqb c 0x3000

unfoldable pub trim_left : Str → Str
trim_left [] = []
trim_left (c ∷ s) = if is_space c then trim_left s else c ∷ s

unfoldable pub trim_right : Str → Str
trim_right [] = []
trim_right (c ∷ s) = let rest = trim_right s in if is_nil rest && is_space c then [] else c ∷ rest

-- `strings.TrimSpace`
abbrev pub trim_space : Str → Str
trim_space s = trim_right (trim_left s)

-- `==` on strings
abbrev pub str_eqb : Str → Str → Bool
str_eqb [] [] = true
str_eqb (a ∷ s) (b ∷ t) = nat_eqb a b && str_eqb s t
str_eqb s t = false

-- `strings.CutPrefix`: `HasPrefix` is that it cuts, and `TrimPrefix` what it leaves.
abbrev pub cut_prefix : Str → Str → Option Str
cut_prefix [] s = some s
cut_prefix (p ∷ ps) [] = none
cut_prefix (p ∷ ps) (c ∷ s) = if nat_eqb p c then cut_prefix ps s else none

-- `strings.Index` of two characters, with the text before them and the text behind.
abbrev pub put_before : ℕ → Option (Str × Str) → Option (Str × Str)
put_before c none = none
put_before c (some (before, after)) = some (c ∷ before, after)

unfoldable pub split_at : ℕ → ℕ → Str → Option (Str × Str)
split_at a b [] = none
split_at a b (x ∷ []) = none
split_at a b (x ∷ y ∷ s) =
    let rest = put_before x (split_at a b (y ∷ s)) in
    if nat_eqb x a && nat_eqb y b then some ([], s) else rest

pub split_at-append :
    (a b : ℕ) (xs ys : Str)
    → a ≢ b
    → split_at a b xs ≡ none
    → split_at a b (xs ++ (a ∷ b ∷ ys)) ≡ some (xs, ys)
unfolding split_at
split_at-append a b [] ys h e = ground arith
split_at-append a b (x ∷ []) ys h e = ground arith
split_at-append a b (x ∷ y ∷ xs) ys h e = grind (arith, split_at-append a b (y ∷ xs) ys h)

none_cons :
    (a b x y : ℕ) (s before after : Str)
    → (nat_eqb x a && nat_eqb y b) ≡ false
    → y ∷ s ≡ before ++ (a ∷ b ∷ after)
    → split_at a b before ≡ none
    → split_at a b (x ∷ before) ≡ none
unfolding split_at
none_cons a b x y s [] after h e k = refl
none_cons a b x y s (z ∷ before) after h e k = let same : y ≡ z = cc (e) in rw (k, ← same, h) refl

put_before-some :
    (x : ℕ) (o : Option (Str × Str)) {before after : Str}
    → put_before x o ≡ some (before, after)
    → (front : Str) × (o ≡ some (front, after)) × (before ≡ x ∷ front)
put_before-some x none e = cc
put_before-some x (some (front, back)) e = (front, cc (e), cc (e))

split_at_here :
    (a b x y : ℕ) (s before after : Str)
    → (nat_eqb x a && nat_eqb y b) ≡ true
    → ◌≡◌ {A = Option (Str × Str)} (some ([], s)) (some (before, after))
    → (x ∷ y ∷ s ≡ before ++ (a ∷ b ∷ after)) × (split_at a b before ≡ none)
unfolding split_at
split_at_here a b x y s before after h e = grind (arith, e)

pub split_at_sound :
    (a b : ℕ) (s before after : Str)
    → split_at a b s ≡ some (before, after)
    → (s ≡ before ++ (a ∷ b ∷ after)) × (split_at a b before ≡ none)
unfolding split_at
split_at_sound a b [] before after e = cc
split_at_sound a b (x ∷ []) before after e = cc
split_at_sound a b (x ∷ y ∷ s) before after e = elim (Bool-cases (nat_eqb x a && nat_eqb y b)) [
  | inl h ↦ split_at_here a b x y s before after h (rw h at e)
  | inr h ↦
      let (front, found, e') = put_before-some x (split_at a b (y ∷ s)) (rw h at e) in
      let (whole, free) = split_at_sound a b (y ∷ s) front after found in
      rw e' (rw whole refl, none_cons a b x y s front _ h whole free)
]

pub split_at-length :
    (a b : ℕ) (s before after : Str)
    → split_at a b s ≡ some (before, after)
    → length s ≡ length before + 2 + length after
split_at-length a b s before after e =
    rw (split_at_sound a b s before after e).0 (omega (arith, length-append before (a ∷ b ∷ after)))

pub bind_ok {ℓ κ} :
    {A : Type ℓ} {B : Type κ} (r : Result A) (f : A → Result B) {b : B}
    → (r >>= f) ≡ ok b
    → (a : A) × (r ≡ ok a) × (f a ≡ ok b)
bind_ok (ok a) f e = (a, refl, e)
bind_ok (err x) f e = cc
bind_ok stuck f e = cc

pub ok_inj {ℓ} : {A : Type ℓ} {a b : A} → ok a ≡ ok b → a ≡ b
ok_inj e = cc
