-- ===== src/Template/Parse/Directives.antt =====
-- dbx/sqltmplx/parse/directive_parser.go against the test of dbx/sqltmplx/scan/scanner.go.
use arcgo.Prelude.{
  ◌≡◌, refl, inl, inr, true, false, [], ◌∷◌, ◌++◌, Option, none, some, arith, is_nil, is_some,
  is_nil→nil, Bool-cases,
}
use arcgo.Template.Text.{Str, ok, trim_left, trim_right, trim_space, cut_prefix, str_eqb}
use arcgo.Template.Text.Trim.{trim_right_idem, trim_right_nil}
use arcgo.Template.Scan.{
  is_template_directive, is_directive_word, percent, if_word, where_word, set_word, end_word,
}
use arcgo.Template.Parse.{Directive, parse_directive, if_expr, parse_word}

-- A trimmed `if ` has an expression.
no_spaces_left :
    (r : Str) → trim_right (105 ∷ 102 ∷ 32 ∷ r) ≡ 105 ∷ 102 ∷ 32 ∷ r → trim_right (32 ∷ r) ≡ [] → ⊥
unfolding trim_right
no_spaces_left r h e = cc (rw e at h)

if_expression :
    (t r : Str) → trim_right t ≡ 105 ∷ 102 ∷ 32 ∷ r → is_nil (trim_space (32 ∷ r)) ≡ false
if_expression t r h = elim (Bool-cases (is_nil (trim_space (32 ∷ r)))) [
  | inl e ↦ absurd (no_spaces_left r whole (trim_right_nil (32 ∷ r) (is_nil→nil _ e)))
  | inr e ↦ e
]
  where
    whole : trim_right (105 ∷ 102 ∷ 32 ∷ r) ≡ 105 ∷ 102 ∷ 32 ∷ r
    whole = rw h at (trim_right_idem t)

-- The shape of what the scanner's test accepts.
if_prefix :
    (s : Str)
    → is_some (cut_prefix (if_word ++ (32 ∷ [])) s) ≡ true
    → (r : Str) × (s ≡ 105 ∷ 102 ∷ 32 ∷ r)
if_prefix [] h = cc
if_prefix (a ∷ []) h = ground arith
if_prefix (a ∷ b ∷ []) h = ground arith
if_prefix (a ∷ b ∷ c ∷ r) h = (r, ground arith)

parse_if :
    (t : Str)
    → is_some (cut_prefix (if_word ++ (32 ∷ [])) (trim_right t)) ≡ true
    → (d : Directive) × (if_expr (cut_prefix if_word (trim_right t)) ≡ ok d)
parse_if t h = let (r, e) = if_prefix (trim_right t) h in rw (e, if_expression t r e) (_, refl)

parse_accepted :
    (o : Option Str) → is_directive_word o ≡ true → (d : Directive) × (parse_word o ≡ ok d)
parse_accepted none h = cc
parse_accepted (some rest) h = elim (Bool-cases (str_eqb (trim_space rest) where_word)) [
  | inl e ↦ rw e (_, refl)
  | inr e ↦ elim (Bool-cases (str_eqb (trim_space rest) set_word)) [
    | inl f ↦ rw (e, f) (_, refl)
    | inr f ↦ elim (Bool-cases (str_eqb (trim_space rest) end_word)) [
      | inl g ↦ rw (e, f, g) (_, refl)
      | inr g ↦ rw (e, f, g) (parse_if (trim_left rest) (rw (e, f, g) at h))
    ]
  ]
]

-- parseDirective accepts every directive that the scanner finds.
pub parse_directive_lem :
    (s : Str) → is_template_directive s ≡ true → (d : Directive) × (parse_directive s ≡ ok d)
unfolding parse_directive is_template_directive
parse_directive_lem s h = parse_accepted (cut_prefix percent (trim_space s)) h
