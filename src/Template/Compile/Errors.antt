-- ===== src/Template/Compile/Errors.antt =====
-- dbx/sqltmplx/template.go: the ways in which a template can fail to compile.
use arcgo.Prelude.{
  ◌≡◌, refl, Bool, true, false, List, [], ◌∷◌, Option, none, some, inl, inr, length, nat_eqb,
  Bool-cases,
}
use arcgo.Template.Text.{
  Str, Error, unterminated_directive, not_compiled, unexpected_end, unclosed_block, Result, ok, err,
  stuck, ◌>>=◌,
}
use arcgo.Template.Scan.{Token, token, text, directive, is_template_directive}
use arcgo.Template.Scan.Layout.{Layout, finish, text_first, directive_first, scan_list_lem}
use arcgo.Template.Parse.{
  Directive, if_directive, where_directive, set_directive, end_directive, Building, push_if,
  pop_frame, consume_directive, consume_all, closed, build_list,
}
use arcgo.Template.Parse.Directives.{parse_directive_lem}
use arcgo.Template.Compile.{compile_template}

-- The errors that a template can meet: a comment or a block without an end, an end without a
-- block, and an expression that does not compile.
abbrev pub is_template_error : Error → Bool
is_template_error unterminated_directive = true
is_template_error not_compiled = true
is_template_error unexpected_end = true
is_template_error unclosed_block = true
is_template_error e = false

-- A result or such an error, and never a loop that runs out of fuel.
abbrev pub IsAnswer {ℓ} : {A : Type ℓ} → Result A → Type 0
IsAnswer (ok a) = Unit
IsAnswer (err e) = is_template_error e ≡ true
IsAnswer stuck = ⊥

bind-IsAnswer {ℓ κ} :
    {A : Type ℓ} {B : Type κ} (r : Result A) (f : A → Result B)
    → IsAnswer r
    → ((a : A) → IsAnswer (f a))
    → IsAnswer (r >>= f)
bind-IsAnswer (ok a) f h k = k a
bind-IsAnswer (err e) f h k = h
bind-IsAnswer stuck f h k = h

-- Directives that the scanner found.
abbrev Found : List Token → Type 0
Found [] = Unit
Found (token text v ∷ ts) = Found ts
Found (token directive v ∷ ts) = (is_template_directive v ≡ true) × Found ts

Layout-Found : {ts : List Token} {s : Str} → Layout ts s → Found ts
Layout-Found finish = tt
Layout-Found (text_first v h) = Layout-Found h
Layout-Found (directive_first raw d free h) = (d, Layout-Found h)

module _ {P : Type 0} where
  push_if-IsAnswer : (b : Building P) (s : Str) (o : Option P) → IsAnswer (push_if b s o)
  push_if-IsAnswer b s none = refl
  push_if-IsAnswer b s (some p) = tt

  pop_frame-IsAnswer : (b : Building P) → IsAnswer (pop_frame b)
  pop_frame-IsAnswer b = elim (Bool-cases (nat_eqb (length b.stack) 1)) [
    | inl e ↦ rw e refl
    | inr e ↦ rw e tt
  ]

  closed-IsAnswer : (b : Building P) → IsAnswer (closed b)
  closed-IsAnswer b = elim (Bool-cases (nat_eqb (length b.stack) 1)) [
    | inl e ↦ rw e tt
    | inr e ↦ rw e refl
  ]

module _ {P : Type 0} (compile : Str → Option P) where
  consume_directive-IsAnswer :
      (b : Building P) (d : Directive) → IsAnswer (consume_directive compile b d)
  consume_directive-IsAnswer b (if_directive s) = push_if-IsAnswer b s (compile s)
  consume_directive-IsAnswer b where_directive = tt
  consume_directive-IsAnswer b set_directive = tt
  consume_directive-IsAnswer b end_directive = pop_frame-IsAnswer b

  consume_all-IsAnswer :
      (b : Building P) (ts : List Token) → Found ts → IsAnswer (consume_all compile b ts)
  unfolding consume_all
  consume_all-IsAnswer b [] h = tt
  consume_all-IsAnswer b (token text v ∷ ts) h = consume_all-IsAnswer _ ts h
  consume_all-IsAnswer b (token directive v ∷ ts) (d, h) =
      let (dir, e) = parse_directive_lem v d in
      rw e (
        bind-IsAnswer (consume_directive compile b dir) (λ b'. consume_all compile b' ts)
          (consume_directive-IsAnswer b dir) (λ b'. consume_all-IsAnswer b' ts h))

  build_list-IsAnswer : (ts : List Token) → Found ts → IsAnswer (build_list compile ts)
  unfolding build_list
  build_list-IsAnswer ts h =
      bind-IsAnswer (consume_all compile _ ts) closed (consume_all-IsAnswer _ ts h) closed-IsAnswer

  -- Compiling any template ends with a tree, or with one of the four errors of the template: a
  -- comment that is not closed, an expression that does not compile, an end without a block, a
  -- block without an end; the fuel does not run out, and no directive that the scanner lets
  -- through is refused by the parser.
  pub compile_template-IsAnswer : (tpl : Str) → IsAnswer (compile_template compile tpl)
  unfolding compile_template
  compile_template-IsAnswer tpl = elim (scan_list_lem tpl) [
    | inl (ts, e, h) ↦ rw e (build_list-IsAnswer ts (Layout-Found h))
    | inr (e, _) ↦ rw e refl
  ]
