-- ===== src/Template/Compile.antt =====
-- dbx/sqltmplx/template.go: `compileTemplate` scans and then builds.
pub mod Errors
mod Tests
use mathlib.Core.Path.{subst}
use arcgo.Prelude.{sym, ◌∙◌, ◌≡◌, ◌⊎◌, inl, inr, refl, List, Option}
use arcgo.Template.Text.{Str, Result, ok, err, ◌>>=◌, bind_ok, ok_inj}
use arcgo.Template.Scan.{Token, scan_list}
use arcgo.Template.Scan.Layout.{Layout, scan_list_lem}
use arcgo.Template.Scan.Print.{IsPrintable, print_tokens, scan_list-print_tokens}
use arcgo.Template.Parse.{Nodes, build_list}
use arcgo.Template.Parse.Trees.{Reads}
use arcgo.Template.Parse.Complete.{build_list_iff}

module _ {P : Type 0} (compile : Str → Option P) where
  unfoldable pub compile_template : Str → Result (Nodes P)
  compile_template tpl = do tokens ← scan_list tpl; build_list compile tokens

  -- A template that compiles has tokens that account for its text, comments that are no directives
  -- included, and that spell the tree it compiles to.
  pub compile_template_sound :
      (tpl : Str) (ns : Nodes P)
      → compile_template tpl ≡ ok ns
      → (ts : List Token) × Layout ts tpl × Reads compile ts ns
  unfolding compile_template
  compile_template_sound tpl ns e =
      let (ts, scanned, built) = bind_ok (scan_list tpl) (build_list compile) e in
      elim (scan_list_lem tpl) [
        | inl (us, h, layout) ↦ (
          us,
          layout,
          (build_list_iff compile us ns).0
              (subst (λ t. build_list compile t ≡ ok ns) (ok_inj (sym scanned ∙ h)) built),
        )
        | inr (h, _) ↦ cc
      ]

  -- The printed text of printable tokens that spell a tree compiles to that tree.
  pub compile_template-print_tokens :
      (ts : List Token) (ns : Nodes P)
      → IsPrintable ts
      → Reads compile ts ns
      → compile_template (print_tokens ts) ≡ ok ns
  unfolding compile_template
  compile_template-print_tokens ts ns h r =
      rw (scan_list-print_tokens ts h) ((build_list_iff compile ts ns).1 r)
