-- ===== src/Template/Compile/Tests.antt =====
-- A template compiled from the text of its tokens.
use arcgo.Prelude.{◌≡◌, refl, List}
use arcgo.Template.Text.{ok, split_at, trim_left, trim_right}
use arcgo.Template.Scan.{Token, scan_list, scan_loop, is_template_directive}
use arcgo.Template.Scan.Layout.{Layout}
use arcgo.Template.Scan.Print.{print_tokens}
use arcgo.Template.Parse.Tests.{compile_text, nested, nested_tree, nested_builds}
use arcgo.Template.Parse.{build_list, consume_all, append_at, append_in, parse_directive}
use arcgo.Template.Parse.Trees.{Reads}
use arcgo.Template.Parse.Complete.{build_list_iff}
use arcgo.Template.Compile.{compile_template, compile_template_sound, compile_template-print_tokens}
use arcgo.Template.Compile.Errors.{IsAnswer, compile_template-IsAnswer}

compile_template-print_tokens_example :
    compile_template compile_text (print_tokens nested) ≡ ok nested_tree
unfolding split_at trim_left trim_right is_template_directive
compile_template-print_tokens_example =
    compile_template-print_tokens compile_text nested nested_tree
      (
        (refl, refl, refl),
        (
          (refl, refl, refl),
          ((refl, refl), (refl, refl, refl), ((refl, refl, refl), (refl, refl))),
        ),
      )
      ((build_list_iff compile_text nested nested_tree).0 nested_builds)

nested_compiles : compile_template compile_text (print_tokens nested) ≡ ok nested_tree
unfolding compile_template scan_list scan_loop split_at trim_left trim_right is_template_directive
    build_list consume_all append_at append_in parse_directive
nested_compiles = refl

compile_template_sound_example :
    (ts : List Token) × Layout ts (print_tokens nested) × Reads compile_text ts nested_tree
compile_template_sound_example =
    compile_template_sound compile_text (print_tokens nested) nested_tree nested_compiles

compile_template-IsAnswer_example : IsAnswer (compile_template compile_text (print_tokens nested))
compile_template-IsAnswer_example = compile_template-IsAnswer compile_text (print_tokens nested)
