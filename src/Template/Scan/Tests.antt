-- ===== src/Template/Scan/Tests.antt =====
-- Templates with a directive, a plain comment, and a comment without an end.
use arcgo.Prelude.{◌≡◌, false, refl, List, [], ◌∷◌, ◌++◌}
use arcgo.Template.Text.{ok, err, unterminated_directive, split_at, trim_left, trim_right}
use arcgo.Template.Scan.{
  Token, token, text, directive, comment, scan_list, scan_loop, is_template_directive,
}
use arcgo.Template.Scan.Print.{print_tokens, scan_list-print_tokens}

-- "a/*%if x*/b/*%end*/"
abbrev printed : List Token
printed =
    token text (97 ∷ [])
    ∷ token directive (37 ∷ 105 ∷ 102 ∷ 32 ∷ 120 ∷ [])
    ∷ token text (98 ∷ [])
    ∷ token directive (37 ∷ 101 ∷ 110 ∷ 100 ∷ [])
    ∷ []

-- "/* c */x" is one text, and "/* %end*/" a directive.
comment_is_text :
    scan_list (comment (32 ∷ 99 ∷ 32 ∷ []) ++ (120 ∷ []))
    ≡ ok (token text (comment (32 ∷ 99 ∷ 32 ∷ []) ++ (120 ∷ [])) ∷ [])
unfolding scan_list scan_loop split_at trim_left trim_right is_template_directive
comment_is_text = refl

spaces_trimmed :
    scan_list (comment (32 ∷ 37 ∷ 101 ∷ 110 ∷ 100 ∷ []))
    ≡ ok (token directive (37 ∷ 101 ∷ 110 ∷ 100 ∷ []) ∷ [])
unfolding scan_list scan_loop split_at trim_left trim_right is_template_directive
spaces_trimmed = refl

-- "%if" without an expression is no directive for the scanner.
bare_if : is_template_directive (37 ∷ 105 ∷ 102 ∷ []) ≡ false
unfolding trim_left trim_right is_template_directive
bare_if = refl

unterminated : scan_list (97 ∷ 47 ∷ 42 ∷ 98 ∷ []) ≡ err unterminated_directive
unfolding scan_list scan_loop split_at
unterminated = refl

scan_list-print_tokens_example : scan_list (print_tokens printed) ≡ ok printed
unfolding split_at trim_left trim_right is_template_directive
scan_list-print_tokens_example =
    scan_list-print_tokens printed
      ((refl, refl), (refl, refl, refl), ((refl, refl), (refl, refl, refl), tt))
