-- ===== src/Template/Scan/Print.antt =====
-- dbx/sqltmplx/scan: printed tokens scan back.

use mathlib.Core.List.{append_assoc, append-nil}
use arcgo.Prelude.{
  ℕ, zero, suc, ◌≤◌, ◌≡◌, refl, ap, ◌∙◌, true, false, List, [], ◌∷◌, ◌++◌, none, arith, length,
  length-append, is_nil,
}
use arcgo.Template.Text.{Str, Result, ok, split_at, split_at-append, trim_space}
use arcgo.Template.Scan.{
  Token, text, directive, token, is_template_directive, comment, flush_text, scan_comment,
  scan_loop, scan_list,
}

abbrev pub print_tokens : List Token → Str
print_tokens [] = []
print_tokens (token text v ∷ ts) = v ++ print_tokens ts
print_tokens (token directive v ∷ ts) = comment v ++ print_tokens ts

abbrev pub IsTextValue : Str → Type 0
IsTextValue v = (is_nil v ≡ false) × (split_at 47 42 v ≡ none)

abbrev pub IsDirectiveValue : Str → Type 0
IsDirectiveValue v =
    (trim_space v ≡ v) × (is_template_directive v ≡ true) × (split_at 42 47 v ≡ none)

-- A text is not empty, starts no comment and follows no other text; a directive is one, without
-- spaces around it or an end of comment in it.
abbrev pub IsPrintable : List Token → Type 0
IsPrintable [] = Unit
IsPrintable (token text v ∷ []) = IsTextValue v
IsPrintable (token text v ∷ token text w ∷ ts) = ⊥
IsPrintable (token text v ∷ token directive w ∷ ts) =
    IsTextValue v × IsDirectiveValue w × IsPrintable ts
IsPrintable (token directive v ∷ ts) = IsDirectiveValue v × IsPrintable ts

scan_comment_directive :
    (tokens : List Token) (buf v rest : Str) (go : List Token → Str → Str → Result (List Token))
    → IsDirectiveValue v
    → scan_comment tokens buf (split_at 42 47 ((v ++ (42 ∷ 47 ∷ [])) ++ rest)) go
      ≡ go (flush_text tokens buf ++ (token directive v ∷ [])) [] rest
scan_comment_directive tokens buf v rest go (h, d, free) =
    let d' : is_template_directive (trim_space v) ≡ true = rw h d in
    rw (append_assoc, split_at-append 42 47 v rest (omega arith) free, d') (rw h refl)

scan_directive :
    (fuel : ℕ) (tokens : List Token) (v rest : Str)
    → IsDirectiveValue v
    → scan_loop (suc fuel) tokens [] (comment v ++ rest)
      ≡ scan_loop fuel (tokens ++ (token directive v ∷ [])) [] rest
unfolding scan_loop split_at
scan_directive fuel tokens v rest h = scan_comment_directive tokens [] v rest (scan_loop fuel) h

-- A text before a directive, and one at the end.
scan_text_last :
    (fuel : ℕ) (tokens : List Token) (v : Str)
    → is_nil v ≡ false
    → split_at 47 42 v ≡ none
    → scan_loop (suc fuel) tokens [] v ≡ ok (tokens ++ (token text v ∷ []))
unfolding scan_loop
scan_text_last fuel tokens [] h e = cc
scan_text_last fuel tokens (c ∷ v) h e = rw e refl

scan_text_directive :
    (fuel : ℕ) (tokens : List Token) (t v rest : Str)
    → IsTextValue t
    → IsDirectiveValue v
    → scan_loop (suc fuel) tokens [] (t ++ (comment v ++ rest))
      ≡ scan_loop fuel ((tokens ++ (token text t ∷ [])) ++ (token directive v ∷ [])) [] rest
unfolding scan_loop
scan_text_directive fuel tokens [] v rest (n, s) h = cc
scan_text_directive fuel tokens (c ∷ t) v rest (n, s) h =
    rw (split_at-append 47 42 (c ∷ t) ((v ++ (42 ∷ 47 ∷ [])) ++ rest) (omega arith) s)
      (scan_comment_directive tokens (c ∷ t) v rest (scan_loop fuel) h)

some_text : (v rest : Str) → is_nil v ≡ false → length (v ++ rest) ≤ 0 → ⊥
some_text [] rest h k = cc
some_text (c ∷ v) rest h k = omega arith

text_before :
    (v w : Str) (n : ℕ) (rest : Str) → length (v ++ (comment w ++ rest)) ≤ suc n → length rest ≤ n
text_before v w n rest k =
    omega (arith, k, length-append v (comment w ++ rest), length-append (comment w) rest)

scan_printed :
    (fuel : ℕ) (tokens ts : List Token)
    → IsPrintable ts
    → length (print_tokens ts) ≤ fuel
    → scan_loop fuel tokens [] (print_tokens ts) ≡ ok (tokens ++ ts)
scan_printed fuel tokens [] h k = unfold scan_loop in rw append-nil refl
scan_printed zero tokens (token directive v ∷ ts) h k = absurd (omega arith)
scan_printed zero tokens (token text v ∷ []) (n, s) k = absurd (some_text v [] n k)
scan_printed zero tokens (token text v ∷ token text w ∷ ts) h k = absurd h
scan_printed zero tokens (token text v ∷ token directive w ∷ ts) (h, d, hs) k =
    absurd (some_text v (comment w ++ print_tokens ts) h.0 k)
scan_printed (suc fuel) tokens (token directive v ∷ ts) (h, hs) k =
    scan_directive fuel tokens v (print_tokens ts) h
    ∙ scan_printed fuel (tokens ++ (token directive v ∷ [])) ts hs (text_before [] v fuel _ k)
    ∙ ap ok (append_assoc tokens (token directive v ∷ []) ts)
scan_printed (suc fuel) tokens (token text v ∷ []) (n, s) k =
    rw append-nil (scan_text_last fuel tokens v n s)
scan_printed (suc fuel) tokens (token text v ∷ token text w ∷ ts) h k = absurd h
scan_printed (suc fuel) tokens (token text v ∷ token directive w ∷ ts) (h, d, hs) k =
    scan_text_directive fuel tokens v w (print_tokens ts) h d
    ∙ scan_printed fuel _ ts hs (text_before v w fuel _ k)
    ∙ ap ok (
        append_assoc (tokens ++ (token text v ∷ [])) (token directive w ∷ []) ts
        ∙ append_assoc tokens (token text v ∷ []) (token directive w ∷ ts))

-- Printed tokens scan back to the tokens, where a text is not empty, opens no comment and has no
-- text next to it, and a directive is trimmed, is one, and closes no comment.
pub scan_list-print_tokens :
    (ts : List Token) → IsPrintable ts → scan_list (print_tokens ts) ≡ ok ts
unfolding scan_list
scan_list-print_tokens ts h = scan_printed _ [] ts h (omega arith)
