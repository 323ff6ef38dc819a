-- ===== src/Template/Scan.antt =====
-- dbx/sqltmplx/scan: a template is split into text and directive comments.
pub mod Layout
pub mod Print
mod Tests
use arcgo.Prelude.{
  ℕ, zero, suc, ◌≡◌, Bool, true, false, ◌||◌, List, [], ◌∷◌, ◌++◌, Option, none, some,
  if◌then◌else◌, is_nil, is_some, length,
}
use arcgo.Template.Text.{
  Str, Result, ok, err, stuck, unterminated_directive, split_at, trim_space, cut_prefix, str_eqb,
}

pub data Kind : Type 0 where
  text directive : Kind

-- `Token{Kind, Value}`, with a constructor to match on.
pub data Token : Type 0 where
  token : Kind → Str → Token

-- `%`, `if`, `where`, `set`, `end`
abbrev pub percent : Str
percent = 37 ∷ []

abbrev pub if_word : Str
if_word = 105 ∷ 102 ∷ []

abbrev pub where_word : Str
where_word = 119 ∷ 104 ∷ 101 ∷ 114 ∷ 101 ∷ []

abbrev pub set_word : Str
set_word = 115 ∷ 101 ∷ 116 ∷ []

abbrev pub end_word : Str
end_word = 101 ∷ 110 ∷ 100 ∷ []

abbrev pub is_directive_word : Option Str → Bool
is_directive_word none = false
is_directive_word (some rest) =
    let s = trim_space rest in
    str_eqb s where_word
    || str_eqb s set_word
    || str_eqb s end_word
    || is_some (cut_prefix (if_word ++ (32 ∷ [])) s)

unfoldable pub is_template_directive : Str → Bool
is_template_directive s = is_directive_word (cut_prefix percent (trim_space s))

-- `"/*" + body + "*/"`
abbrev pub comment : Str → Str
comment body = 47 ∷ 42 ∷ (body ++ (42 ∷ 47 ∷ []))

abbrev pub flush_text : List Token → Str → List Token
flush_text tokens buf = if is_nil buf then tokens else tokens ++ (token text buf ∷ [])

-- One comment with what is behind it, the search for its end done. `go` is the rest of the loop.
abbrev pub scan_comment :
    List Token
    → Str
    → Option (Str × Str)
    → (List Token → Str → Str → Result (List Token))
    → Result (List Token)
scan_comment tokens buf none go = err unterminated_directive
scan_comment tokens buf (some (raw_body, input)) go =
    let raw = trim_space raw_body in
    if is_template_directive raw
    then go (flush_text tokens buf ++ (token directive raw ∷ [])) [] input
    else go tokens (buf ++ comment raw_body) input

abbrev pub scan_piece :
    List Token
    → Str
    → Str
    → Option (Str × Str)
    → (List Token → Str → Str → Result (List Token))
    → Result (List Token)
scan_piece tokens buf input none go = ok (flush_text tokens (buf ++ input))
scan_piece tokens buf input (some (before, after)) go =
    scan_comment tokens (buf ++ before) (split_at 42 47 after) go

-- The loop on fuel; a round takes a comment off the input.
unfoldable pub scan_loop : ℕ → List Token → Str → Str → Result (List Token)
scan_loop fuel tokens buf [] = ok (flush_text tokens buf)
scan_loop zero tokens buf (c ∷ input) = stuck
scan_loop (suc fuel) tokens buf (c ∷ input) =
    scan_piece tokens buf (c ∷ input) (split_at 47 42 (c ∷ input)) (scan_loop fuel)

unfoldable pub scan_list : Str → Result (List Token)
scan_list input = scan_loop (length input) [] [] input
