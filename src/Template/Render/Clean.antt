-- ===== src/Template/Render/Clean.antt =====
-- dbx/sqltmplx/render/cleanup.go: blocks of conditions and of assignments, and white space. The two
-- regular expressions are written out; `\s` and `\b` are those of ASCII.
pub mod Words
use arcgo.Prelude.{
  ℕ, zero, suc, ◌+◌, ◌≡◌, refl, sym, ap, ◌∙◌, ◌⊎◌, inl, inr, Bool, true, false, ◌&&◌, ◌||◌, not,
  List, [], ◌∷◌, ◌++◌, Option, none, some, if◌then◌else◌, leb, nat_eqb, is_nil, Bool-cases,
}
use arcgo.Template.Text.Trim.{trim_space_idem}
use arcgo.Template.Text.{Str, is_space, trim_left, trim_right, trim_space}

abbrev regexp_space : ℕ → Bool
regexp_space c = nat_eqb c 9 || nat_eqb c 10 || nat_eqb c 12 || nat_eqb c 13 || nat_eqb c 32

abbrev word_char : ℕ → Bool
word_char c =
    (leb 48 c && leb c 57) || (leb 65 c && leb c 90) || (leb 97 c && leb c 122) || nat_eqb c 95

abbrev lower : ℕ → ℕ
lower c = if leb 65 c && leb c 90 then c + 32 else c

abbrev skip_regexp_space : Str → Str
skip_regexp_space [] = []
skip_regexp_space (c ∷ s) = if regexp_space c then skip_regexp_space s else c ∷ s

abbrev at_boundary : Str → Option Str
at_boundary [] = some []
at_boundary (c ∷ s) = if word_char c then none else some (c ∷ s)

-- A word in letters of any case, up to its end.
abbrev cut_word : Str → Str → Option Str
cut_word [] s = at_boundary s
cut_word (p ∷ ps) [] = none
cut_word (p ∷ ps) (c ∷ s) = if nat_eqb (lower c) p then cut_word ps s else none

abbrev or_else : Option Str → Option Str → Option Str
or_else (some s) o = some s
or_else none o = o

abbrev kept_or : Option Str → Str → Str
kept_or none s = s
kept_or (some rest) s = rest

-- `leadingBool`: `and` and `or`
unfoldable pub cut_leading_bool : Str → Str
cut_leading_bool s =
    let t = skip_regexp_space s in
    kept_or (or_else (cut_word (97 ∷ 110 ∷ 100 ∷ []) t) (cut_word (111 ∷ 114 ∷ []) t)) s

-- `trailingComma`
pub cut_trailing_comma : Str → Str
cut_trailing_comma [] = []
cut_trailing_comma (c ∷ s) =
    let rest = cut_trailing_comma s in
    if nat_eqb c 44 && is_nil (skip_regexp_space s) then [] else c ∷ rest

-- `WHERE ` and `SET `
abbrev pub where_prefix : Str
where_prefix = 87 ∷ 72 ∷ 69 ∷ 82 ∷ 69 ∷ 32 ∷ []

abbrev pub set_prefix : Str
set_prefix = 83 ∷ 69 ∷ 84 ∷ 32 ∷ []

abbrev prefixed : Str → Str → Str
prefixed prefix s = if is_nil s then [] else prefix ++ s

unfoldable pub cleanup_where : Str → Str
cleanup_where s = prefixed where_prefix (trim_space (cut_leading_bool (trim_space s)))

pub cleanup_set : Str → Str
cleanup_set s = prefixed set_prefix (trim_space (cut_trailing_comma (trim_space s)))

-- `strings.Fields`, with the word so far.
unfoldable pub fields_loop : Str → Str → List Str
fields_loop word [] = if is_nil word then [] else word ∷ []
fields_loop word (c ∷ s) =
    let space = is_space c in
    let rest = fields_loop (if space then [] else word ++ (c ∷ [])) s in
    if space && not (is_nil word) then word ∷ rest else rest

abbrev pub fields : Str → List Str
fields s = fields_loop [] s

abbrev pub join_words : List Str → Str
join_words [] = []
join_words (w ∷ []) = w
join_words (w ∷ v ∷ ws) = w ++ (32 ∷ join_words (v ∷ ws))

-- No field is empty, so `lo.Compact` takes none out.
unfoldable pub compact_whitespace : Str → Str
compact_whitespace s = join_words (fields s)

prefixed_lem :
    (prefix s : Str)
    → trim_space s ≡ s
    → (prefixed prefix s ≡ [])
      ⊎ ((t : Str) × (prefixed prefix s ≡ prefix ++ t) × (is_nil t ≡ false) × (trim_space t ≡ t))
prefixed_lem prefix [] h = inl refl
prefixed_lem prefix (c ∷ s) h = inr (c ∷ s, refl, refl, h)

-- A block is dropped, or it is the keyword with a text that is not empty and has no spaces around it.
pub cleanup_where_lem :
    (s : Str)
    → (cleanup_where s ≡ [])
      ⊎ ((t : Str) × (cleanup_where s ≡ where_prefix ++ t)
          × (is_nil t ≡ false)
          × (trim_space t ≡ t))
unfolding cleanup_where
cleanup_where_lem s =
    prefixed_lem where_prefix _ (trim_space_idem (cut_leading_bool (trim_space s)))
