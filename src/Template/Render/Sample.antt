-- ===== src/Template/Render/Sample.antt =====
-- dbx/sqltmplx/render/bind_scan.go: the test literal behind a placeholder. An index into the input
-- is the text from there on. The code reads bytes, so the model is exact for text in ASCII; the
-- loops run on fuel.
use arcgo.Prelude.{
  ℕ, zero, suc, ◌+◌, ◌-◌, Bool, true, false, ◌&&◌, ◌||◌, not, [], ◌∷◌, Option, none, some,
  if◌then◌else◌, leb, nat_eqb, length,
}
use arcgo.Template.Text.{
  Str, Result, ok, err, stuck, ◌>>=◌, is_space, trim_left, unterminated_balanced,
  unterminated_quoted, empty_scalar, invalid_cast,
}

-- `unicode.IsLetter` and `unicode.IsDigit` on a byte
abbrev pub is_letter : ℕ → Bool
is_letter c =
    (leb 65 c && leb c 90)
    || (leb 97 c && leb c 122)
    || nat_eqb c 0xaa
    || nat_eqb c 0xb5
    || nat_eqb c 0xba
    || (leb 0xc0 c && leb c 0xff && not (nat_eqb c 0xd7) && not (nat_eqb c 0xf7))

abbrev pub is_digit : ℕ → Bool
is_digit c = leb 48 c && leb c 57

abbrev pub is_identifier_start : ℕ → Bool
is_identifier_start c = nat_eqb c 95 || is_letter c

abbrev pub is_identifier_part : ℕ → Bool
is_identifier_part c = nat_eqb c 95 || is_letter c || is_digit c

-- `for i < len(input) && p(input[i]) { i++ }`
unfoldable pub skip_while : (ℕ → Bool) → Str → Str
skip_while p [] = []
skip_while p (c ∷ s) = if p c then skip_while p s else c ∷ s

-- Behind the opening quote. `closing`: the byte before was a quote, and ends the literal unless one
-- follows.
unfoldable pub quoted_loop : ℕ → Bool → Str → Result Str
quoted_loop quote true [] = ok []
quoted_loop quote false [] = err unterminated_quoted
quoted_loop quote false (c ∷ s) = quoted_loop quote (nat_eqb c quote) s
quoted_loop quote true (c ∷ s) =
    let rest = quoted_loop quote false s in if nat_eqb c quote then rest else ok (c ∷ s)

abbrev pub skip_quoted : ℕ → Str → Result Str
skip_quoted quote s = quoted_loop quote false s

abbrev pub is_quote : ℕ → Bool
is_quote c = nat_eqb c 39 || nat_eqb c 34

-- `depth` is 0 at the first byte only, which opens.
unfoldable pub skip_balanced : ℕ → ℕ → ℕ → ℕ → Str → Result Str
skip_balanced fuel opening closing depth [] = err unterminated_balanced
skip_balanced zero opening closing depth (c ∷ s) = stuck
skip_balanced (suc fuel) opening closing depth (c ∷ s) =
    let go = skip_balanced fuel opening closing in
    if is_quote c
    then (do rest ← skip_quoted c s; go depth rest)
    else if nat_eqb c opening
    then go (depth + 1) s
    else if nat_eqb c closing
    then (if nat_eqb depth 1 then ok s else go (depth - 1) s)
    else go depth s

-- From an open bracket on.
abbrev pub skip_brackets : ℕ → ℕ → Str → Result Str
skip_brackets opening closing s = skip_balanced (length s) opening closing 0 s

-- `skipIdentifierCall`: nothing where no call follows.
abbrev pub call_at : Str → Option (Result Str)
call_at [] = none
call_at (c ∷ s) = if nat_eqb c 40 then some (skip_brackets 40 41 (c ∷ s)) else none

abbrev pub skip_identifier_call : Str → Option (Result Str)
skip_identifier_call s = call_at (trim_left s)

abbrev pub skip_found : Option (Result Str) → Str → (Str → Result Str) → Result Str
skip_found none s go = ok s
skip_found (some r) s go = r >>= go

-- A loop that goes on while `next` finds something to skip.
unfoldable pub skip_loop : (Str → Option (Result Str)) → ℕ → Str → Result Str
skip_loop next zero s = stuck
skip_loop next (suc fuel) s = skip_found (next s) s (skip_loop next fuel)

-- From the first byte of an identifier on.
unfoldable pub skip_identifier_expr : Str → Result Str
skip_identifier_expr [] = ok []
skip_identifier_expr (c ∷ s) =
    let rest = skip_while is_identifier_part s in
    skip_loop skip_identifier_call (suc (length rest)) rest

abbrev starts_with : ℕ → Str → Bool
starts_with c [] = false
starts_with c (d ∷ s) = nat_eqb c d

-- `scanCastTypeSuffix`, with `isCastIdentifierChar` and `hasArraySuffix`. `paired`: the first byte
-- is the second one of `[]`.
unfoldable pub cast_loop : Bool → Str → Str
cast_loop paired [] = []
cast_loop paired (c ∷ s) =
    let part = is_identifier_part c || nat_eqb c 46 in
    let opens = not paired && not part && nat_eqb c 91 && starts_with 93 s in
    let rest = cast_loop opens s in if paired || part || opens then rest else c ∷ s

abbrev pub scan_cast_type_suffix : Str → Str
scan_cast_type_suffix s = cast_loop false s

-- Behind `::`.
abbrev pub cast_type : Str → Result Str
cast_type [] = err invalid_cast
cast_type (c ∷ s) = if is_identifier_start c then ok (scan_cast_type_suffix s) else err invalid_cast

-- `skipCastSuffix`, and `skipIndexSuffix` where there is no cast.
abbrev pub suffix_at : Str → Option (Result Str)
suffix_at [] = none
suffix_at (c ∷ []) = if nat_eqb c 91 then some (skip_brackets 91 93 (c ∷ [])) else none
suffix_at (c ∷ d ∷ s) =
    if nat_eqb c 58 && nat_eqb d 58
    then some (cast_type s)
    else if nat_eqb c 91
    then some (skip_brackets 91 93 (c ∷ d ∷ s))
    else none

abbrev pub next_expr_suffix : Str → Option (Result Str)
next_expr_suffix s = suffix_at (trim_left s)

unfoldable pub skip_expr_suffixes : Str → Result Str
skip_expr_suffixes s = skip_loop next_expr_suffix (suc (length s)) s

abbrev pub ends_scalar : ℕ → Bool
ends_scalar c = is_space c || nat_eqb c 44 || nat_eqb c 41 || nat_eqb c 40 || nat_eqb c 93

unfoldable pub skip_scalar_token : Str → Result Str
skip_scalar_token [] = err empty_scalar
skip_scalar_token (c ∷ s) =
    if ends_scalar c then err empty_scalar else ok (skip_while (λ d. not (ends_scalar d)) s)

-- `skipPlaceholderSample` up to the suffixes. The caller has seen a byte at least, so that the
-- source does not index an empty text, for which this is an error.
abbrev pub skip_literal : Str → Result Str
skip_literal [] = err empty_scalar
skip_literal (c ∷ s) =
    if nat_eqb c 40
    then skip_brackets 40 41 (c ∷ s)
    else if is_quote c
    then skip_quoted c s
    else if is_identifier_start c
    then skip_identifier_expr (c ∷ s)
    else skip_scalar_token (c ∷ s)

unfoldable pub skip_placeholder_sample : Str → Result Str
skip_placeholder_sample s = do rest ← skip_literal s; skip_expr_suffixes rest

-- `looksLikeCollectionSample`
abbrev starts_index : Str → Bool
starts_index [] = false
starts_index (c ∷ s) = nat_eqb c 91

abbrev pub looks_like_collection_sample : Str → Bool
looks_like_collection_sample [] = false
looks_like_collection_sample (c ∷ s) =
    is_identifier_start c && starts_index (skip_while is_identifier_part s)
