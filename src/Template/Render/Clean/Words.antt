-- ===== src/Template/Render/Clean/Words.antt =====
-- dbx/sqltmplx/render/cleanup.go: the words of a text, and the spaces between them.
use mathlib.Core.List.{append_assoc, append-nil}
use arcgo.Prelude.{
  ℕ, ◌≡◌, refl, sym, ap, ◌∙◌, false, ◌||◌, List, [], ◌∷◌, ◌++◌, is_nil, not, Bool, true, ◌&&◌,
  nat_eqb, arith, Bool-cases, inl, inr, All, if◌then◌else◌,
}
use arcgo.Template.Text.{Str, is_space}
use arcgo.Template.Render.Clean.{fields_loop, fields, join_words, compact_whitespace}

abbrev has_space : Str → Bool
has_space [] = false
has_space (c ∷ s) = is_space c || has_space s

-- Not empty and without spaces.
abbrev pub IsWord : Str → Type 0
IsWord w = (is_nil w ≡ false) × (has_space w ≡ false)

has_space-snoc :
    (w : Str) (c : ℕ) → has_space w ≡ false → is_space c ≡ false → has_space (w ++ (c ∷ [])) ≡ false
has_space-snoc [] c h k = rw k refl
has_space-snoc (d ∷ w) c h k = elim (Bool-cases (is_space d)) [
  | inl e ↦ cc (rw e at h)
  | inr e ↦ rw e (has_space-snoc w c (rw e at h) k)
]

pushed :
    (word : Str) (rest : List Str)
    → has_space word ≡ false
    → All IsWord rest
    → All IsWord (if not (is_nil word) then word ∷ rest else rest)
pushed [] rest h k = k
pushed (c ∷ word) rest h k = ((refl, h), k)

fields_loop-IsWord : (word s : Str) → has_space word ≡ false → All IsWord (fields_loop word s)
unfolding fields_loop
fields_loop-IsWord [] [] h = tt
fields_loop-IsWord (w ∷ word) [] h = ((refl, h), tt)
fields_loop-IsWord word (c ∷ s) h = elim (Bool-cases (is_space c)) [
  | inl e ↦ rw e (pushed word _ h (fields_loop-IsWord [] s refl))
  | inr e ↦ rw e (fields_loop-IsWord (word ++ (c ∷ [])) s (has_space-snoc word c h e))
]

-- A word without spaces is read as one.
fields_loop-append :
    (word w s : Str) → has_space w ≡ false → fields_loop word (w ++ s) ≡ fields_loop (word ++ w) s
unfolding fields_loop
fields_loop-append word [] s h = rw append-nil refl
fields_loop-append word (c ∷ w) s h = elim (Bool-cases (is_space c)) [
  | inl e ↦ cc (rw e at h)
  | inr e ↦ rw e (
      fields_loop-append (word ++ (c ∷ [])) w s (rw e at h)
      ∙ ap (λ (t : Str). fields_loop t s) (append_assoc word (c ∷ []) w))
]

fields-join_words : (ws : List Str) → All IsWord ws → fields (join_words ws) ≡ ws
unfolding fields_loop
fields-join_words [] h = refl
fields-join_words (w ∷ []) ((n, s), h) =
    sym (ap (λ (t : Str). fields_loop [] t) (append-nil w))
    ∙ fields_loop-append [] w [] s
    ∙ rw n refl
fields-join_words (w ∷ v ∷ ws) ((n, s), h) =
    fields_loop-append [] w (32 ∷ join_words (v ∷ ws)) s
    ∙ rw n (ap (λ (t : List Str). w ∷ t) (fields-join_words (v ∷ ws) h))

-- No space at the start or at the end, and between the words one blank each.
abbrev single_spaced : Str → Bool
single_spaced [] = true
single_spaced (c ∷ []) = not (is_space c)
single_spaced (c ∷ d ∷ s) =
    (not (is_space c) || (nat_eqb c 32 && not (is_space d))) && single_spaced (d ∷ s)

abbrev starts_with_space : Str → Bool
starts_with_space [] = false
starts_with_space (c ∷ s) = is_space c

abbrev pub IsTidy : Str → Type 0
IsTidy s = (starts_with_space s ≡ false) × (single_spaced s ≡ true)

-- A word, alone and before another.
IsWord-IsTidy : (w : Str) → IsWord w → IsTidy w
IsWord-IsTidy [] (n, h) = cc
IsWord-IsTidy (c ∷ []) (n, h) = grind (arith, h)
IsWord-IsTidy (c ∷ d ∷ w) (n, h) = elim (Bool-cases (is_space c)) [
  | inl e ↦ cc (rw e at h)
  | inr e ↦ rw e (refl, (IsWord-IsTidy (d ∷ w) (refl, rw e at h)).1)
]

blank_tidy : (s : Str) → is_nil s ≡ false → IsTidy s → single_spaced (32 ∷ s) ≡ true
blank_tidy [] n h = cc
blank_tidy (c ∷ s) n (f, h) = rw (f, h) refl

IsTidy-append : (w s : Str) → IsWord w → is_nil s ≡ false → IsTidy s → IsTidy (w ++ (32 ∷ s))
IsTidy-append [] s (n, h) m k = cc
IsTidy-append (c ∷ []) s (n, h) m k = elim (Bool-cases (is_space c)) [
  | inl e ↦ cc (rw e at h)
  | inr e ↦ rw e (refl, blank_tidy s m k)
]
IsTidy-append (c ∷ d ∷ w) s (n, h) m k = elim (Bool-cases (is_space c)) [
  | inl e ↦ cc (rw e at h)
  | inr e ↦ rw e (refl, (IsTidy-append (d ∷ w) s (refl, rw e at h) m k).1)
]

join_words_some :
    (w : Str) (ws : List Str) → is_nil w ≡ false → is_nil (join_words (w ∷ ws)) ≡ false
join_words_some [] ws n = cc
join_words_some (c ∷ w) [] n = refl
join_words_some (c ∷ w) (v ∷ ws) n = refl

join_words-IsTidy : (ws : List Str) → All IsWord ws → IsTidy (join_words ws)
join_words-IsTidy [] h = (refl, refl)
join_words-IsTidy (w ∷ []) (h, k) = IsWord-IsTidy w h
join_words-IsTidy (w ∷ v ∷ ws) (h, k) =
    IsTidy-append w (join_words (v ∷ ws)) h (join_words_some v ws k.0.0)
      (join_words-IsTidy (v ∷ ws) k)

-- compactWhitespace keeps the words of the text, and leaves no space at its ends and one blank
-- between its words, within string literals too.
pub compact_whitespace_lem :
    (s : Str) → IsTidy (compact_whitespace s) × (fields (compact_whitespace s) ≡ fields s)
unfolding compact_whitespace
compact_whitespace_lem s =
    let words = fields_loop-IsWord [] s refl in
    (join_words-IsTidy (fields s) words, fields-join_words (fields s) words)
