-- ===== src/Template/Scan/Layout.antt =====
-- dbx/sqltmplx/scan: the tokens of a template account for all of its text, and the loop ends.
use mathlib.Core.Path.{subst}
use mathlib.Core.List.{append_assoc, append-nil}
use arcgo.Prelude.{
  ℕ, zero, suc, ◌≤◌, ◌≡◌, refl, ◌⊎◌, inl, inr, true, List, [], ◌∷◌, ◌++◌, none, some, arith, length,
  Bool-cases, Option-cases,
}
use arcgo.Template.Text.{
  Str, Result, ok, err, unterminated_directive, split_at, split_at_sound, split_at-length,
  trim_space,
}
use arcgo.Template.Scan.{
  Token, text, directive, token, is_template_directive, comment, flush_text, scan_loop, scan_list,
}

-- The input that some tokens stand for: a text stands for itself, a directive for a comment
-- whose body it is, but for the spaces around it.
pub data Layout : List Token → Str → Type 0 where
  finish : Layout [] []
  text_first :
      {ts : List Token} {s : Str} (v : Str) → Layout ts s → Layout (token text v ∷ ts) (v ++ s)
  directive_first :
      {ts : List Token} {s : Str} (raw : Str)
      → is_template_directive (trim_space raw) ≡ true
      → split_at 42 47 raw ≡ none
      → Layout ts s
      → Layout (token directive (trim_space raw) ∷ ts) (47 ∷ 42 ∷ (raw ++ (42 ∷ 47 ∷ s)))

Layout-append :
    {ts us : List Token} {s t : Str} → Layout ts s → Layout us t → Layout (ts ++ us) (s ++ t)
Layout-append finish k = k
Layout-append (text_first v h) k = rw append_assoc (text_first v (Layout-append h k))
Layout-append (directive_first raw d c h) k =
    rw append_assoc (directive_first raw d c (Layout-append h k))

flush_text-Layout :
    (tokens : List Token) (c buf : Str)
    → Layout tokens c
    → Layout (flush_text tokens buf) (c ++ buf)
flush_text-Layout tokens c [] h = rw append-nil h
flush_text-Layout tokens c (b ∷ buf) h =
    Layout-append h (
      subst (λ t. Layout (token text (b ∷ buf) ∷ []) t) (append-nil _)
        (text_first (b ∷ buf) finish))

add_directive :
    (tokens : List Token) (c buf raw : Str)
    → Layout tokens c
    → is_template_directive (trim_space raw) ≡ true
    → split_at 42 47 raw ≡ none
    → Layout
        (flush_text tokens buf ++ (token directive (trim_space raw) ∷ []))
        (c ++ (buf ++ comment raw))
add_directive tokens c buf raw h d free =
    subst (Layout _) (append_assoc c buf (comment raw))
      (Layout-append (flush_text-Layout tokens c buf h) (directive_first raw d free finish))

-- A scan that fails stops at a comment that no `*/` ends.
abbrev pub Unterminated : Str → Type 0
Unterminated input =
    (front : Str) × (rest : Str) × (input ≡ front ++ (47 ∷ 42 ∷ rest))
    × (split_at 42 47 rest ≡ none)

abbrev Scanned : Str → Str → Result (List Token) → Type 0
Scanned c input r =
    ((ts : List Token) × (r ≡ ok ts) × Layout ts (c ++ input))
    ⊎ ((r ≡ err unterminated_directive) × Unterminated input)

Unterminated-append : (front s : Str) → Unterminated s → Unterminated (front ++ s)
Unterminated-append front s (f, rest, e, h) = (front ++ f, rest, rw (e, append_assoc) refl, h)

-- A scan of what follows `done` is one of the whole input.
Scanned-behind :
    (c done input : Str) (r : Result (List Token))
    → Scanned (c ++ done) input r
    → Scanned c (done ++ input) r
Scanned-behind c done input r (inl (ts, e, h)) = inl (ts, e, rw append_assoc at h)
Scanned-behind c done input r (inr (e, h)) = inr (e, Unterminated-append done input h)

comment_behind :
    (buf input before after raw rest : Str)
    → split_at 47 42 input ≡ some (before, after)
    → split_at 42 47 after ≡ some (raw, rest)
    → buf ++ input ≡ ((buf ++ before) ++ comment raw) ++ rest
comment_behind buf input before after raw rest e n =
    rw ((split_at_sound 47 42 input before after e).0, (split_at_sound 42 47 after raw rest n).0)
      (simp append_assoc refl)

shorter :
    (input before after raw rest : Str) {n : ℕ}
    → split_at 47 42 input ≡ some (before, after)
    → split_at 42 47 after ≡ some (raw, rest)
    → length input ≤ suc n
    → length rest ≤ n
shorter input before after raw rest e n h =
    omega
      (arith, split_at-length 47 42 input before after e, split_at-length 42 47 after raw rest n, h)

scan_loop_lem :
    (fuel : ℕ) (tokens : List Token) (c buf input : Str)
    → Layout tokens c
    → length input ≤ fuel
    → Scanned c (buf ++ input) (scan_loop fuel tokens buf input)
unfolding scan_loop
scan_loop_lem fuel tokens c buf [] h k =
    inl (_, refl, rw append-nil (flush_text-Layout tokens c buf h))
scan_loop_lem zero tokens c buf (x ∷ input) h k = absurd (omega arith)
scan_loop_lem (suc fuel) tokens c buf (x ∷ input) h k =
    elim (Option-cases (split_at 47 42 (x ∷ input))) [
      | inl e ↦ rw e (inl (_, refl, flush_text-Layout tokens c (buf ++ (x ∷ input)) h))
      | inr ((before, after), e) ↦ rw e (elim (Option-cases (split_at 42 47 after)) [
        | inl n ↦ rw n (
            inr (
              refl,
              Unterminated-append buf _
                  (before, after, (split_at_sound 47 42 _ before after e).0, n),
            ))
        | inr ((raw, rest), n) ↦
            let whole = comment_behind buf (x ∷ input) before after raw rest e n in
            rw (n, whole)
              (elim (Bool-cases (is_template_directive (trim_space raw))) [
                | inl d ↦ rw d (
                    Scanned-behind c ((buf ++ before) ++ comment raw) rest _ (
                      scan_loop_lem fuel _ _ [] rest
                        (add_directive tokens c (buf ++ before) raw h d
                          (split_at_sound 42 47 after raw rest n).1)
                        (shorter _ before after raw rest e n k)))
                | inr d ↦ rw d (
                    scan_loop_lem fuel tokens c ((buf ++ before) ++ comment raw) rest h
                      (shorter _ before after raw rest e n k))
              ])
      ])
    ]

-- ScanList ends on any input, either with tokens that account for the input, or with its error and
-- at a comment without an end.
pub scan_list_lem :
    (input : Str)
    → ((ts : List Token) × (scan_list input ≡ ok ts) × Layout ts input)
      ⊎ ((scan_list input ≡ err unterminated_directive) × Unterminated input)
unfolding scan_list
scan_list_lem input = scan_loop_lem (length input) [] [] [] input finish (omega arith)
