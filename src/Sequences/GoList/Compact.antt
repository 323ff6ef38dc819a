-- ===== src/Sequences/GoList/Compact.antt =====
-- collectionx/list/list.go: RemoveIf compacts the slice in place, which comes to a filter.
use mathlib.Core.List.{append_assoc, append-nil}
use mathlib.Core.Path.{ap₂, subst₂}
use arcgo.Prelude.{
  ℕ, suc, ◌+◌, ◌≤◌, ◌≡◌, refl, sym, ap, ◌∙◌, Bool, true, false, List, [], ◌∷◌, ◌++◌, if◌then◌else◌,
  length, length-append, get_or, set, take, arith, Bool-cases, inl, inr,
}
use arcgo.Prelude.Classes.{Zero}
use arcgo.Sequences.GoList.{compact_loop}
use arcgo.Sequences.GoList.Moves.{take-front}

module _ {ℓ} {T : Type ℓ} where
  -- The items that the predicate refuses, in their order.
  abbrev pub refused : (T → Bool) → List T → List T
  refused p [] = []
  refused p (x ∷ xs) = if p x then refused p xs else x ∷ refused p xs

  pub length-refused : (p : T → Bool) (xs : List T) → length (refused p xs) ≤ length xs
  length-refused p [] = omega arith
  length-refused p (x ∷ xs) = ground (arith, length-refused p xs)

  -- An item written over the first of the stale ones ends up behind the kept ones.
  write_over :
      (kept stale rest : List T) (x : T)
      → (stale' : List T) × (set (kept ++ (stale ++ x ∷ rest)) (length kept) x
          ≡ (kept ++ x ∷ []) ++ (stale' ++ rest))
        × (length stale' ≡ length stale)
  write_over [] [] rest x = ([], refl, refl)
  write_over [] (s ∷ stale) rest x = (
    stale ++ x ∷ [],
    ap (◌∷◌ x) (sym (append_assoc stale (x ∷ []) rest)),
    length-append stale (x ∷ []) ∙ omega arith,
  )
  write_over (k ∷ kept) stale rest x =
      let (stale', e, same) = write_over kept stale rest x in (stale', ap (◌∷◌ k) e, same)

  get_or-middle :
      (front : List T) (x : T) (rest : List T) (z : T)
      → get_or (front ++ x ∷ rest) (length front) z ≡ x
  get_or-middle [] x rest z = refl
  get_or-middle (f ∷ front) x rest z = get_or-middle front x rest z

module _ {ℓ} {T : Type ℓ} ⦃z : Zero T⦄ where
  skips :
      (p : T → Bool) (items : List T) (read write n : ℕ) (x : T)
      → get_or items read z.zero_value ≡ x
      → p x ≡ true
      → compact_loop p items read write (suc n) ≡ compact_loop p items (suc read) write n
  unfolding compact_loop
  skips p items read write n x e q = rw (e, q) refl

  keeps :
      (p : T → Bool) (items : List T) (read write n : ℕ) (x : T)
      → get_or items read z.zero_value ≡ x
      → p x ≡ false
      → compact_loop p items read write (suc n)
        ≡ compact_loop p (set items write x) (suc read) (suc write) n
  unfolding compact_loop
  keeps p items read write n x e q = rw (e, q) refl

  -- The first items of a slice of some length, as the loop returns it.
  abbrev pub Holds : List T → ℕ → List T × ℕ → Type ℓ
  Holds kept n out = (take out.1 out.0 ≡ kept) × (out.1 ≡ length kept) × (length out.0 ≡ n)

  -- Whatever stale items stand between the kept ones and those to be read.
  pub compact_loop_lem :
      (p : T → Bool) (kept stale rest items : List T) (read write n : ℕ)
      → items ≡ kept ++ (stale ++ rest)
      → read ≡ length kept + length stale
      → write ≡ length kept
      → n ≡ length kept + length stale + length rest
      → Holds (kept ++ refused p rest) n (compact_loop p items read write (length rest))
  unfolding compact_loop
  compact_loop_lem p kept stale [] items read write n whole r w m = (
    ap₂ take w whole ∙ take-front kept (stale ++ []) ∙ sym (append-nil kept),
    w ∙ ap length (sym (append-nil kept)),
    ap length whole ∙ omega (arith, m, length-append kept (stale ++ []), length-append stale []),
  )
  compact_loop_lem p kept stale (x ∷ rest) items read write n whole r w m =
      let now : get_or items read z.zero_value ≡ x =
        ap₂ (λ xs i. get_or xs i z.zero_value) (whole ∙ sym (append_assoc kept stale (x ∷ rest)))
          (r ∙ sym (length-append kept stale))
        ∙ get_or-middle (kept ++ stale) x rest z.zero_value in
      elim (Bool-cases (p x)) [
        | inl q ↦
            let passed : kept ++ refused p (x ∷ rest) ≡ kept ++ refused p rest = rw q refl in
            let more : length (stale ++ x ∷ []) ≡ length stale + 1 = length-append stale (x ∷ []) in
            let whole' : items ≡ kept ++ ((stale ++ x ∷ []) ++ rest) =
              whole ∙ ap (◌++◌ kept) (sym (append_assoc stale (x ∷ []) rest)) in
            subst₂ (λ ks out. Holds ks n out) (sym passed)
              (sym (skips p items read write (length rest) x now q))
              (compact_loop_lem p kept (stale ++ x ∷ []) rest items (suc read) write n whole'
                (omega (arith, r, more)) w (omega (arith, m, more)))
        | inr q ↦
            let (stale', e, same) = write_over kept stale rest x in
            let passed : kept ++ refused p (x ∷ rest) ≡ (kept ++ x ∷ []) ++ refused p rest =
              (rw q refl) ∙ sym (append_assoc kept (x ∷ []) (refused p rest)) in
            let more : length (kept ++ x ∷ []) ≡ length kept + 1 = length-append kept (x ∷ []) in
            let whole' : set items write x ≡ (kept ++ x ∷ []) ++ (stale' ++ rest) =
              ap₂ (λ xs i. set xs i x) whole w ∙ e in
            subst₂ (λ ks out. Holds ks n out) (sym passed)
              (sym (keeps p items read write (length rest) x now q))
              (compact_loop_lem p (kept ++ x ∷ []) stale' rest (set items write x) (suc read)
                (suc write) n whole' (omega (arith, r, more, same)) (omega (arith, w, more))
                (omega (arith, m, more, same)))
      ]
