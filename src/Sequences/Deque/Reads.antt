-- ===== src/Sequences/Deque/Reads.antt =====
-- collectionx/list/deque.go: what the pops take out and the other methods read.
use mathlib.Core.List.{reverse, reverse-append, reverse-reverse}
use native.Mathlib.Nat.{mod-eq_of_lt, mod-lt}
use arcgo.Prelude.{
  ℕ, zero, suc, ◌+◌, ◌-◌, ◌%◌, ◌≤◌, ◌<◌, ◌≡◌, refl, sym, ap, ◌∙◌, true, List, [], ◌∷◌, ◌++◌, none,
  some, arith, leb, nat_eqb, length, get_or, get_elem?, set, length-set, Bool-cases, inl, inr,
}
use arcgo.Prelude.Classes.{Zero}
use arcgo.Prelude.Int.{pos, negsuc}
use arcgo.Sequences.Ends.{oldest, rest, newest, but_newest}
use arcgo.Sequences.Circular.{
  cell, window, window-none, length-window, window-pop_front, window-suc_last, window-set_ne,
  mod_ne, read_loop-eq-window, length-wipe_loop,
}
use arcgo.Sequences.Deque.{
  Deque, pop_front, pop_back, front, back, get, clear, values, len, is_empty,
}
use arcgo.Sequences.Deque.Grow.{IsValid, contents}
use arcgo.Sequences.Deque.Refine.{Holds}

module _ {ℓ} {A : Type ℓ} where
  newest-snoc : (xs : List A) (x : A) → newest (xs ++ x ∷ []) ≡ some x
  newest-snoc xs x = ap oldest (reverse-append xs (x ∷ []))

  but_newest-snoc : (xs : List A) (x : A) → but_newest (xs ++ x ∷ []) ≡ xs
  but_newest-snoc xs x =
      ap (λ ys. reverse (rest ys)) (reverse-append xs (x ∷ [])) ∙ reverse-reverse xs

module _ {ℓ} {A : Type ℓ} ⦃z : Zero A⦄ where
  no_items : (d : Deque A) → nat_eqb d.size 0 ≡ true → contents d ≡ []
  no_items d e = window-none d.buf d.head d.size (ground arith)

  front_first :
      (d : Deque A)
      → IsValid d
      → 0 < d.size
      → contents d ≡ get_or d.buf d.head z.zero_value ∷ window d.buf (d.head + 1) (d.size - 1)
  front_first d h p =
      let size : d.size ≡ suc (d.size - 1) = omega arith in
      ap (window d.buf d.head) size
      ∙ unfold window in
        ap (λ i. get_or d.buf i z.zero_value ∷ window d.buf (d.head + 1) (d.size - 1))
          (mod-eq_of_lt (omega arith))

  back_last :
      (d : Deque A)
      → 0 < d.size
      → contents d ≡ window d.buf d.head (d.size - 1) ++ cell d.buf (d.head + (d.size - 1)) ∷ []
  back_last d p =
      ap (window d.buf d.head) {y = suc (d.size - 1)} (omega arith)
      ∙ window-suc_last d.buf d.head (d.size - 1)

  -- PopFront takes the first item out, and finds none in an empty deque.
  pub pop_front_lem :
      (d : Deque A)
      → IsValid d
      → ((pop_front d).0 ≡ oldest (contents d)) × Holds (rest (contents d)) (pop_front d).1
  unfolding pop_front
  pop_front_lem d h = elim (Bool-cases (nat_eqb d.size 0)) [
    | inl e ↦ simp (e, no_items d e) (refl, (h, refl))
    | inr e ↦
        let p : 0 < d.size = ground arith in
        let first = front_first d h p in
        let same = length-set d.buf d.head z.zero_value in
        elim (Bool-cases (nat_eqb (d.size - 1) 0)) [
          | inl l ↦
              let last : d.size - 1 ≡ 0 = ground arith in
              simp (e, l)
                (
                  sym (ap oldest first),
                  (
                    omega (arith, same),
                    window-none (set d.buf d.head z.zero_value) 0 (d.size - 1) last
                        ∙ sym (window-none d.buf (d.head + 1) (d.size - 1) last)
                        ∙ sym (ap rest first),
                  ),
                )
          | inr l ↦
              simp (e, l)
                (
                  sym (ap oldest first),
                  (
                    omega (arith, same, mod-lt (d.head + 1) {m = length d.buf}),
                    window-pop_front d.buf d.head (d.size - 1) z.zero_value (omega arith)
                          (omega arith)
                        ∙ sym (ap rest first),
                  ),
                )
        ]
  ]

  -- On a valid deque, PopBack takes the last item out, finds none in an empty deque, and keeps the
  -- deque valid.
  pub pop_back_lem :
      (d : Deque A)
      → IsValid d
      → ((pop_back d).0 ≡ newest (contents d)) × Holds (but_newest (contents d)) (pop_back d).1
  unfolding pop_back
  pop_back_lem d h = elim (Bool-cases (nat_eqb d.size 0)) [
    | inl e ↦ simp (e, no_items d e) (refl, (h, refl))
    | inr e ↦
        let p : 0 < d.size = ground arith in
        let last = back_last d p in
        let idx = (d.head + (d.size - 1)) % length d.buf in
        let same = length-set d.buf idx z.zero_value in
        let out : some (get_or d.buf idx z.zero_value) ≡ newest (contents d) = sym (
          ap newest last
          ∙ newest-snoc (window d.buf d.head (d.size - 1)) (cell d.buf (d.head + (d.size - 1)))) in
        let others : window (set d.buf idx z.zero_value) d.head (d.size - 1)
            ≡ but_newest (contents d) =
          window-set_ne d.buf idx d.head (d.size - 1) z.zero_value
            (λ j a b f. mod_ne j (d.head + (d.size - 1)) (length d.buf) b (omega arith) (sym f))
          ∙ sym (
              ap but_newest last
              ∙ but_newest-snoc (window d.buf d.head (d.size - 1))
                  (cell d.buf (d.head + (d.size - 1)))) in
        elim (Bool-cases (nat_eqb (d.size - 1) 0)) [
          | inl l ↦
              let one : d.size - 1 ≡ 0 = ground arith in
              simp (e, l)
                (
                  out,
                  (
                    omega (arith, same),
                    window-none (set d.buf idx z.zero_value) 0 (d.size - 1) one
                        ∙ sym (window-none (set d.buf idx z.zero_value) d.head (d.size - 1) one)
                        ∙ others,
                  ),
                )
          | inr l ↦ simp (e, l) (out, (omega (arith, same), others))
        ]
  ]

  get-window :
      (buf : List A) (h n i : ℕ) → i < n → get_elem? (window buf h n) i ≡ some (cell buf (h + i))
  unfolding window
  get-window buf h zero i p = elim p [ ]
  get-window buf h (suc n) zero p = ap (λ k. some (cell buf k)) (omega arith)
  get-window buf h (suc n) (suc i) p =
      get-window buf (h + 1) n i (omega arith) ∙ ap (λ k. some (cell buf k)) (omega arith)

  get-window-none : (buf : List A) (h n i : ℕ) → n ≤ i → get_elem? (window buf h n) i ≡ none
  unfolding window
  get-window-none buf h zero i p = refl
  get-window-none buf h (suc n) zero p = elim p [ ]
  get-window-none buf h (suc n) (suc i) p = get-window-none buf (h + 1) n i (omega arith)

  -- Get returns the item at an index of the list of items, and none at any other index, negative
  -- ones included.
  pub get_lem :
      (d : Deque A) (i : ℕ) → (get d (pos i) ≡ get_elem? (contents d) i) × (get d (negsuc i) ≡ none)
  unfolding get
  get_lem d i = elim (Bool-cases (leb d.size i)) [
    | inl e ↦ simp e (sym (get-window-none d.buf d.head d.size i (ground arith)), refl)
    | inr e ↦ simp e (sym (get-window d.buf d.head d.size i (ground arith)), refl)
  ]

  -- The other methods read the list of items: all of them, the first, the last and their number.
  pub views_lem :
      (d : Deque A)
      → IsValid d
      → (values d ≡ contents d)
        × (front d ≡ oldest (contents d))
        × (back d ≡ newest (contents d))
        × (len d ≡ length (contents d))
        × (is_empty d ≡ nat_eqb (length (contents d)) 0)
  unfolding values front back len is_empty
  views_lem d h = elim (Bool-cases (nat_eqb d.size 0)) [
    | inl e ↦
        let none_left = no_items d e in
        simp e (
          sym none_left,
          sym (ap oldest none_left),
          sym (ap newest none_left),
          sym size,
          sym e ∙ ap (λ n. nat_eqb n 0) (sym size),
        )
    | inr e ↦
        let p : 0 < d.size = ground arith in
        simp e (
          read_loop-eq-window d.buf d.head 0 d.size ∙ ap (λ k. window d.buf k d.size) (omega arith),
          sym (ap oldest (front_first d h p)),
          sym (
              ap newest (back_last d p)
              ∙ newest-snoc (window d.buf d.head (d.size - 1))
                  (cell d.buf (d.head + (d.size - 1)))),
          sym size,
          sym e ∙ ap (λ n. nat_eqb n 0) (sym size),
        )
  ]
    where
      size : length (contents d) ≡ d.size
      size = length-window d.buf d.head d.size

  -- Clear empties the deque and keeps its slice.
  pub clear_deque_lem : (d : Deque A) → Holds [] (clear d) × (length (clear d).buf ≡ length d.buf)
  unfolding clear window
  clear_deque_lem d =
      let same = length-wipe_loop d.buf d.head 0 d.size in ((omega (arith, same), refl), same)
