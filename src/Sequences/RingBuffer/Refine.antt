-- ===== src/Sequences/RingBuffer/Refine.antt =====
-- collectionx/list/ring_buffer.go: a valid buffer behaves as the queue of its items, oldest first.
use native.Mathlib.Nat.{mod-eq_of_lt, mod-lt, mod-mod, add-mod_right}
use arcgo.Prelude.{
  ℕ, suc, ◌+◌, ◌-◌, ◌%◌, ◌≤◌, ◌<◌, ◌≡◌, refl, sym, ap, ◌∙◌, ◌&&◌, List, [], ◌∷◌, ◌++◌, Option, none,
  arith, ltb, nat_eqb, if◌then◌else◌, length, get_or, set, length-set, length-replicate, Bool-cases,
  inl, inr,
}
use arcgo.Prelude.Classes.{Zero}
use arcgo.Prelude.Int.{ℤ, clamp}
use arcgo.Sequences.Ends.{oldest, rest}
use arcgo.Sequences.Circular.{
  window, length-window, window-congr, window-push_back, window-pop_front, read_loop-eq-window,
  length-wipe_loop,
}
use arcgo.Sequences.RingBuffer.{
  RingBuffer, new_ring_buffer, push, pop, peek, values, clear, len, capacity, is_full, is_empty,
}

-- A queue of at most `cap` items.
module _ {ℓ} {A : Type ℓ} where
  -- An item enters at the back; a full queue gives up its oldest for it.
  abbrev pub enter : ℕ → List A → A → Option A × List A
  enter cap q v =
      if nat_eqb cap 0
      then (none, q)
      else if ltb (length q) cap
      then (none, q ++ v ∷ [])
      else (oldest q, rest q ++ v ∷ [])

pub capacity-new {ℓ} :
    (A : Type ℓ) ⦃z : Zero A⦄ (c : ℤ) → capacity (new_ring_buffer {A = A} c) ≡ clamp c
unfolding new_ring_buffer capacity
capacity-new A ⦃z⦄ c = length-replicate (clamp c) z.zero_value

module _ {ℓ} {A : Type ℓ} ⦃z : Zero A⦄ where
  pub record IsValid (r : RingBuffer A) : Type 0 where
    pub fits : r.size ≤ length r.buf
    pub head_in : r.head ≤ length r.buf - 1

  -- The items, oldest first.
  abbrev pub contents : RingBuffer A → List A
  contents r = window r.buf r.head r.size

  pub new_ring_buffer-IsValid : (c : ℤ) → IsValid (new_ring_buffer c)
  unfolding new_ring_buffer
  new_ring_buffer-IsValid c = omega arith

  pub push-IsValid : (r : RingBuffer A) (v : A) → IsValid r → IsValid (push r v).1
  unfolding push
  push-IsValid r v h = ground (
    arith,
    length-set r.buf ((r.head + r.size) % length r.buf) v,
    length-set r.buf r.head v,
    mod-lt (r.head + 1) {m = length r.buf},
  )

  pub pop-IsValid : (r : RingBuffer A) → IsValid r → IsValid (pop r).1
  unfolding pop
  pop-IsValid r h =
      ground (arith, length-set r.buf r.head z.zero_value, mod-lt (r.head + 1) {m = length r.buf})

  pub capacity-push : (r : RingBuffer A) (v : A) → capacity (push r v).1 ≡ capacity r
  unfolding push capacity
  capacity-push r v =
      ground
        (arith, length-set r.buf ((r.head + r.size) % length r.buf) v, length-set r.buf r.head v)

  pub capacity-pop : (r : RingBuffer A) → capacity (pop r).1 ≡ capacity r
  unfolding pop capacity
  capacity-pop r = ground (arith, length-set r.buf r.head z.zero_value)

  -- The head is where the oldest item stands.
  head_cell : (r : RingBuffer A) → IsValid r → 0 < length r.buf → r.head % length r.buf ≡ r.head
  head_cell r h p = mod-eq_of_lt (omega arith)

  front :
      (r : RingBuffer A)
      → IsValid r
      → 0 < r.size
      → contents r ≡ get_or r.buf r.head z.zero_value ∷ window r.buf (r.head + 1) (r.size - 1)
  front r h p =
      let size : r.size ≡ suc (r.size - 1) = omega arith in
      ap (window r.buf r.head) size
      ∙ unfold window in
        ap (λ i. get_or r.buf i z.zero_value ∷ window r.buf (r.head + 1) (r.size - 1))
          (head_cell r h (omega arith))

  -- A full buffer writes the new value over the oldest item.
  overwrite :
      (r : RingBuffer A) (v : A)
      → IsValid r
      → r.size ≡ length r.buf
      → 0 < r.size
      → window (set r.buf r.head v) ((r.head + 1) % length r.buf) r.size
        ≡ window r.buf (r.head + 1) (r.size - 1) ++ v ∷ []
  overwrite r v h full p =
      let n = r.size - 1 in
      let size : r.size ≡ suc n = omega arith in
      let round : ((r.head + 1) + n) % length r.buf ≡ r.head =
        ap (λ i. i % length r.buf) (omega arith)
        ∙ add-mod_right r.head (length r.buf)
        ∙ head_cell r h (omega arith) in
      window-congr (set r.buf r.head v) ((r.head + 1) % length r.buf) (r.head + 1) r.size
        (rw length-set (mod-mod (r.head + 1) (length r.buf)))
      ∙ ap (window (set r.buf r.head v) (r.head + 1)) size
      ∙ ap (λ i. window (set r.buf i v) (r.head + 1) (suc n)) (sym round)
      ∙ window-push_back r.buf (r.head + 1) n v (omega arith)

  -- On a valid buffer, Push enters the value into the queue, and returns the item that the queue
  -- gives up.
  pub push_refines :
      (r : RingBuffer A) (v : A)
      → IsValid r
      → ((push r v).0 ≡ (enter (capacity r) (contents r) v).0)
        × (contents (push r v).1 ≡ (enter (capacity r) (contents r) v).1)
  unfolding push capacity
  push_refines r v h = elim (Bool-cases (nat_eqb (length r.buf) 0)) [
    | inl e ↦ simp e (refl, refl)
    | inr e ↦ elim (Bool-cases (ltb r.size (length r.buf))) [
      | inl k ↦
          simp (e, k, length-window)
            (
              refl,
              ap (window (set r.buf ((r.head + r.size) % length r.buf) v) r.head) {y = suc r.size}
                    (omega arith)
                  ∙ window-push_back r.buf r.head r.size v (ground arith),
            )
      | inr k ↦
          let full : r.size ≡ length r.buf = ground arith in
          let some_left : 0 < r.size = ground arith in
          simp (e, k, length-window)
            (
              sym (ap oldest (front r h some_left)),
              overwrite r v h full some_left
                  ∙ ap (λ q. rest q ++ v ∷ []) (sym (front r h some_left)),
            )
    ]
  ]

  popped :
      (r : RingBuffer A)
      → IsValid r
      → 0 < r.size
      → window
          (set r.buf r.head z.zero_value)
          (if nat_eqb (r.size - 1) 0 then 0 else (r.head + 1) % length r.buf)
          (r.size - 1)
        ≡ window r.buf (r.head + 1) (r.size - 1)
  popped r h p = elim (Bool-cases (nat_eqb (r.size - 1) 0)) [
    | inl e ↦ let last : r.size - 1 ≡ 0 = ground arith in rw (e, last) (unfold window in refl)
    | inr e ↦
        rw e (window-pop_front r.buf r.head (r.size - 1) z.zero_value (omega arith) (omega arith))
  ]

  -- On a valid buffer, Pop takes the oldest item out of the queue, and finds none in an empty one.
  pub pop_refines :
      (r : RingBuffer A)
      → IsValid r
      → ((pop r).0 ≡ oldest (contents r)) × (contents (pop r).1 ≡ rest (contents r))
  unfolding pop
  pop_refines r h = elim (Bool-cases (nat_eqb r.size 0)) [
    | inl e ↦
        let none_left : contents r ≡ [] =
          ap (window r.buf r.head) {y = 0} (ground arith) ∙ (unfold window in refl) in
        simp e (sym (ap oldest none_left), none_left ∙ sym (ap rest none_left))
    | inr e ↦
        let some_left : 0 < r.size = ground arith in
        simp e (
          sym (ap oldest (front r h some_left)),
          popped r h some_left ∙ sym (ap rest (front r h some_left)),
        )
  ]

  -- On a valid buffer, Values, Peek, Len, IsEmpty and IsFull read the queue: its items, oldest
  -- first, the oldest, and their number.
  pub reads_refine :
      (r : RingBuffer A)
      → IsValid r
      → (values r ≡ contents r)
        × (peek r ≡ oldest (contents r))
        × (len r ≡ length (contents r))
        × (is_empty r ≡ nat_eqb (length (contents r)) 0)
        × (is_full r ≡ (nat_eqb (length (contents r)) (capacity r) && ltb 0 (capacity r)))
  unfolding values peek len is_empty is_full capacity
  reads_refine r h = (
    values_lem,
    peek_lem,
    sym size,
    ap (λ n. nat_eqb n 0) (sym size),
    ap (λ n. nat_eqb n (length r.buf) && ltb 0 (length r.buf)) (sym size),
  )
    where
      size : length (contents r) ≡ r.size
      size = length-window r.buf r.head r.size

      no_items : r.size ≡ 0 → contents r ≡ []
      no_items e = ap (window r.buf r.head) e ∙ (unfold window in refl)

      values_lem : values r ≡ contents r
      values_lem = elim (Bool-cases (nat_eqb r.size 0)) [
        | inl e ↦ simp e (sym (no_items (ground arith)))
        | inr e ↦ simp e (
            read_loop-eq-window r.buf r.head 0 r.size
            ∙ ap (λ h. window r.buf h r.size) (omega arith))
      ]

      peek_lem : peek r ≡ oldest (contents r)
      peek_lem = elim (Bool-cases (nat_eqb r.size 0)) [
        | inl e ↦ simp e (sym (ap oldest (no_items (ground arith))))
        | inr e ↦ simp e (sym (ap oldest (front r h (ground arith))))
      ]

  -- Clear leaves an empty valid buffer of the same capacity.
  pub clear_lem :
      (r : RingBuffer A)
      → IsValid (clear r) × (contents (clear r) ≡ []) × (capacity (clear r) ≡ capacity r)
  unfolding clear capacity window
  clear_lem r =
      let same = length-wipe_loop r.buf r.head 0 r.size in (omega (arith, same), refl, same)
