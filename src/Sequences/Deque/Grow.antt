-- ===== src/Sequences/Deque/Grow.antt =====
-- collectionx/list/deque.go: ensureCapacity makes room and keeps the items.
use native.Mathlib.Nat.{mod-eq_of_lt}
use mathlib.Core.List.{append-nil, append_assoc}
use mathlib.Core.Path.{ap₂}
use Prim.Native.Nat.{max}
use arcgo.Prelude.{
  ℕ, zero, suc, ◌+◌, ◌-◌, ◌*◌, ◌%◌, ◌≤◌, ◌≡◌, refl, sym, ap, ◌∙◌, List, [], ◌∷◌, ◌++◌, arith, leb,
  is_nil, is_nil→nil, length, set, replicate, length-set, length-replicate, Bool-cases, inl, inr,
}
use arcgo.Prelude.Classes.{Zero}
use arcgo.Sequences.Circular.{cell, window, window-none, window-push_back}
use arcgo.Sequences.Deque.{Deque, double_until, copy_loop, ensure_capacity}

-- The doubling ends with room for what is needed.
double_until-le :
    (fuel capacity need : ℕ)
    → 1 ≤ capacity
    → need ≤ capacity + fuel
    → need ≤ double_until fuel capacity need
unfolding double_until
double_until-le zero capacity need p h = omega arith
double_until-le (suc fuel) capacity need p h =
    ground (arith, double_until-le fuel (capacity * 2) need)

double_until-pos : (fuel capacity need : ℕ) → 1 ≤ capacity → 1 ≤ double_until fuel capacity need
unfolding double_until
double_until-pos zero capacity need p = p
double_until-pos (suc fuel) capacity need p =
    ground (arith, double_until-pos fuel (capacity * 2) need)

module _ {ℓ} {A : Type ℓ} ⦃z : Zero A⦄ where
  -- The items fit, and the head stands in the slice.
  pub record IsValid (d : Deque A) : Type 0 where
    pub fits : d.size ≤ length d.buf
    pub head_in : d.head ≤ length d.buf - 1

  -- The items, front to back.
  abbrev pub contents : Deque A → List A
  contents d = window d.buf d.head d.size

  length-copy_loop :
      (new_buf buf : List A) (head i n : ℕ)
      → length (copy_loop new_buf buf head i n) ≡ length new_buf
  unfolding copy_loop
  length-copy_loop new_buf buf head i zero = refl
  length-copy_loop new_buf buf head i (suc n) =
      length-copy_loop (set new_buf i (cell buf (head + i))) buf head (suc i) n
      ∙ length-set new_buf i (cell buf (head + i))

  window-copy_loop :
      (new_buf buf : List A) (head i n : ℕ)
      → i + n ≤ length new_buf
      → window (copy_loop new_buf buf head i n) 0 (i + n)
        ≡ window new_buf 0 i ++ window buf (head + i) n
  unfolding copy_loop window
  window-copy_loop new_buf buf head i zero h =
      ap (window new_buf 0) (omega arith) ∙ sym (append-nil (window new_buf 0 i))
  window-copy_loop new_buf buf head i (suc n) h =
      let v = cell buf (head + i) in
      let at : (0 + i) % length new_buf ≡ i =
        ap (λ k. k % length new_buf) {y = i} (omega arith) ∙ mod-eq_of_lt (omega arith) in
      let next = set new_buf i v in
      ap (window (copy_loop next buf head (suc i) n) 0) {y = suc i + n} (omega arith)
      ∙ window-copy_loop next buf head (suc i) n (omega (arith, length-set new_buf i v))
      ∙ ap₂ ◌++◌
          (ap (λ k. window (set new_buf k v) 0 (suc i)) (sym at)
            ∙ window-push_back new_buf 0 i v (omega arith))
          (ap (λ k. window buf k n) {y = head + i + 1} (omega arith))
      ∙ append_assoc (window new_buf 0 i) (v ∷ []) (window buf (head + i + 1) n)

  grown :
      (d : Deque A) (cap : ℕ)
      → d.size ≤ cap
      → let d' : Deque A = record d {
        buf = copy_loop (replicate cap z.zero_value) d.buf d.head 0 d.size;
        head = 0;
      } in
        (length d'.buf ≡ cap) × (contents d' ≡ contents d)
  grown d cap h =
      let new_buf = replicate cap z.zero_value in
      let room = length-replicate cap z.zero_value in
      (
        length-copy_loop new_buf d.buf d.head 0 d.size ∙ room,
        ap (window (copy_loop new_buf d.buf d.head 0 d.size) 0) {y = 0 + d.size} (omega arith)
            ∙ window-copy_loop new_buf d.buf d.head 0 d.size (omega (arith, room))
            ∙ (unfold window in ap (λ k. window d.buf k d.size) {y = d.head} (omega arith)),
      )

  -- On a valid deque, ensureCapacity makes room for the extra items, of which there is at least
  -- one, and keeps the items, their order and their number.
  pub ensure_capacity_lem :
      (d : Deque A) (extra : ℕ)
      → IsValid d
      → 1 ≤ extra
      → IsValid (ensure_capacity d extra)
        × (d.size + extra ≤ length (ensure_capacity d extra).buf)
        × (contents (ensure_capacity d extra) ≡ contents d)
        × ((ensure_capacity d extra).size ≡ d.size)
  unfolding ensure_capacity
  ensure_capacity_lem d extra h p = elim (Bool-cases (is_nil d.buf)) [
    | inl e ↦
        let none_left : length d.buf ≡ 0 = ap length (is_nil→nil d.buf e) in
        let empty : d.size ≡ 0 = omega arith in
        let room = length-replicate (double_until extra 4 extra) z.zero_value in
        let enough = double_until-le extra 4 extra (omega arith) (omega arith) in
        simp e (
          omega (arith, room),
          omega (arith, room, enough),
          window-none (replicate (double_until extra 4 extra) z.zero_value) d.head d.size empty
              ∙ sym (window-none d.buf d.head d.size empty),
          refl,
        )
    | inr e ↦ elim (Bool-cases (leb (d.size + extra) (length d.buf))) [
      | inl k ↦ simp (e, k) (h, ground arith, refl, refl)
      | inr k ↦
          let need = d.size + extra in
          let cap = double_until need (max (length d.buf * 2) 4) need in
          let enough : need ≤ cap =
            double_until-le need (max (length d.buf * 2) 4) need (omega arith) (omega arith) in
          let (room, same) = grown d cap (omega (arith, enough)) in
          simp (e, k) (omega (arith, room, enough), omega (arith, room, enough), same, refl)
    ]
  ]
