-- ===== src/Sequences/Deque/Refine.antt =====
-- collectionx/list/deque.go: a valid deque behaves as the list of its items, front to back.
use mathlib.Core.List.{append_assoc, append-nil, reverse, reverse-cons}
use native.Mathlib.Nat.{mod-eq_of_lt, mod-lt, mod-mod, add-mod_right}
use arcgo.Prelude.{
  suc, ◌+◌, ◌-◌, ◌%◌, ◌≤◌, ◌<◌, ◌≡◌, refl, sym, ap, ◌∙◌, List, [], ◌∷◌, ◌++◌, arith, nat_eqb,
  length, set, length-set, Bool-cases, inl, inr,
}
use arcgo.Prelude.Classes.{Zero}
use arcgo.Sequences.Circular.{
  window, window-none, window-congr, window-push_back, window-push_front,
}
use arcgo.Sequences.Deque.{
  Deque, ensure_capacity, put_front, put_back, push_front_one, push_back_one, push_front, push_back,
  new_deque,
}
use arcgo.Sequences.Deque.Grow.{IsValid, contents, ensure_capacity_lem}

module _ {ℓ} {A : Type ℓ} ⦃z : Zero A⦄ where
  -- The deque is valid and holds exactly the items.
  abbrev pub Holds : List A → Deque A → Type ℓ
  Holds xs d = IsValid d × (contents d ≡ xs)

  put_back_lem :
      (d : Deque A) (v : A)
      → IsValid d
      → d.size + 1 ≤ length d.buf
      → Holds (contents d ++ v ∷ []) (put_back d v)
  unfolding put_back
  put_back_lem d v h room = (
    omega (arith, length-set d.buf ((d.head + d.size) % length d.buf) v),
    ap (window (set d.buf ((d.head + d.size) % length d.buf) v) d.head) {y = suc d.size}
          (omega arith)
        ∙ window-push_back d.buf d.head d.size v (omega arith),
  )

  put_front_lem :
      (d : Deque A) (v : A)
      → IsValid d
      → d.size + 1 ≤ length d.buf
      → Holds (v ∷ contents d) (put_front d v)
  unfolding put_front
  put_front_lem d v h room = elim (Bool-cases (nat_eqb d.size 0)) [
    | inl e ↦
        let empty : d.size ≡ 0 = ground arith in
        let start : 0 % length d.buf ≡ 0 = mod-eq_of_lt (omega arith) in
        simp e (
          omega (arith, length-set d.buf 0 v),
          ap (λ k. window (set d.buf k v) 0 1) (sym start)
              ∙ ap (window (set d.buf (0 % length d.buf) v) 0) {y = suc 0} (omega arith)
              ∙ window-push_front d.buf 1 0 0 v (omega arith) refl
              ∙ ap (◌∷◌ v)
                  (window-none d.buf 1 0 refl ∙ sym (window-none d.buf d.head d.size empty)),
        )
    | inr e ↦
        let k = d.head + length d.buf - 1 in
        let round : (k + 1) % length d.buf ≡ d.head % length d.buf =
          ap (λ i. i % length d.buf) (omega arith) ∙ add-mod_right d.head (length d.buf) in
        let buf = set d.buf (k % length d.buf) v in
        let same = length-set d.buf (k % length d.buf) v in
        let room' : 0 < length d.buf = omega arith in
        simp e (
          omega (arith, same, mod-lt k room'),
          ap (window buf (k % length d.buf)) {y = suc d.size} (omega arith)
              ∙ window-congr buf (k % length d.buf) k (suc d.size)
                  (rw same (mod-mod k (length d.buf)))
              ∙ window-push_front d.buf d.head k d.size v (omega arith) round,
        )
  ]

  pub push_back_one_lem :
      (d : Deque A) (v : A) → IsValid d → Holds (contents d ++ v ∷ []) (push_back_one d v)
  unfolding push_back_one
  push_back_one_lem d v h =
      let (valid, room, same, size) = ensure_capacity_lem d 1 h (omega arith) in
      let (valid', now) = put_back_lem (ensure_capacity d 1) v valid (omega (arith, room, size)) in
      (valid', now ∙ ap (λ xs. xs ++ v ∷ []) same)

  pub push_front_one_lem :
      (d : Deque A) (v : A) → IsValid d → Holds (v ∷ contents d) (push_front_one d v)
  unfolding push_front_one
  push_front_one_lem d v h =
      let (valid, room, same, size) = ensure_capacity_lem d 1 h (omega arith) in
      let (valid', now) = put_front_lem (ensure_capacity d 1) v valid (omega (arith, room, size)) in
      (valid', now ∙ ap (◌∷◌ v) same)

  -- PushBack appends the items in argument order.
  pub push_back_lem :
      (d : Deque A) (items : List A) → IsValid d → Holds (contents d ++ items) (push_back d items)
  unfolding push_back
  push_back_lem d [] h = (h, sym (append-nil (contents d)))
  push_back_lem d (x ∷ xs) h =
      let (valid, now) = push_back_one_lem d x h in
      let (valid', then_) = push_back_lem (push_back_one d x) xs valid in
      (valid', then_ ∙ ap (λ ys. ys ++ xs) now ∙ append_assoc (contents d) (x ∷ []) xs)

  -- On a valid deque, PushFront puts the items before the others in reverse of the argument order,
  -- and keeps the deque valid.
  pub push_front_lem :
      (d : Deque A) (items : List A)
      → IsValid d
      → Holds (reverse items ++ contents d) (push_front d items)
  unfolding push_front
  push_front_lem d [] h = (h, refl)
  push_front_lem d (x ∷ xs) h =
      let (valid, now) = push_front_one_lem d x h in
      let (valid', then_) = push_front_lem (push_front_one d x) xs valid in
      (
        valid',
        then_
            ∙ ap (λ ys. reverse xs ++ ys) now
            ∙ sym (append_assoc (reverse xs) (x ∷ []) (contents d))
            ∙ ap (λ ys. ys ++ contents d) (sym (reverse-cons x xs)),
      )

  -- A new deque holds its items in argument order.
  pub new_deque_lem : (items : List A) → Holds items (new_deque items)
  unfolding new_deque window
  new_deque_lem items = push_back_lem (record { buf = []; head = 0; size = 0 }) items (omega arith)
