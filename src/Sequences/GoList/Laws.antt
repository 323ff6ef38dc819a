-- ===== src/Sequences/GoList/Laws.antt =====
-- collectionx/list/list.go: what insertions, removals and the filter do to the list of items.
use mathlib.Core.List.{append_assoc, append-nil}
use mathlib.Core.Path.{ap₂}
use arcgo.Prelude.{
  ℕ, zero, suc, ◌+◌, ◌-◌, ◌≤◌, ◌<◌, ◌≡◌, refl, sym, ap, ◌∙◌, Bool, true, false, List, [], ◌∷◌, ◌++◌,
  some, if◌then◌else◌, ltb, leb, nat_eqb, is_nil, is_nil→nil, length, length-append, get_or,
  get_elem?, set, take, drop, arith, Bool-cases, inl, inr,
}
use arcgo.Prelude.Classes.{Zero}
use arcgo.Prelude.Int.{pos, negsuc}
use arcgo.Sequences.GoList.{
  GoList, copy_at, add_all_at, remove_at, compact_loop, zero_loop, remove_if,
}
use arcgo.Sequences.GoList.Moves.{take-front, take-drop, length-take_le, copy_at-middle}
use arcgo.Sequences.GoList.Compact.{refused, compact_loop_lem}

module _ {ℓ} {T : Type ℓ} where
  -- The two moves of AddAllAt, on the slice that append has grown.
  inserted :
      (t d new : List T)
      → let grown = (t ++ d) ++ new in
        copy_at (copy_at grown (length t + length new) d) (length t) new ≡ t ++ (new ++ d)
  inserted t d new =
      let g = d ++ new in
      let u = take (length new) g in
      let o = drop (length new) g in
      let sizes = length-append d new in
      let u_size : length u ≡ length new = length-take_le (length new) g (omega (arith, sizes)) in
      let o_size : length o ≡ length d =
        omega
          (arith, sizes, u_size, sym (length-append u o) ∙ ap length (take-drop (length new) g)) in
      let whole : (t ++ d) ++ new ≡ (t ++ u) ++ (o ++ []) =
        append_assoc t d new
        ∙ ap (◌++◌ t) (sym (take-drop (length new) g))
        ∙ sym (append_assoc t u o)
        ∙ ap (◌++◌ (t ++ u)) (sym (append-nil o)) in
      let at : length t + length new ≡ length (t ++ u) = omega (arith, length-append t u, u_size) in
      ap (λ xs. copy_at xs (length t) new)
        (ap₂ (λ xs i. copy_at xs i d) whole at
          ∙ copy_at-middle (t ++ u) o d [] o_size
          ∙ append_assoc t u (d ++ []))
      ∙ copy_at-middle t u new (d ++ []) u_size
      ∙ ap (λ xs. t ++ (new ++ xs)) (append-nil d)

  moves :
      (xs : List T) (i : ℕ) (new : List T)
      → i ≤ length xs
      → copy_at
          (copy_at
            (xs ++ new)
            (i + length new)
            (drop i (take (length (xs ++ new) - length new) (xs ++ new))))
          i
          new
        ≡ take i xs ++ (new ++ drop i xs)
  moves xs i new h =
      let t = take i xs in
      let d = drop i xs in
      let at : length t ≡ i = length-take_le i xs h in
      let behind : drop i (take (length (xs ++ new) - length new) (xs ++ new)) ≡ d =
        ap (λ n. drop i (take n (xs ++ new))) {y = length xs} (omega (arith, length-append xs new))
        ∙ ap (drop i) (take-front xs new) in
      ap₂ (λ ys j. copy_at ys j new)
        (ap (copy_at (xs ++ new) (i + length new)) behind
          ∙ ap₂ (λ ys j. copy_at (ys ++ new) (j + length new) d) (sym (take-drop i xs)) (sym at))
        (sym at)
      ∙ inserted t d new

  take-set_ge : (n i : ℕ) (xs : List T) (v : T) → n ≤ i → take n (set xs i v) ≡ take n xs
  take-set_ge zero i xs v h = refl
  take-set_ge (suc n) i [] v h = refl
  take-set_ge (suc n) zero (x ∷ xs) v h = elim h [ ]
  take-set_ge (suc n) (suc i) (x ∷ xs) v h = ap (◌∷◌ x) (take-set_ge n i xs v (omega arith))

  length-drop : (n : ℕ) (xs : List T) → length (drop n xs) ≡ length xs - n
  length-drop zero xs = omega arith
  length-drop (suc n) [] = omega arith
  length-drop (suc n) (x ∷ xs) = length-drop n xs ∙ omega arith

  take_all : (n : ℕ) (xs : List T) → length xs ≤ n → take n xs ≡ xs
  take_all zero [] h = refl
  take_all zero (x ∷ xs) h = elim h [ ]
  take_all (suc n) [] h = refl
  take_all (suc n) (x ∷ xs) h = ap (◌∷◌ x) (take_all n xs (omega arith))

  -- The move of RemoveAt closes the gap.
  closed :
      (xs : List T) (i : ℕ)
      → i < length xs
      → take (length xs - 1) (copy_at xs i (drop (suc i) xs)) ≡ take i xs ++ drop (suc i) xs
  closed xs i h =
      let t = take i xs in
      let d = drop i xs in
      let r = drop (suc i) xs in
      let old = take (length r) d in
      let back = drop (length r) d in
      let at : length t ≡ i = length-take_le i xs (omega arith) in
      let r_size : length r ≡ length xs - suc i = length-drop (suc i) xs in
      let d_size : length d ≡ length xs - i = length-drop i xs in
      let old_size : length old ≡ length r =
        length-take_le (length r) d (omega (arith, r_size, d_size)) in
      let whole : xs ≡ t ++ (old ++ back) =
        sym (take-drop i xs) ∙ ap (◌++◌ t) (sym (take-drop (length r) d)) in
      let moved : copy_at xs i r ≡ (t ++ r) ++ back =
        ap₂ (λ ys j. copy_at ys j r) whole (sym at)
        ∙ copy_at-middle t old r back old_size
        ∙ sym (append_assoc t r back) in
      ap₂ take (omega (arith, length-append t r, at, r_size)) moved ∙ take-front (t ++ r) back

  get_or-get_elem? :
      (xs : List T) (i : ℕ) (z : T) → i < length xs → some (get_or xs i z) ≡ get_elem? xs i
  get_or-get_elem? [] i z h = elim h [ ]
  get_or-get_elem? (x ∷ xs) zero z h = refl
  get_or-get_elem? (x ∷ xs) (suc i) z h = get_or-get_elem? xs i z (omega arith)

  -- AddAllAt at an index up to the length puts the items there, between those before the index and
  -- those from it on; at any other index, a negative one included, it reports false and changes
  -- nothing.
  pub add_all_at_lem :
      (l : GoList T) (i : ℕ) (new : List T)
      → ((add_all_at l (pos i) new).0 ≡ leb i (length l.items))
        × ((add_all_at l (pos i) new).1.items ≡ (
            if leb i (length l.items) then take i l.items ++ (new ++ drop i l.items) else l.items))
        × (add_all_at l (negsuc i) new ≡ (false, l))
  unfolding add_all_at
  add_all_at_lem l i new = elim (Bool-cases (ltb (length l.items) i)) [
    | inl e ↦
        let out : leb i (length l.items) ≡ false = ground (arith, e) in
        rw (e, out) (refl, refl, refl)
    | inr e ↦
        let within : leb i (length l.items) ≡ true = ground (arith, e) in
        elim (Bool-cases (is_nil new)) [
          | inl k ↦
              rw (e, within, k)
                (
                  refl,
                  sym (take-drop i l.items)
                      ∙ ap (λ xs. take i l.items ++ (xs ++ drop i l.items))
                          (sym (is_nil→nil new k)),
                  refl,
                )
          | inr k ↦ rw (e, within, k) (refl, moves l.items i new (ground (arith, e)), refl)
        ]
  ]

module _ {ℓ} {T : Type ℓ} ⦃z : Zero T⦄ where
  -- RemoveAt at an index within the list returns the item there, and leaves the others in their
  -- order.
  pub remove_at_lem :
      (l : GoList T) (i : ℕ)
      → i < length l.items
      → ((remove_at l (pos i)).0 ≡ get_elem? l.items i)
        × ((remove_at l (pos i)).1.items ≡ take i l.items ++ drop (suc i) l.items)
  unfolding remove_at
  remove_at_lem l i h =
      let within : leb (length l.items) i ≡ false = ground arith in
      let moved = copy_at l.items i (drop (suc i) l.items) in
      rw within (
        get_or-get_elem? l.items i z.zero_value h,
        take-set_ge (length l.items - 1) (length l.items - 1) moved z.zero_value (omega arith)
            ∙ closed l.items i h,
      )

  take-zero_loop :
      (w : ℕ) (items : List T) (index n : ℕ)
      → w ≤ index
      → take w (zero_loop items index n) ≡ take w items
  unfolding zero_loop
  take-zero_loop w items index zero h = refl
  take-zero_loop w items index (suc n) h =
      take-zero_loop w (set items index z.zero_value) (suc index) n (omega arith)
      ∙ take-set_ge w index items z.zero_value h

  -- RemoveIf, which compacts the slice in place, leaves exactly the items that the predicate
  -- refuses, in their order, and returns how many it removed.
  pub remove_if_lem :
      (l : GoList T) (p : T → Bool)
      → ((remove_if l p).0 ≡ length l.items - length (refused p l.items))
        × ((remove_if l p).1.items ≡ refused p l.items)
  unfolding remove_if
  remove_if_lem l p = elim (Bool-cases (is_nil l.items)) [
    | inl e ↦
        let empty : l.items ≡ [] = is_nil→nil l.items e in
        rw e (
          ap (λ xs. length xs - length (refused p xs)) (sym empty),
          empty ∙ sym (ap (refused p) empty),
        )
    | inr e ↦
        let n = length l.items in
        let out = compact_loop p l.items 0 0 n in
        let (kept, write, size) =
          compact_loop_lem p [] [] l.items l.items 0 0 n refl (omega arith) refl (omega arith) in
        elim (Bool-cases (nat_eqb (n - out.1) 0)) [
          | inl k ↦
              let none_removed : n - out.1 ≡ 0 = ground (arith, k) in
              let all : length out.0 ≤ out.1 = omega (arith, size, none_removed) in
              rw (e, k) (omega (arith, write, none_removed), sym (take_all out.1 out.0 all) ∙ kept)
          | inr k ↦
              rw (e, k)
                (
                  ap (λ w. n - w) write,
                  take-zero_loop out.1 out.0 out.1 (n - out.1) (omega arith) ∙ kept,
                )
        ]
  ]
