-- ===== src/Sets/MultiSet/Laws.antt =====
-- collectionx/set/multiset.go: every operation keeps the counts and the size in step, and what it
-- does to the count of each item.
use Prim.Native.Nat.{min}
use mathlib.Core.Path.{subst}
use arcgo.Prelude.{
  ℕ, ◌+◌, ◌-◌, ◌≤◌, ◌≡◌, refl, sym, ap, ◌∙◌, List, [], ◌∷◌, some, if◌then◌else◌, arith, length, leb,
  nat_eqb, Bool-cases, Option-cases, inl, inr,
}
use arcgo.Prelude.Classes.{Comparable}
use arcgo.Prelude.Int.{ℤ, pos, negsuc, clamp}
use arcgo.Mapping.GoMap.{lookup, erase, IsMap}
use arcgo.Mapping.Map
use arcgo.Mapping.Map.{Map, new_map}
use arcgo.Mapping.Map.Laws.{set_lem, delete_lem}
use arcgo.Sets.MultiSet.{MultiSet, or_none, count, add, add_n, take_out, remove_n, elements, len}
use arcgo.Sets.MultiSet.Counts.{
  total, IsPositive, total-store, total-erase, store-IsPositive, erase-IsPositive, lookup-le-total,
  occurrences, occurrences-elements_loop, length-elements_loop,
}

module _ {ℓ} {T : Type ℓ} ⦃c : Comparable T⦄ where
  -- No item has two counts or a count of 0, and the size is their sum.
  pub record IsCounted (s : MultiSet T) : Type 0 where
    pub valid : IsMap s.counts.items
    pub positive : IsPositive s.counts.items
    pub sized : s.size ≡ total s.counts.items

  set-IsCounted :
      (s : MultiSet T) (x : T) (n : ℕ)
      → IsCounted s
      → 1 ≤ n
      → let old = or_none (Map.get s.counts x) in
        (new : ℕ)
        → new + old ≡ s.size + n
        → IsCounted (record { counts = Map.set s.counts x n; size = new })
  unfolding Map.set Map.get
  set-IsCounted s x n h p new e = record {
    valid = (unfold Map.set in (set_lem s.counts x n h.valid).0);
    positive = store-IsPositive s.counts.items x n p h.positive;
    sized = omega (arith, e, h.sized, total-store s.counts.items x n);
  }

  deleted_items :
      (m : Map T ℕ) (x : T) (n : ℕ)
      → Map.get m x ≡ some n
      → (Map.delete m x).0.items ≡ erase m.items x
  unfolding Map.delete Map.get
  deleted_items m x n e = simp e refl

  found_count :
      (m : Map T ℕ) (x : T) (n : ℕ) → Map.get m x ≡ some n → or_none (lookup m.items x) ≡ n
  unfolding Map.get
  found_count m x n e = ap or_none e

  bounded : (s : MultiSet T) (x : T) → IsCounted s → count s x ≤ s.size
  unfolding count Map.get
  bounded s x h = omega (arith, h.sized, lookup-le-total s.counts.items x)

  delete-IsCounted :
      (s : MultiSet T) (x : T) (n : ℕ)
      → IsCounted s
      → Map.get s.counts x ≡ some n
      → IsCounted (record { counts = (Map.delete s.counts x).0; size = s.size - n })
  delete-IsCounted s x n h e =
      let items = deleted_items s.counts x n e in
      let old : or_none (lookup s.counts.items x) ≡ n = found_count s.counts x n e in
      record {
        valid = (delete_lem s.counts x h.valid).1;
        positive = subst IsPositive (sym items) (erase-IsPositive s.counts.items x h.positive);
        sized = omega (arith, h.sized, ap total items, total-erase s.counts.items x h.valid, old);
      }

  -- On a bag whose size is the sum of its counts, none of them 0, AddN raises the count of the
  -- item by the number and no other, and keeps the bag so; a negative number adds none.
  pub add_n_lem :
      (s : MultiSet T) (x : T) (n : ℤ)
      → IsCounted s
      → IsCounted (add_n s x n)
        × ((y : T) → count (add_n s x n) y ≡ count s y + (if c.same x y then clamp n else 0))
  unfolding add_n count
  add_n_lem s x (negsuc n) h = (h, λ y. ground arith)
  add_n_lem s x (pos n) h = elim (Bool-cases (leb n 0)) [
    | inl e ↦
        let none_added : n ≡ 0 = ground (arith, e) in rw e (h, λ y. ground (arith, none_added))
    | inr e ↦
        let old = or_none (Map.get s.counts x) in
        rw e (
          set-IsCounted s x (old + n) h (ground (arith, e)) (s.size + n) (omega arith),
          λ y. grind (arith, (set_lem s.counts x (old + n) h.valid).1 y, c.same_sound x y),
        )
  ]

  -- On a bag whose size is the sum of its counts, none of them 0, Add raises the count of each
  -- item by its occurrences in the arguments, and keeps the bag so.
  pub add_items_lem :
      (s : MultiSet T) (items : List T)
      → IsCounted s
      → IsCounted (add s items)
        × ((y : T) → count (add s items) y ≡ count s y + occurrences y items)
  unfolding add count
  add_items_lem s [] h = (h, λ y. omega arith)
  add_items_lem s (x ∷ xs) h =
      let old = or_none (Map.get s.counts x) in
      let s' : MultiSet T = record { counts = Map.set s.counts x (old + 1); size = s.size + 1 } in
      let (counted, acts) =
        add_items_lem s' xs
          (set-IsCounted s x (old + 1) h (omega arith) (s.size + 1) (omega arith)) in
      (
        counted,
        λ y. acts y ∙ grind (arith, (set_lem s.counts x (old + 1) h.valid).1 y, c.same_sound x y),
      )

  take_out_lem :
      (s : MultiSet T) (x : T) (n current : ℕ)
      → IsCounted s
      → Map.get s.counts x ≡ some current
      → IsCounted (take_out s x n current).1
        × ((y : T) → count (take_out s x n current).1 y ≡ count s y - (if c.same x y then n else 0))
  unfolding take_out count
  take_out_lem s x n current h e = elim (Bool-cases (nat_eqb (current - min n current) 0)) [
    | inl z ↦
        let all : min n current ≡ current = ground (arith, z) in
        rw z (
          subst (λ k. IsCounted (record { counts = (Map.delete s.counts x).0; size = s.size - k }))
              (sym all) (delete-IsCounted s x current h e),
          λ y. grind (arith, (delete_lem s.counts x h.valid).2 y, c.same_sound x y, e, all),
        )
    | inr z ↦
        let left = current - min n current in
        let old : count s x ≡ current = unfold count in ap or_none e in
        rw z (
          set-IsCounted s x left h (ground (arith, z)) (s.size - min n current)
              (omega (arith, bounded s x h, old, ap or_none e)),
          λ y. grind (arith, (set_lem s.counts x left h.valid).1 y, c.same_sound x y, e),
        )
  ]

  -- On a bag whose size is the sum of its counts, none of them 0, RemoveN returns how many
  -- occurrences it took, as many as asked and there, takes them from the count of the item and
  -- from no other, and keeps the bag so; a negative number asks for none.
  pub remove_n_lem :
      (s : MultiSet T) (x : T) (n : ℤ)
      → IsCounted s
      → ((remove_n s x n).0 ≡ min (clamp n) (count s x))
        × IsCounted (remove_n s x n).1
        × ((y : T) → count (remove_n s x n).1 y ≡ count s y - (if c.same x y then clamp n else 0))
  unfolding remove_n count
  remove_n_lem s x (negsuc n) h = (omega arith, h, λ y. ground arith)
  remove_n_lem s x (pos n) h = elim (Bool-cases (leb n 0)) [
    | inl e ↦
        let none_asked : n ≡ 0 = ground (arith, e) in
        rw e (omega (arith, none_asked), h, λ y. ground (arith, none_asked))
    | inr e ↦ elim (Option-cases (Map.get s.counts x)) [
      | inl g ↦ simp (e, g) (omega arith, h, λ y. grind (arith, g, c.same_sound x y))
      | inr (current, g) ↦ elim (Bool-cases (leb current 0)) [
        | inl z ↦
            let none_left : current ≡ 0 = ground (arith, z) in
            simp (e, g, z)
              (omega (arith, none_left), h, λ y. grind (arith, g, none_left, c.same_sound x y))
        | inr z ↦
            let (counted, acts) = take_out_lem s x n current h g in
            simp (e, g, z) ((unfold take_out in refl), counted, acts)
      ]
    ]
  ]

  -- On a bag whose size is the sum of its counts, none of them 0, Elements lists as many items as
  -- Len says, and each as often as Count says.
  pub elements_lem :
      (s : MultiSet T) (x : T)
      → IsCounted s
      → (length (elements s) ≡ len s) × (occurrences x (elements s) ≡ count s x)
  unfolding elements len count
  elements_lem s x h = elim (Bool-cases (nat_eqb s.size 0)) [
    | inl e ↦
        let small : count s x ≡ 0 = ground (arith, e, bounded s x h) in
        rw e (ground (arith, e), omega (arith, small))
    | inr e ↦ rw e (
      length-elements_loop s.counts.items ∙ sym h.sized,
      occurrences-elements_loop s.counts.items x h.valid ∙ (unfold Map.get in refl),
    )
  ]
