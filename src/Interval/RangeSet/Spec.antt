-- ===== src/Interval/RangeSet/Spec.antt =====
-- collectionx/interval/range_set.go: AddRange and Remove as walks over the ranges, which the
-- searches and splices of the code are proved equal to.
use mathlib.Core.List.{append_assoc, append-nil}
use arcgo.Prelude.{
  ℕ, suc, ◌≡◌, refl, ap, ◌∙◌, Bool, true, false, not, ◌||◌, List, [], ◌∷◌, ◌++◌, arith,
  if◌then◌else◌, length, take, drop, nat_eqb, All, Bool-cases, inl, inr,
}
use arcgo.Prelude.Classes.{Ordered, ◌<?◌, ◌≤?◌}
use arcgo.Interval.Range.{Range, is_valid}
use arcgo.Interval.Search.{find_index, IsMonotone, search_first-eq-find_index}
use arcgo.Interval.RangeSet.{
  widen, splice_ranges, merge_loop, merge_set_ranges, add_range_at, add_range_to_set,
  find_first_range_ending_at_or_after, find_first_range_ending_after, trim_set_range, remove_loop,
  remove_range_from_set,
}

module _ {ℓ} {T : Type ℓ} ⦃o : Ordered T⦄ where
  -- A gap lies between `e` and the first of the ranges.
  abbrev pub IsAbove : T → List (Range T) → Type 0
  IsAbove e [] = Unit
  IsAbove e (c ∷ cs) = (e <? c.start) ≡ true

  -- The ranges are valid and sorted, with gaps between them.
  abbrev pub IsNormal : List (Range T) → Type 0
  IsNormal [] = Unit
  IsNormal (r ∷ rs) = (is_valid r ≡ true) × IsAbove r.end rs × IsNormal rs

  unfoldable pub absorb : Range T → List (Range T) → List (Range T)
  absorb m [] = m ∷ []
  absorb m (c ∷ cs) =
      let rest = absorb (widen m c) cs in if m.end <? c.start then m ∷ c ∷ cs else rest

  unfoldable pub insert_range : Range T → List (Range T) → List (Range T)
  insert_range r [] = r ∷ []
  insert_range r (c ∷ cs) =
      let rest = c ∷ insert_range r cs in if c.end <? r.start then rest else absorb r (c ∷ cs)

  unfoldable pub cut_from : Range T → List (Range T) → List (Range T)
  cut_from cut [] = []
  cut_from cut (c ∷ cs) =
      let fragments = (trim_set_range c cut).0 in
      let rest = fragments ++ cut_from cut cs in
      if cut.end ≤? c.start
      then c ∷ cs
      else if (trim_set_range c cut).1
      then fragments ++ cs
      else rest

  abbrev pub is_hit : Range T → List (Range T) → Bool
  is_hit cut [] = false
  is_hit cut (c ∷ cs) = not (cut.end ≤? c.start)

  unfoldable pub cut_range : Range T → List (Range T) → List (Range T) × Bool
  cut_range cut [] = ([], false)
  cut_range cut (c ∷ cs) =
      let (rest, changed) = cut_range cut cs in
      if cut.start <? c.end
      then (cut_from cut (c ∷ cs), is_hit cut (c ∷ cs))
      else (c ∷ rest, changed)

  IsMonotone-after :
      (p e : T) (l : List (Range T))
      → (p <? e) ≡ true
      → IsAbove e l
      → IsNormal l
      → All (λ r. (p <? r.end) ≡ true) l
  IsMonotone-after p e [] h a n = tt
  IsMonotone-after p e (c ∷ cs) h a n =
      let k : (p <? c.end) ≡ true = o.lt_trans p e c.end h (o.lt_trans e c.start c.end a n.0) in
      (k, IsMonotone-after p c.end cs k n.1 n.2)

  pub IsNormal-IsMonotone :
      (p : T) (l : List (Range T)) → IsNormal l → IsMonotone (λ r. p <? r.end) l
  IsNormal-IsMonotone p [] n = tt
  IsNormal-IsMonotone p (c ∷ cs) n =
      (λ h. IsMonotone-after p c.end cs h n.1 n.2, IsNormal-IsMonotone p cs n.2)

  IsMonotone-at_or_after :
      (p e : T) (l : List (Range T))
      → (p ≤? e) ≡ true
      → IsAbove e l
      → IsNormal l
      → All (λ r. (p ≤? r.end) ≡ true) l
  IsMonotone-at_or_after p e [] h a n = tt
  IsMonotone-at_or_after p e (c ∷ cs) h a n =
      let k : (e <? c.end) ≡ true = o.lt_trans e c.start c.end a n.0 in
      let m : (p ≤? c.end) ≡ true = grind (arith, o.lt_trans e c.end p, o.lt_irrefl) in
      (m, IsMonotone-at_or_after p c.end cs m n.1 n.2)

  pub IsNormal-IsMonotone_at :
      (p : T) (l : List (Range T)) → IsNormal l → IsMonotone (λ r. p ≤? r.end) l
  IsNormal-IsMonotone_at p [] n = tt
  IsNormal-IsMonotone_at p (c ∷ cs) n =
      (λ h. IsMonotone-at_or_after p c.end cs h n.1 n.2, IsNormal-IsMonotone_at p cs n.2)

  merge_loop_shift :
      (l : List (Range T)) (m : Range T) (e : ℕ)
      → merge_loop l m (suc e) ≡ ((merge_loop l m e).0, suc (merge_loop l m e).1)
  unfolding merge_loop
  merge_loop_shift [] m e = refl
  merge_loop_shift (c ∷ cs) m e = ground (arith, merge_loop_shift cs (widen m c) (suc e))

  merge_loop-eq-absorb :
      (l : List (Range T)) (m : Range T)
      → (merge_loop l m 0).0 ∷ drop (merge_loop l m 0).1 l ≡ absorb m l
  unfolding merge_loop absorb
  merge_loop-eq-absorb [] m = refl
  merge_loop-eq-absorb (c ∷ cs) m = elim (Bool-cases (m.end <? c.start)) [
    | inl h ↦ rw h
    | inr h ↦ rw (h, merge_loop_shift cs (widen m c) 0) (merge_loop-eq-absorb cs (widen m c))
  ]

  add_range_at-zero :
      (c : Range T) (cs : List (Range T)) (r : Range T)
      → add_range_at 0 (c ∷ cs) r ≡ absorb r (c ∷ cs)
  unfolding add_range_at splice_ranges merge_set_ranges absorb
  add_range_at-zero c cs r = elim (Bool-cases (r.end <? c.start)) [
    | inl h ↦ ground arith
    | inr h ↦ ground (arith, merge_loop-eq-absorb (c ∷ cs) r)
  ]

  add_range_at-suc :
      (n : ℕ) (c : Range T) (cs : List (Range T)) (r : Range T)
      → add_range_at (suc n) (c ∷ cs) r ≡ c ∷ add_range_at n cs r
  unfolding add_range_at splice_ranges merge_set_ranges
  add_range_at-suc n c cs r = ground (arith, merge_loop_shift (drop n cs) r n)

  add_range_at-find_index :
      (l : List (Range T)) (r : Range T)
      → add_range_at (find_index (λ c. r.start ≤? c.end) l) l r ≡ insert_range r l
  unfolding find_index insert_range
  add_range_at-find_index [] r = unfold add_range_at in refl
  add_range_at-find_index (c ∷ cs) r = elim (Bool-cases (c.end <? r.start)) [
    | inl h ↦ rw h (add_range_at-suc _ c cs r ∙ ap (◌∷◌ c) (add_range_at-find_index cs r))
    | inr h ↦ rw h (add_range_at-zero c cs r)
  ]

  -- On normal ranges, the search and the splices of `addRangeToSet` make the walk.
  pub add_range_to_set-eq-insert_range :
      (l : List (Range T)) (r : Range T) → IsNormal l → add_range_to_set l r ≡ insert_range r l
  unfolding add_range_to_set find_first_range_ending_at_or_after
  add_range_to_set-eq-insert_range [] r n = unfold insert_range in refl
  add_range_to_set-eq-insert_range (c ∷ cs) r n =
      rw (search_first-eq-find_index _ (c ∷ cs) (IsNormal-IsMonotone_at r.start (c ∷ cs) n))
        (add_range_at-find_index (c ∷ cs) r)

  remove_loop-eq-cut_from :
      (l : List (Range T)) (cut : Range T) (next : List (Range T)) (changed : Bool)
      → remove_loop l cut next changed ≡ (next ++ cut_from cut l, changed || is_hit cut l)
  unfolding remove_loop cut_from
  remove_loop-eq-cut_from [] cut next changed = ground (arith, append-nil next)
  remove_loop-eq-cut_from (c ∷ cs) cut next changed =
      let fragments = (trim_set_range c cut).0 in
      ground (
        arith,
        append_assoc next fragments cs,
        append_assoc next fragments (cut_from cut cs),
        remove_loop-eq-cut_from cs cut (next ++ fragments) true,
      )

  drop_at :
      (l : List (Range T)) (cut : Range T) (front : List (Range T))
      → let n = find_index (λ c. cut.start <? c.end) l in
        (if nat_eqb n (length l)
          then (front ++ l, false)
          else remove_loop (drop n l) cut (front ++ take n l) false)
        ≡ (front ++ (cut_range cut l).0, (cut_range cut l).1)
  unfolding find_index cut_range
  drop_at [] cut front = refl
  drop_at (c ∷ cs) cut front = elim (Bool-cases (cut.start <? c.end)) [
    | inl h ↦
        rw h (
          ground
            (arith, append-nil front, remove_loop-eq-cut_from (c ∷ cs) cut (front ++ []) false))
    | inr h ↦ rw h (
        ground (
          arith,
          append_assoc front (c ∷ []) cs,
          append_assoc front (c ∷ []) (take (find_index (λ d. cut.start <? d.end) cs) cs),
          append_assoc front (c ∷ []) (cut_range cut cs).0,
          drop_at cs cut (front ++ c ∷ []),
        ))
  ]

  -- On normal ranges, the search and the loop of `removeRangeFromSet` make the walk.
  pub remove_range_from_set-eq-cut_range :
      (l : List (Range T)) (cut : Range T)
      → IsNormal l
      → remove_range_from_set l cut ≡ cut_range cut l
  unfolding remove_range_from_set find_first_range_ending_after
  remove_range_from_set-eq-cut_range l cut n =
      rw (search_first-eq-find_index _ l (IsNormal-IsMonotone cut.start l n)) (drop_at l cut [])
