-- ===== src/Interval/RangeSet/Overlaps.antt =====
-- collectionx/interval/range_set.go: Overlaps, and the report of Remove.
use arcgo.Prelude.{
  ◌≡◌, refl, ◌∙◌, Bool, true, false, ◌||◌, ◌&&◌, List, [], ◌∷◌, none, some, arith, get_elem?,
  Bool-cases, inl, inr,
}
use arcgo.Prelude.Classes.{Ordered, ◌<?◌, ◌≤?◌}
use arcgo.Interval.Range
use arcgo.Interval.Range.{Range, is_valid}
use arcgo.Interval.Search.{find_index, search_first-eq-find_index}
use arcgo.Interval.RangeSet.{RangeSet, contains, overlaps, find_first_range_ending_after}
use arcgo.Interval.RangeSet.Spec.{IsAbove, IsNormal, cut_from, cut_range, IsNormal-IsMonotone}
use arcgo.Interval.RangeSet.Points.{covers}
use arcgo.Interval.RangeSet.Contains.{by_length, contains-eq-covers}

module _ {ℓ} {T : Type ℓ} ⦃o : Ordered T⦄ where
  -- Some range overlaps the other.
  abbrev pub meets : Range T → List (Range T) → Bool
  meets cut [] = false
  meets cut (c ∷ cs) = Range.overlaps c cut || meets cut cs

  meets_above :
      (cut : Range T) (e : T) (l : List (Range T))
      → (cut.end ≤? e) ≡ true
      → IsAbove e l
      → IsNormal l
      → meets cut l ≡ false
  meets_above cut e [] h a n = refl
  meets_above cut e (c ∷ cs) h a n =
      let far : (cut.end ≤? c.end) ≡ true =
        grind (arith, o.lt_trans e c.start c.end, o.lt_trans e c.end cut.end) in
      grind (arith, meets_above cut c.end cs far n.1 n.2, o.lt_trans e c.start cut.end)

  found_overlaps :
      (l : List (Range T)) (cut : Range T)
      → IsNormal l
      → elim (get_elem? l (find_index (λ r. cut.start <? r.end) l)) as (λ _. Bool) [
        | none ↦ false
        | some r ↦ r.start <? cut.end
      ]
        ≡ meets cut l
  unfolding find_index
  found_overlaps [] cut n = refl
  found_overlaps (c ∷ cs) cut n = elim (Bool-cases (cut.start <? c.end)) [
    | inl h ↦ rw h (grind (arith, meets_above cut c.end cs, o.lt_trans c.start c.end cut.end n.0))
    | inr h ↦ rw h (ground (arith, found_overlaps cs cut n.2))
  ]

  -- Overlaps answers by binary search what a walk over the ranges answers, and an invalid input
  -- overlaps nothing.
  pub overlaps-eq-meets :
      (s : RangeSet T) (start end : T)
      → IsNormal s.ranges
      → overlaps s start end
        ≡ ((start <? end) && meets (record { start = start; end = end }) s.ranges)
  unfolding overlaps find_first_range_ending_after
  overlaps-eq-meets s start end n =
      let cut : Range T = record { start = start; end = end } in
      rw (search_first-eq-find_index _ s.ranges (IsNormal-IsMonotone start s.ranges n)) (
        by_length s.ranges (ground (arith, found_overlaps s.ranges cut n))
          (λ e. rw e (ground arith)))

  pub cut_range-changed :
      (cut : Range T) (l : List (Range T)) → IsNormal l → (cut_range cut l).1 ≡ meets cut l
  unfolding cut_range
  cut_range-changed cut [] n = refl
  cut_range-changed cut (c ∷ cs) n = elim (Bool-cases (cut.start <? c.end)) [
    | inl h ↦ rw h (grind (arith, meets_above cut c.end cs, o.lt_trans c.start c.end cut.end n.0))
    | inr h ↦ rw h (ground (arith, cut_range-changed cut cs n.2))
  ]

  -- Overlaps finds a common point, where there is one.
  pub meets-common :
      (cut : Range T) (l : List (Range T))
      → is_valid cut ≡ true
      → IsNormal l
      → meets cut l ≡ true
      → (x : T) × (covers l x ≡ true) × (Range.contains cut x ≡ true)
  meets-common cut [] v n h = cc
  meets-common cut (c ∷ cs) v n h = elim (Bool-cases (Range.overlaps c cut)) [
    | inl k ↦ elim (Bool-cases (c.start <? cut.start)) [
      | inl low ↦ (cut.start, grind (arith, o.lt_trans), grind (arith, o.lt_irrefl))
      | inr high ↦ (c.start, grind (arith, o.lt_irrefl), grind (arith, o.lt_irrefl))
    ]
    | inr k ↦ let (x, p, q) = meets-common cut cs v n.2 (ground arith) in (x, ground arith, q)
  ]

  pub common-meets :
      (cut : Range T) (l : List (Range T)) (x : T)
      → covers l x ≡ true
      → Range.contains cut x ≡ true
      → meets cut l ≡ true
  common-meets cut [] x h k = cc
  common-meets cut (c ∷ cs) x h k = grind (arith, common-meets cut cs x, o.lt_trans, o.lt_total)

  -- On normal ranges, Overlaps reports true exactly when some point lies in the set and in the
  -- input.
  pub overlaps_iff :
      (s : RangeSet T) (start end : T)
      → IsNormal s.ranges
      → let input : Range T = record { start = start; end = end } in
        (overlaps s start end ≡ true
          → (x : T) × (contains s x ≡ true) × (Range.contains input x ≡ true))
        × ((x : T)
            → contains s x ≡ true
            → Range.contains input x ≡ true
            → overlaps s start end ≡ true)
  overlaps_iff s start end n = (
    λ h.
        let (x, p, q) =
          meets-common (record { start = start; end = end }) s.ranges
            (ground (arith, overlaps-eq-meets s start end n)) n
            (ground (arith, overlaps-eq-meets s start end n)) in
        (x, contains-eq-covers s x n ∙ p, q),
    λ x p q. ground (
      arith,
      overlaps-eq-meets s start end n,
      contains-eq-covers s x n,
      o.lt_trans start x end,
      o.lt_total start x,
      common-meets (record { start = start; end = end }) s.ranges x,
    ),
  )

  -- A cut that meets no range changes nothing.
  pub cut_range-kept :
      (cut : Range T) (l : List (Range T)) → meets cut l ≡ false → (cut_range cut l).0 ≡ l
  unfolding cut_range cut_from
  cut_range-kept cut [] h = refl
  cut_range-kept cut (c ∷ cs) h = ground (arith, cut_range-kept cut cs)
