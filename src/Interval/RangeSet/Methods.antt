-- ===== src/Interval/RangeSet/Methods.antt =====
-- collectionx/interval/range_set.go: what each method answers, in terms of the set of points.
use arcgo.Prelude.{
  ◌≡◌, refl, sym, ◌∙◌, not, ◌||◌, ◌&&◌, [], arith, if◌then◌else◌, is_nil, is_nil→nil, Bool-cases,
  inl, inr,
}
use arcgo.Prelude.Classes.{Ordered, ◌<?◌}
use arcgo.Interval.Range
use arcgo.Interval.Range.{Range, is_valid}
use arcgo.Interval.RangeSet.{RangeSet, add_range, add, remove, contains, overlaps}
use arcgo.Interval.RangeSet.Spec.{
  IsNormal, insert_range, cut_range, add_range_to_set-eq-insert_range,
  remove_range_from_set-eq-cut_range,
}
use arcgo.Interval.RangeSet.Points.{insert_range-IsNormal, covers-insert_range}
use arcgo.Interval.RangeSet.Cuts.{cut_range-IsNormal, covers-cut_range}
use arcgo.Interval.RangeSet.Contains.{contains-eq-covers}
use arcgo.Interval.RangeSet.Overlaps.{meets, overlaps-eq-meets, cut_range-changed, cut_range-kept}

module _ {ℓ} {T : Type ℓ} ⦃o : Ordered T⦄ where
  module _ (s : RangeSet T) (start end : T) (n : IsNormal s.ranges) where
    abbrev input : Range T
    input = record { start = start; end = end }

    added_ranges :
        (add s start end).0.ranges
        ≡ (if start <? end then insert_range input s.ranges else s.ranges)
    unfolding add add_range
    added_ranges = ground (arith, add_range_to_set-eq-insert_range s.ranges input n)

    added_ranges-IsNormal : IsNormal (add s start end).0.ranges
    added_ranges-IsNormal = rw added_ranges (elim (Bool-cases (start <? end)) [
      | inl v ↦ rw v (insert_range-IsNormal input s.ranges v n)
      | inr v ↦ rw v n
    ])

    -- On normal ranges, Add succeeds exactly on a valid range; it keeps the ranges normal, and
    -- adds exactly the points of the range.
    pub add_lem :
        (x : T)
        → ((add s start end).1 ≡ (start <? end))
          × IsNormal (add s start end).0.ranges
          × (contains (add s start end).0 x ≡ (contains s x || Range.contains input x))
    add_lem x = (
      unfold add add_range in ground arith,
      added_ranges-IsNormal,
      contains-eq-covers (add s start end).0 x added_ranges-IsNormal
          ∙ ground (
            arith,
            added_ranges,
            contains-eq-covers s x n,
            covers-insert_range input s.ranges x,
            o.lt_trans start x end,
            o.lt_total start x,
          ),
    )

    removed_ranges :
        ((remove s start end).1 ≡ ((start <? end) && meets input s.ranges))
        × ((remove s start end).0.ranges
            ≡ (if start <? end then (cut_range input s.ranges).0 else s.ranges))
    unfolding remove
    removed_ranges = elim (Bool-cases (is_nil s.ranges)) [
      | inl e ↦
          let none_left : s.ranges ≡ [] = is_nil→nil s.ranges e in
          rw none_left (elim (Bool-cases (start <? end)) [
            | inl v ↦ unfold cut_range in rw v (refl, refl)
            | inr v ↦ rw v (refl, refl)
          ])
      | inr e ↦
          rw
            (
              e,
              remove_range_from_set-eq-cut_range s.ranges input n,
              cut_range-changed input s.ranges n,
            )
            (elim (Bool-cases (start <? end)) [
              | inr v ↦ rw v (refl, refl)
              | inl v ↦ elim (Bool-cases (meets input s.ranges)) [
                | inl m ↦ rw (v, m) (refl, refl)
                | inr m ↦ rw (v, m) (refl, sym (cut_range-kept input s.ranges m))
              ]
            ])
    ]

    removed_ranges-IsNormal : IsNormal (remove s start end).0.ranges
    removed_ranges-IsNormal = rw (removed_ranges.1) (elim (Bool-cases (start <? end)) [
      | inl v ↦ rw v (cut_range-IsNormal input s.ranges v n)
      | inr v ↦ rw v n
    ])

    -- On normal ranges, Remove reports a change exactly when Overlaps reports true; it keeps the
    -- ranges normal, and takes away exactly the points of the range.
    pub remove_lem :
        (x : T)
        → ((remove s start end).1 ≡ overlaps s start end)
          × IsNormal (remove s start end).0.ranges
          × (contains (remove s start end).0 x ≡ (contains s x && not (Range.contains input x)))
    remove_lem x = (
      removed_ranges.0 ∙ sym (overlaps-eq-meets s start end n),
      removed_ranges-IsNormal,
      contains-eq-covers (remove s start end).0 x removed_ranges-IsNormal
          ∙ ground (
            arith,
            removed_ranges.1,
            contains-eq-covers s x n,
            covers-cut_range input s.ranges x,
            o.lt_trans start x end,
            o.lt_total start x,
          ),
    )
