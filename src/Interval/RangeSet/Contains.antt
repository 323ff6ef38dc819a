-- ===== src/Interval/RangeSet/Contains.antt =====
-- collectionx/interval/range_set.go: the binary search of Contains.
use arcgo.Prelude.{
  ◌≡◌, refl, sym, Bool, false, List, [], ◌∷◌, none, some, arith, if◌then◌else◌, get_elem?, is_nil,
  Bool-cases, inl, inr,
}
use arcgo.Prelude.Classes.{Ordered, ◌<?◌}
use arcgo.Interval.Range
use arcgo.Interval.Range.{Range, is_valid}
use arcgo.Interval.Search.{find_index, search_first-eq-find_index}
use arcgo.Interval.RangeSet.{RangeSet, contains, find_first_range_ending_after}
use arcgo.Interval.RangeSet.Spec.{IsNormal, IsNormal-IsMonotone}
use arcgo.Interval.RangeSet.Points.{covers, covers_below}

module _ {ℓ} {T : Type ℓ} ⦃o : Ordered T⦄ where
  found_contains :
      (l : List (Range T)) (x : T)
      → IsNormal l
      → elim (get_elem? l (find_index (λ r. x <? r.end) l)) as (λ _. Bool) [
        | none ↦ false
        | some r ↦ Range.contains r x
      ]
        ≡ covers l x
  unfolding find_index
  found_contains [] x n = refl
  found_contains (c ∷ cs) x n = elim (Bool-cases (x <? c.end)) [
    | inl h ↦
        rw h (grind (arith, covers_below c.end x cs n.1 n.2, o.lt_trans x c.end x, o.lt_irrefl x))
    | inr h ↦ rw h (ground (arith, found_contains cs x n.2))
  ]

  -- The test for no ranges changes no answer.
  pub by_length :
      (l : List (Range T)) {b : Bool} {c : Bool}
      → b ≡ c
      → (l ≡ [] → c ≡ false)
      → (if is_nil l then false else b) ≡ c
  by_length [] h k = sym (k refl)
  by_length (r ∷ rs) h k = h

  -- Contains answers by binary search what a walk over the ranges answers.
  pub contains-eq-covers :
      (s : RangeSet T) (x : T) → IsNormal s.ranges → contains s x ≡ covers s.ranges x
  unfolding contains find_first_range_ending_after
  contains-eq-covers s x n =
      rw (search_first-eq-find_index _ s.ranges (IsNormal-IsMonotone x s.ranges n))
        (by_length s.ranges (found_contains s.ranges x n) (λ e. rw e))
