-- ===== src/Interval/RangeSet/Tests.antt =====
-- collectionx/interval/range_set.go on concrete sets of numbers.
use arcgo.Prelude.{ℕ, ◌≡◌, refl, true, false, List, [], ◌∷◌, Option, some, map, ◌==◌}
use arcgo.Prelude.Cache.{Bytes}
use arcgo.Prelude.Classes.{nat_ordered}
use arcgo.Interval.Range.{Range}
use arcgo.Interval.Search.{search_first, sort_search, sort_search_loop}
use arcgo.Interval.RangeSet
use arcgo.Interval.RangeSet.{RangeSet, new_range_set}
use arcgo.Interval.RangeSet.Spec.{IsNormal}
use arcgo.Interval.RangeSet.Canonical.{ranges_unique}
use arcgo.Interval.RangeSet.Json.{to_json}
use arcgo.Interval.RangeSet.Run.{Op, run, replay, run_refines}

abbrev between : ℕ → ℕ → Range ℕ
between a b = record { start = a; end = b }

abbrev sample : RangeSet ℕ
sample = record (new_range_set) { ranges = between 1 4 ∷ between 6 9 ∷ [] }

sample-IsNormal : IsNormal sample.ranges
sample-IsNormal = (refl, refl, (refl, tt, tt))

-- A range that bridges the gap joins both.
add_bridge : (RangeSet.add sample 4 6).0.ranges ≡ between 1 9 ∷ []
unfolding RangeSet.add RangeSet.add_range RangeSet.add_range_to_set RangeSet.add_range_at
    RangeSet.find_first_range_ending_at_or_after RangeSet.merge_set_ranges RangeSet.merge_loop
    RangeSet.splice_ranges search_first sort_search sort_search_loop
add_bridge = refl

-- A cut inside a range splits it.
remove_inside :
    RangeSet.remove_range_from_set sample.ranges (between 7 8)
    ≡ (between 1 4 ∷ between 6 7 ∷ between 8 9 ∷ [], true)
unfolding RangeSet.remove_range_from_set RangeSet.find_first_range_ending_after RangeSet.remove_loop
    RangeSet.trim_set_range search_first sort_search sort_search_loop
remove_inside = refl

range_stops : RangeSet.range (λ r. r.start == 0) sample ≡ between 1 4 ∷ []
unfolding RangeSet.range RangeSet.range_loop
range_stops = refl

ranges_unique_example : sample.ranges ≡ (record sample { ranges_dirty = true }).ranges
unfolding RangeSet.contains
ranges_unique_example =
    ranges_unique sample (record sample { ranges_dirty = true }) sample-IsNormal sample-IsNormal
      (λ x. refl)

-- Every range is marshalled to one byte.
abbrev to_bytes : List (Range ℕ) → Option Bytes
to_bytes l = some (map (λ r. r.start) l)

abbrev calls : List (Op ℕ)
calls = Op.add 1 4 ∷ Op.marshal_json ∷ Op.add 6 9 ∷ Op.print ∷ Op.remove 2 7 ∷ Op.list_ranges ∷ []

run_refines_example :
    (RangeSet.contains (run to_bytes [] calls new_range_set) ≡ replay calls (λ _. false))
    × ((RangeSet.get_ranges (run to_bytes [] calls new_range_set)).0
        ≡ (run to_bytes [] calls new_range_set).ranges)
    × ((to_json to_bytes (run to_bytes [] calls new_range_set)).0
        ≡ to_bytes (run to_bytes [] calls new_range_set).ranges)
run_refines_example = run_refines to_bytes [] calls
