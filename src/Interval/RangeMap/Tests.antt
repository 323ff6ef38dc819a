-- ===== src/Interval/RangeMap/Tests.antt =====
-- collectionx/interval/range_map.go on concrete maps of numbers.
use arcgo.Prelude.{ℕ, ◌≡◌, refl, ◌&&◌, [], ◌∷◌, some, none, if◌then◌else◌}
use arcgo.Prelude.Classes.{nat_ordered, ◌<?◌}
use arcgo.Interval.Range
use arcgo.Interval.Range.{Range}
use arcgo.Interval.Search.{search_first, sort_search, sort_search_loop}
use arcgo.Interval.RangeMap
use arcgo.Interval.RangeMap.{RangeEntry, RangeMap, new_range_map, put, get, delete_range}
use arcgo.Interval.RangeMap.Spec.{IsNormal}
use arcgo.Interval.RangeMap.Report.{meets}
use arcgo.Interval.RangeMap.Methods.{put_lem, delete_range_lem}

abbrev holds : ℕ → ℕ → ℕ → RangeEntry ℕ ℕ
holds a b v = record { range = record { start = a; end = b }; value = v }

abbrev sample : RangeMap ℕ ℕ
sample = record (new_range_map) { entries = holds 1 4 10 ∷ holds 4 9 20 ∷ [] }

sample-IsNormal : IsNormal sample.entries
sample-IsNormal = (refl, refl, (refl, tt, tt))

-- Put splits the entries at both ends.
put_over :
    RangeMap.put_range_entry sample.entries (holds 3 6 30)
    ≡ holds 1 3 10 ∷ holds 3 6 30 ∷ holds 6 9 20 ∷ []
unfolding RangeMap.put_range_entry RangeMap.put_range_entry_at RangeMap.build_put_range_entries
    RangeMap.split_left_range_entry RangeMap.split_right_range_entry RangeMap.split_right_loop
    RangeMap.splice_range_entries RangeMap.find_first_range_entry_ending_after search_first
    sort_search sort_search_loop
put_over = refl

put_lem_example :
    ((put sample 3 6 30).1 ≡ (◌<?◌ {T = ℕ} 3 6))
    × IsNormal (put sample 3 6 30).0.entries
    × (get (put sample 3 6 30).0 5 ≡ (
        if Range.contains {T = ℕ} (record { start = 3; end = 6 }) 5 then some 30 else get sample 5))
put_lem_example = put_lem sample 3 6 sample-IsNormal 30 5

delete_range_lem_example :
    ((delete_range sample 3 6).1
      ≡ (◌<?◌ {T = ℕ} 3 6 && meets (record { start = 3; end = 6 }) sample.entries))
    × IsNormal (delete_range sample 3 6).0.entries
    × (get (delete_range sample 3 6).0 7
        ≡ (if Range.contains {T = ℕ} (record { start = 3; end = 6 }) 7 then none else get sample 7))
delete_range_lem_example = delete_range_lem sample 3 6 sample-IsNormal 7
