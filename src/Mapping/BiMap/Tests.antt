-- ===== src/Mapping/BiMap/Tests.antt =====
-- collectionx/mapping/bimap.go on a concrete map of numbers.
use arcgo.Prelude.{ℕ, ◌≡◌, refl, none, some, if◌then◌else◌}
use arcgo.Prelude.Classes.{nat_comparable}
use arcgo.Mapping.GoMap.{lookup, store, erase}
use arcgo.Mapping.Map
use arcgo.Mapping.BiMap
use arcgo.Mapping.BiMap.{
  BiMap, new_bi_map, put, get_by_key, get_by_value, delete_by_key, delete_by_value,
}
use arcgo.Mapping.BiMap.Laws.{holds, IsOneToOne, new_bi_map-IsOneToOne, put_pair_lem}

-- 1 with 10, and 2 with 20.
abbrev two_pairs : BiMap ℕ ℕ
two_pairs = put (put new_bi_map 1 10) 2 20

two_pairs-IsOneToOne : IsOneToOne two_pairs
two_pairs-IsOneToOne =
    (put_pair_lem (put new_bi_map 1 10) 2 20
      (put_pair_lem new_bi_map 1 10 new_bi_map-IsOneToOne).0).0

-- Putting 1 with 20 drops both old pairs.
put_replaces :
    (get_by_key (put two_pairs 1 20) 1 ≡ some 20)
    × (get_by_key (put two_pairs 1 20) 2 ≡ none)
    × (get_by_value (put two_pairs 1 20) 10 ≡ none)
unfolding put get_by_key get_by_value Map.get lookup Map.set store BiMap.forget Map.delete erase
put_replaces = (refl, refl, refl)

put_pair_example :
    IsOneToOne (put two_pairs 1 20)
    × ((x : ℕ)
        → get_by_key (put two_pairs 1 20) x ≡ (
            if nat_comparable.same 1 x
            then some 20
            else if holds (get_by_key two_pairs x) 20
            then none
            else get_by_key two_pairs x))
put_pair_example = put_pair_lem two_pairs 1 20 two_pairs-IsOneToOne
