-- ===== src/Mapping/OrderedMap/Tests.antt =====
-- collectionx/mapping/ordered_map.go on concrete maps of numbers.
use arcgo.Prelude.{Bool, leb, ℕ, ◌≡◌, List, [], ◌∷◌}
use arcgo.Prelude.Classes.{nat_comparable}
use arcgo.Mapping.OrderedMap.{OrderedMap, new_ordered_map, set}
use arcgo.Mapping.OrderedMap.Laws.{IsIndexed}
use arcgo.Mapping.OrderedMap.Methods.{ordered_set_lem}
use arcgo.Mapping.OrderedMap.Run.{Op, run, replay, new-IsIndexed, ordered_map_refines}

-- 1, 2 and 3 with 10, 20 and 30.
abbrev three : OrderedMap ℕ ℕ
three = set (set (set new_ordered_map 1 10) 2 20) 3 30

three-IsIndexed : IsIndexed three
three-IsIndexed =
    (ordered_set_lem (set (set new_ordered_map 1 10) 2 20) 3 30
      (ordered_set_lem (set new_ordered_map 1 10) 2 20
        (ordered_set_lem new_ordered_map 1 10 new-IsIndexed).0).0).0

abbrev calls : List (Op ℕ ℕ)
calls =
    Op.set 1 10
    ∷ Op.set 2 20
    ∷ Op.set 3 30
    ∷ Op.set 2 21
    ∷ Op.delete 1
    ∷ Op.set 1 11
    ∷ Op.values
    ∷ Op.delete 2
    ∷ Op.get 3
    ∷ []

ordered_map_refines_example : run 0 calls new_ordered_map ≡ replay calls []
ordered_map_refines_example = ordered_map_refines 0 calls

abbrev at_least_20 : ℕ → ℕ → Bool
at_least_20 k v = leb 20 v
