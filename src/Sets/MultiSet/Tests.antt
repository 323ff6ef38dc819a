-- ===== src/Sets/MultiSet/Tests.antt =====
-- collectionx/set/multiset.go on a concrete bag of numbers.
use arcgo.Prelude.{ℕ, ◌-◌, ◌≡◌, refl, [], ◌∷◌, if◌then◌else◌, length, arith}
use Prim.Native.Nat.{min}
use arcgo.Prelude.Classes.{nat_comparable}
use arcgo.Prelude.Int.{pos, clamp}
use arcgo.Mapping.GoMap.{lookup}
use arcgo.Mapping.Map
use arcgo.Sets.MultiSet.{MultiSet, count, remove_n, elements, len}
use arcgo.Sets.MultiSet.Counts.{occurrences}
use arcgo.Sets.MultiSet.Laws.{IsCounted, remove_n_lem, elements_lem}

-- 7 twice and 8 once.
abbrev bag : MultiSet ℕ
bag = record { counts = record Map.new_map { items = (7, 2) ∷ (8, 1) ∷ [] }; size = 3 }

bag-IsCounted : IsCounted bag
unfolding lookup
bag-IsCounted = record { valid = (refl, (refl, tt)); positive = omega arith; sized = refl }

remove_n_example :
    ((remove_n bag 7 (pos 5)).0 ≡ min (clamp (pos 5)) (count bag 7))
    × IsCounted (remove_n bag 7 (pos 5)).1
    × ((y : ℕ)
        → count (remove_n bag 7 (pos 5)).1 y
          ≡ count bag y - (if nat_comparable.same 7 y then clamp (pos 5) else 0))
remove_n_example = remove_n_lem bag 7 (pos 5) bag-IsCounted

elements_example : (length (elements bag) ≡ len bag) × (occurrences 7 (elements bag) ≡ count bag 7)
elements_example = elements_lem bag 7 bag-IsCounted
