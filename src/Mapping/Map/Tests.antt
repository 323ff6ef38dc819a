-- ===== src/Mapping/Map/Tests.antt =====
-- collectionx/mapping/map.go on a concrete map of numbers.
use arcgo.Prelude.{ℕ, ◌≡◌, refl, Bool, not, ltb, [], ◌∷◌}
use arcgo.Prelude.Classes.{nat_comparable}
use arcgo.Mapping.GoMap.{IsMap, lookup}
use arcgo.Mapping.Map.{Map, new_map, get, where_entries, reject_entries}
use arcgo.Mapping.Map.Laws.{keep, where_or_reject}

abbrev two_keys : Map ℕ ℕ
two_keys = record new_map { items = (1, 10) ∷ (2, 20) ∷ [] }

two_keys-IsMap : IsMap two_keys.items
unfolding lookup
two_keys-IsMap = (refl, (refl, tt))

abbrev small : ℕ → ℕ → Bool
small k v = ltb v 15

where_or_reject_example :
    (get (where_entries small two_keys) 1 ≡ keep small 1 (get two_keys 1))
    × (get (reject_entries small two_keys) 1 ≡ keep (λ k v. not (small k v)) 1 (get two_keys 1))
where_or_reject_example = where_or_reject small two_keys 1 two_keys-IsMap
