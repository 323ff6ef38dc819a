-- ===== src/Mapping/Map.antt =====
-- collectionx/mapping/map.go: a map with its serialization cache. The methods take and return the
-- state. Where the code returns a value and a flag, the model returns an option.
pub mod Json
pub mod Laws
mod Tests
use arcgo.Prelude.{
  ℕ, Bool, true, false, not, List, [], ◌∷◌, Option, none, some, if◌then◌else◌, length, is_nil,
  is_some, nat_eqb,
}
use arcgo.Prelude.Cache.{JsonCache, no_cache, invalidated}
use arcgo.Prelude.Classes.{Comparable}
use arcgo.Mapping.GoMap.{lookup, store, erase, copy_into, keys_of}

pub record Map {ℓ κ} (K : Type ℓ) (V : Type κ) : Type (ℓ ⊔ κ) where
  pub items : List (K × V)
  pub json : JsonCache

module _ {ℓ κ} {K : Type ℓ} {V : Type κ} where
  abbrev pub new_map : Map K V
  new_map = record { items = []; json = no_cache }

  abbrev pub invalidate_serialization_cache : Map K V → Map K V
  invalidate_serialization_cache m = record m { json = invalidated }

  unfoldable pub len : Map K V → ℕ
  len m = length m.items

  unfoldable pub is_empty : Map K V → Bool
  is_empty m = nat_eqb (len m) 0

  unfoldable pub clear : Map K V → Map K V
  clear m = record { items = []; json = no_cache }

  unfoldable pub keys : Map K V → List K
  keys m = if is_nil m.items then [] else keys_of m.items

  -- `All`, a copy of the built-in map; `Clone` wraps it.
  unfoldable pub all : Map K V → List (K × V)
  all m = m.items

  -- `Range`: the entries handed to `fn`, up to the first that it refuses.
  unfoldable pub range_loop : (K → V → Bool) → List (K × V) → List (K × V)
  range_loop fn [] = []
  range_loop fn ((k, v) ∷ m) = let rest = range_loop fn m in (k, v) ∷ (if fn k v then rest else [])

  unfoldable pub range : (K → V → Bool) → Map K V → List (K × V)
  range fn m = range_loop fn m.items

  -- `FirstEntryWhere`, by the loop of `Range`.
  unfoldable pub first_loop : (K → V → Bool) → List (K × V) → Option (K × V)
  first_loop predicate [] = none
  first_loop predicate ((k, v) ∷ m) =
      let rest = first_loop predicate m in if predicate k v then some (k, v) else rest

  unfoldable pub first_entry_where : (K → V → Bool) → Map K V → Option (K × V)
  first_entry_where predicate m = if is_nil m.items then none else first_loop predicate m.items

  unfoldable pub any_entry_match : (K → V → Bool) → Map K V → Bool
  any_entry_match predicate m = is_some (first_entry_where predicate m)

  unfoldable pub match_loop : (K → V → Bool) → List (K × V) → Bool
  match_loop predicate [] = true
  match_loop predicate ((k, v) ∷ m) =
      let rest = match_loop predicate m in if predicate k v then rest else false

  unfoldable pub all_entry_match : (K → V → Bool) → Map K V → Bool
  all_entry_match predicate m = if is_nil m.items then false else match_loop predicate m.items

module _ {ℓ κ} {K : Type ℓ} {V : Type κ} ⦃c : Comparable K⦄ where
  unfoldable pub set : Map K V → K → V → Map K V
  set m key value = invalidate_serialization_cache (record m { items = store m.items key value })

  unfoldable pub set_all : Map K V → List (K × V) → Map K V
  set_all m source =
      if is_nil source
      then m
      else invalidate_serialization_cache (record m { items = copy_into m.items source })

  pub new_map_from : List (K × V) → Map K V
  new_map_from source = set_all new_map source

  unfoldable pub get : Map K V → K → Option V
  get m key = lookup m.items key

  unfoldable pub get_or_default : Map K V → K → V → V
  get_or_default m key fallback = elim (get m key) [ none ↦ fallback | some v ↦ v ]

  unfoldable pub delete : Map K V → K → Map K V × Bool
  delete m key =
      let existed = is_some (lookup m.items key) in
      if existed
      then (invalidate_serialization_cache (record m { items = erase m.items key }), existed)
      else (m, existed)

  pub clone : Map K V → Map K V
  clone m =
      if is_nil m.items then new_map else record { items = copy_into [] m.items; json = no_cache }

  -- The loop of `WhereEntries`.
  pub where_loop : (K → V → Bool) → Map K V → List (K × V) → Map K V
  where_loop predicate filtered [] = filtered
  where_loop predicate filtered ((k, v) ∷ m) =
      where_loop predicate (if predicate k v then set filtered k v else filtered) m

  pub where_entries : (K → V → Bool) → Map K V → Map K V
  where_entries predicate m =
      if is_nil m.items then new_map else where_loop predicate new_map m.items

  -- `RejectEntries` runs the same loop with the test turned round.
  pub reject_loop : (K → V → Bool) → Map K V → List (K × V) → Map K V
  reject_loop predicate rejected [] = rejected
  reject_loop predicate rejected ((k, v) ∷ m) =
      reject_loop predicate (if not (predicate k v) then set rejected k v else rejected) m

  pub reject_entries : (K → V → Bool) → Map K V → Map K V
  reject_entries predicate m =
      if is_nil m.items then new_map else reject_loop predicate new_map m.items
