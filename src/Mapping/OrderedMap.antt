-- ===== src/Mapping/OrderedMap.antt =====
-- collectionx/mapping/ordered_map.go: a map that keeps its keys in insertion order, with the index
-- of each key. The methods take and return the state. Where the code returns a value and a flag,
-- the model returns an option. The order is the slice within a collectionx/list List, whose own
-- serialization cache is left out.
pub mod Spec
pub mod Laws
pub mod Methods
pub mod Reads
pub mod Run
pub mod Copies
pub mod Slices
mod Tests
use arcgo.Prelude.{
  ℕ, zero, suc, ◌+◌, ◌-◌, ◌≤◌, Bool, true, false, not, List, [], ◌∷◌, ◌++◌, Option, none, some,
  if◌then◌else◌, is_some, is_nil, nat_eqb, leb, length, get_elem?, take, drop, ◌&&◌, ◌||◌,
}
use arcgo.Prelude.Cache.{JsonCache, no_cache, invalidated}
use arcgo.Prelude.Classes.{Comparable}
use arcgo.Prelude.Int.{ℤ, pos, negsuc}
use arcgo.Mapping.Map
use arcgo.Mapping.Map.{Map, new_map}

pub record OrderedMap {ℓ κ} (K : Type ℓ) (V : Type κ) : Type (ℓ ⊔ κ) where
  pub order : List K
  pub items : Map K V
  pub index : Map K ℕ
  pub values_cache : List V
  pub values_dirty : Bool
  pub json : JsonCache

module _ {ℓ} {K : Type ℓ} where
  -- `list.RemoveAt(i)` on the slice of the order
  pub remove_at : List K → ℕ → List K
  remove_at order i = if leb (length order) i then order else take i order ++ drop (suc i) order

module _ {ℓ} {K : Type ℓ} ⦃c : Comparable K⦄ where
  -- `for i := pos; i < m.order.Len(); i++ { nextKey, _ := m.order.Get(i); m.index.Set(nextKey, i) }`
  -- over the keys from `pos` on.
  pub reindex_loop : Map K ℕ → List K → ℕ → Map K ℕ
  reindex_loop index [] i = index
  reindex_loop index (next_key ∷ rest) i = reindex_loop (Map.set index next_key i) rest (suc i)

module _ {ℓ κ} {K : Type ℓ} {V : Type κ} where
  abbrev pub new_ordered_map : OrderedMap K V
  new_ordered_map = record {
    order = [];
    items = new_map;
    index = new_map;
    values_cache = [];
    values_dirty = false;
    json = no_cache;
  }

  -- `invalidateValuesCache` and `invalidateSerializationCache`
  abbrev pub invalidate_caches : OrderedMap K V → OrderedMap K V
  invalidate_caches m = record m { values_cache = []; values_dirty = true; json = invalidated }

  pub len : OrderedMap K V → ℕ
  len m = length m.order

  pub is_empty : OrderedMap K V → Bool
  is_empty m = nat_eqb (len m) 0

  pub clear : OrderedMap K V → OrderedMap K V
  clear m = record {
    order = [];
    items = Map.clear m.items;
    index = Map.clear m.index;
    values_cache = [];
    values_dirty = false;
    json = no_cache;
  }

  pub keys : OrderedMap K V → List K
  keys m = m.order

module _ {ℓ κ} {K : Type ℓ} {V : Type κ} ⦃c : Comparable K⦄ where
  pub get : OrderedMap K V → K → Option V
  get m key = Map.get m.items key

  pub set : OrderedMap K V → K → V → OrderedMap K V
  set m key value =
      let added : OrderedMap K V = record m {
        order = m.order ++ key ∷ [];
        index = Map.set m.index key (length (m.order ++ key ∷ []) - 1);
      } in
      let m' = if is_some (Map.get m.items key) then m else added in
      invalidate_caches (record m' { items = Map.set m'.items key value })

  pub delete : OrderedMap K V → K → OrderedMap K V × Bool
  delete m key = elim (Map.get m.index key) [
    | none ↦ (m, false)
    | some position ↦
        let order = remove_at m.order position in
        let index = (Map.delete m.index key).0 in
        (
          invalidate_caches (record m {
            order = order;
            items = (Map.delete m.items key).0;
            index = reindex_loop index (drop position order) position;
          }),
          true,
        )
  ]

module _ {ℓ κ} {K : Type ℓ} {V : Type κ} ⦃c : Comparable K⦄ where
  -- `Clone` copies the order, the items and the indices, and no cache.
  pub clone : OrderedMap K V → OrderedMap K V
  clone m = record {
    order = m.order;
    items = Map.set_all new_map (Map.all m.items);
    index = Map.set_all new_map (Map.all m.index);
    values_cache = [];
    values_dirty = false;
    json = no_cache;
  }

abbrev pub or_zero {κ} : {V : Type κ} → V → Option V → V
or_zero zero_value none = zero_value
or_zero zero_value (some v) = v

module _ {ℓ κ} {K : Type ℓ} {V : Type κ} ⦃c : Comparable K⦄ (zero_value : V) where
  -- `value, _ := m.items.Get(key)`
  abbrev pub value_or_zero : OrderedMap K V → K → V
  value_or_zero m key = or_zero zero_value (Map.get m.items key)

  pub at : OrderedMap K V → ℤ → Option (K × V)
  at m (pos i) = elim (get_elem? m.order i) [
    | none ↦ none
    | some key ↦ some (key, value_or_zero m key)
  ]
  at m (negsuc i) = none

  pub values_loop : OrderedMap K V → List K → List V
  values_loop m [] = []
  values_loop m (key ∷ rest_keys) = value_or_zero m key ∷ values_loop m rest_keys

  pub values : OrderedMap K V → List V × OrderedMap K V
  values m =
      let vs = values_loop m m.order in
      if is_nil m.order
      then ([], m)
      else if not m.values_dirty && not (is_nil m.values_cache)
      then (m.values_cache, m)
      else (vs, record m { values_cache = vs; values_dirty = false })

  -- `Range`: the entries handed to `fn`, up to the first that it refuses.
  pub range_loop : OrderedMap K V → (K → V → Bool) → List K → List (K × V)
  range_loop m fn [] = []
  range_loop m fn (key ∷ rest_keys) =
      let rest = range_loop m fn rest_keys in
      let value = value_or_zero m key in (key, value) ∷ (if fn key value then rest else [])

  pub range : OrderedMap K V → (K → V → Bool) → List (K × V)
  range m fn = range_loop m fn m.order

  -- The loop of `WhereEntries`, through `Range`, over the keys.
  pub where_loop : OrderedMap K V → (K → V → Bool) → OrderedMap K V → List K → OrderedMap K V
  where_loop m predicate filtered [] = filtered
  where_loop m predicate filtered (key ∷ rest_keys) =
      let value = value_or_zero m key in
      where_loop m predicate (if predicate key value then set filtered key value else filtered)
        rest_keys

  pub where_entries : OrderedMap K V → (K → V → Bool) → OrderedMap K V
  where_entries m predicate =
      if is_nil m.order then new_ordered_map else where_loop m predicate new_ordered_map m.order

  -- The loop of `RejectEntries`.
  pub reject_loop : OrderedMap K V → (K → V → Bool) → OrderedMap K V → List K → OrderedMap K V
  reject_loop m predicate rejected [] = rejected
  reject_loop m predicate rejected (key ∷ rest_keys) =
      let value = value_or_zero m key in
      reject_loop m predicate
        (if not (predicate key value) then set rejected key value else rejected) rest_keys

  pub reject_entries : OrderedMap K V → (K → V → Bool) → OrderedMap K V
  reject_entries m predicate =
      if is_nil m.order then new_ordered_map else reject_loop m predicate new_ordered_map m.order

  -- `for i := ...; i < ...; i++ { key, value, _ := m.At(i); out.Set(key, value) }` over the keys
  -- at these indices.
  pub copy_loop : OrderedMap K V → OrderedMap K V → List K → OrderedMap K V
  copy_loop m out [] = out
  copy_loop m out (key ∷ rest_keys) = copy_loop m (set out key (value_or_zero m key)) rest_keys

  pub take_first : OrderedMap K V → ℤ → OrderedMap K V
  take_first m (pos n) =
      if leb n 0 || is_nil m.order
      then new_ordered_map
      else if leb (length m.order) n
      then clone m
      else copy_loop m new_ordered_map (take n m.order)
  take_first m (negsuc n) = new_ordered_map

  pub drop_first : OrderedMap K V → ℤ → OrderedMap K V
  drop_first m (pos n) =
      if is_nil m.order
      then new_ordered_map
      else if leb n 0
      then clone m
      else if leb (length m.order) n
      then new_ordered_map
      else copy_loop m new_ordered_map (drop n m.order)
  drop_first m (negsuc n) = if is_nil m.order then new_ordered_map else clone m

  pub first_loop : OrderedMap K V → (K → V → Bool) → List K → Option (K × V)
  first_loop m predicate [] = none
  first_loop m predicate (key ∷ rest_keys) =
      let value = value_or_zero m key in
      let rest = first_loop m predicate rest_keys in
      if predicate key value then some (key, value) else rest

  pub first_entry_where : OrderedMap K V → (K → V → Bool) → Option (K × V)
  first_entry_where m predicate = if is_nil m.order then none else first_loop m predicate m.order

  pub any_entry_match : OrderedMap K V → (K → V → Bool) → Bool
  any_entry_match m predicate = is_some (first_entry_where m predicate)
