-- ===== src/Sequences/GoList.antt =====
-- collectionx/list/list.go: the type List, here GoList, a slice with its serialization cache. The
-- methods take and return the state. Where the code returns a value and a flag, the model returns
-- an option. Lengths are exact: a slice is too short for their sums to overflow.
pub mod Moves
pub mod Compact
pub mod Laws
mod Tests
use arcgo.Prelude.{
  ℕ, zero, suc, ◌+◌, ◌-◌, Bool, true, false, List, [], ◌∷◌, ◌++◌, Option, none, some, if◌then◌else◌,
  ltb, leb, nat_eqb, is_nil, length, get_or, get_elem?, set, take, drop, replicate,
}
use arcgo.Prelude.Cache.{JsonCache, no_cache, invalidated}
use arcgo.Prelude.Classes.{Zero}
use arcgo.Prelude.Int.{ℤ, pos, negsuc}

pub record GoList {ℓ} (T : Type ℓ) : Type ℓ where
  pub items : List T
  pub json : JsonCache

module _ {ℓ} {T : Type ℓ} where
  -- `copy(dst, src)`: as many items as both hold, all of them read before any is written.
  pub overlay : List T → List T → List T
  overlay [] src = []
  overlay (d ∷ dst) [] = d ∷ dst
  overlay (d ∷ dst) (s ∷ src) = s ∷ overlay dst src

  -- `copy(items[index:], src)`, within the slice.
  pub copy_at : List T → ℕ → List T → List T
  copy_at items index src = take index items ++ overlay (drop index items) src

  -- The state after a change of the items, with `invalidateSerializationCache`.
  abbrev pub changed : List T → GoList T
  changed items = record { items = items; json = invalidated }

  pub item_count : GoList T → ℕ
  item_count l = length l.items

  pub is_empty : GoList T → Bool
  is_empty l = nat_eqb (item_count l) 0

  pub clear : GoList T → GoList T
  clear l = record { items = []; json = no_cache }

  pub add : GoList T → List T → GoList T
  add l items = if is_nil items then l else changed (l.items ++ items)

  pub new_list : List T → GoList T
  new_list items = add (record { items = []; json = no_cache }) items

  pub merge : GoList T → GoList T → GoList T
  merge l other = if is_nil other.items then l else changed (l.items ++ other.items)

  pub add_all_at : GoList T → ℤ → List T → Bool × GoList T
  add_all_at l (pos index) items =
      let grown = l.items ++ items in
      let moved =
        copy_at grown (index + length items)
          (drop index (take (length grown - length items) grown)) in
      if ltb (length l.items) index
      then (false, l)
      else if is_nil items
      then (true, l)
      else (true, changed (copy_at moved index items))
  add_all_at l (negsuc index) items = (false, l)

  pub add_at : GoList T → ℤ → T → Bool × GoList T
  add_at l index item = add_all_at l index (item ∷ [])

  pub get : GoList T → ℤ → Option T
  get l (pos index) = if leb (length l.items) index then none else get_elem? l.items index
  get l (negsuc index) = none

  pub set_item : GoList T → ℤ → T → Bool × GoList T
  set_item l (pos index) item =
      if leb (length l.items) index then (false, l) else (true, changed (set l.items index item))
  set_item l (negsuc index) item = (false, l)

  pub set_all_loop : (ℕ → T → T) → ℕ → List T → List T
  set_all_loop mapper index [] = []
  set_all_loop mapper index (item ∷ rest) = mapper index item ∷ set_all_loop mapper (suc index) rest

  pub set_all_indexed : GoList T → (ℕ → T → T) → ℕ × GoList T
  set_all_indexed l mapper =
      if is_nil l.items then (0, l) else (length l.items, changed (set_all_loop mapper 0 l.items))

  pub clone : GoList T → GoList T
  clone l = new_list l.items

module _ {ℓ} {T : Type ℓ} ⦃z : Zero T⦄ where
  pub remove_at : GoList T → ℤ → Option T × GoList T
  remove_at l (pos index) =
      let n = length l.items in
      let moved = copy_at l.items index (drop (suc index) l.items) in
      if leb n index then (none, l) else (
        some (get_or l.items index z.zero_value),
        changed (take (n - 1) (set moved (n - 1) z.zero_value)),
      )
  remove_at l (negsuc index) = (none, l)

  -- The loop of `RemoveIf`: it reads at `read`, and keeps what the predicate refuses at `write`.
  pub compact_loop : (T → Bool) → List T → ℕ → ℕ → ℕ → List T × ℕ
  compact_loop predicate items read write zero = (items, write)
  compact_loop predicate items read write (suc n) =
      let item = get_or items read z.zero_value in
      let skipped = compact_loop predicate items (suc read) write n in
      let kept = compact_loop predicate (set items write item) (suc read) (suc write) n in
      if predicate item then skipped else kept

  -- `for index := writeIndex; index < len(items); index++ { items[index] = zero }`
  pub zero_loop : List T → ℕ → ℕ → List T
  zero_loop items index zero = items
  zero_loop items index (suc n) = zero_loop (set items index z.zero_value) (suc index) n

  pub remove_if : GoList T → (T → Bool) → ℕ × GoList T
  remove_if l predicate =
      let n = length l.items in
      let (items, write) = compact_loop predicate l.items 0 0 n in
      if is_nil l.items
      then (0, l)
      else if nat_eqb (n - write) 0
      then (0, record l { items = items })
      else (n - write, changed (take write (zero_loop items write (n - write))))
