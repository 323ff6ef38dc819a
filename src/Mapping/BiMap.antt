-- ===== src/Mapping/BiMap.antt =====
-- collectionx/mapping/bimap.go: a one-to-one map, as a map and its inverse. The methods take and
-- return the state. Where the code returns a value and a flag, the model returns an option.
pub mod Laws
mod Tests
use arcgo.Prelude.{
  ℕ, Bool, true, false, List, [], Option, none, some, if◌then◌else◌, is_some, nat_eqb,
}
use arcgo.Prelude.Classes.{Comparable}
use arcgo.Mapping.Map
use arcgo.Mapping.Map.{Map, new_map}

pub record BiMap {ℓ κ} (K : Type ℓ) (V : Type κ) : Type (ℓ ⊔ κ) where
  pub kv : Map K V
  pub vk : Map V K

module _ {ℓ κ} {K : Type ℓ} {V : Type κ} where
  abbrev pub new_bi_map : BiMap K V
  new_bi_map = record { kv = new_map; vk = new_map }

  pub len : BiMap K V → ℕ
  len m = Map.len m.kv

  pub is_empty : BiMap K V → Bool
  is_empty m = nat_eqb (len m) 0

  pub clear : BiMap K V → BiMap K V
  clear m = record { kv = Map.clear m.kv; vk = Map.clear m.vk }

  pub keys : BiMap K V → List K
  keys m = if nat_eqb (Map.len m.kv) 0 then [] else Map.keys m.kv

  pub all : BiMap K V → List (K × V)
  all m = if nat_eqb (Map.len m.kv) 0 then [] else Map.all m.kv

  pub inverse : BiMap K V → List (V × K)
  inverse m = if nat_eqb (Map.len m.vk) 0 then [] else Map.all m.vk

-- `if old, ok := inverse.Get(...); ok { m.Delete(old) }`
pub forget {ℓ κ} : {K : Type ℓ} {V : Type κ} ⦃c : Comparable K⦄ → Map K V → Option K → Map K V
forget m none = m
forget m (some old) = (Map.delete m old).0

module _ {ℓ κ} {K : Type ℓ} {V : Type κ} ⦃c : Comparable K⦄ ⦃d : Comparable V⦄ where
  pub put : BiMap K V → K → V → BiMap K V
  put m key value =
      let vk = forget m.vk (Map.get m.kv key) in
      let kv = forget m.kv (Map.get vk value) in
      record { kv = Map.set kv key value; vk = Map.set vk value key }

  pub get_by_key : BiMap K V → K → Option V
  get_by_key m key = Map.get m.kv key

  pub get_by_value : BiMap K V → V → Option K
  get_by_value m value = Map.get m.vk value

  pub delete_by_key : BiMap K V → K → BiMap K V × Bool
  delete_by_key m key = elim (Map.get m.kv key) [
    | none ↦ (m, false)
    | some value ↦ (record { kv = (Map.delete m.kv key).0; vk = (Map.delete m.vk value).0 }, true)
  ]

  pub delete_by_value : BiMap K V → V → BiMap K V × Bool
  delete_by_value m value = elim (Map.get m.vk value) [
    | none ↦ (m, false)
    | some key ↦ (record { kv = (Map.delete m.kv key).0; vk = (Map.delete m.vk value).0 }, true)
  ]

  pub contains_key : BiMap K V → K → Bool
  contains_key m key = is_some (get_by_key m key)

  pub contains_value : BiMap K V → V → Bool
  contains_value m value = is_some (get_by_value m value)
