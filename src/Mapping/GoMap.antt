-- ===== src/Mapping/GoMap.antt =====
-- Go's built-in map, which collectionx/mapping wraps: its entries, in the order in which a `range`
-- loop meets them. Go leaves that order open; what is proved does not depend on it.
use arcgo.Prelude.{
  ◌≡◌, refl, sym, ap, ◌∙◌, false, List, [], ◌∷◌, Option, none, some, arith, if◌then◌else◌, is_some,
  Bool-cases, inl, inr,
}
use arcgo.Prelude.Classes.{Comparable}

module _ {ℓ} {K : Type ℓ} ⦃c : Comparable K⦄ where
  pub same_comm : (j k : K) → c.same j k ≡ c.same k j
  same_comm j k = elim (Bool-cases (c.same j k)) [
    | inl h ↦ elim (Bool-cases (c.same k j)) [
      | inl g ↦ h ∙ sym g
      | inr g ↦ let e = c.same_sound j k h in h ∙ sym (c.same_refl k) ∙ ap (c.same k) (sym e)
    ]
    | inr h ↦ elim (Bool-cases (c.same k j)) [
      | inl g ↦ let e = c.same_sound k j g in ap (c.same j) e ∙ c.same_refl j ∙ sym g
      | inr g ↦ h ∙ sym g
    ]
  ]

module _ {ℓ κ} {K : Type ℓ} {V : Type κ} where
  unfoldable pub keys_of : List (K × V) → List K
  keys_of [] = []
  keys_of ((k, v) ∷ m) = k ∷ keys_of m

module _ {ℓ κ} {K : Type ℓ} {V : Type κ} ⦃c : Comparable K⦄ where
  -- `v, ok := m[key]`
  unfoldable pub lookup : List (K × V) → K → Option V
  lookup [] key = none
  lookup ((k, v) ∷ m) key = let rest = lookup m key in if c.same k key then some v else rest

  -- `m[key] = value`
  unfoldable pub store : List (K × V) → K → V → List (K × V)
  store [] key value = (key, value) ∷ []
  store ((k, v) ∷ m) key value =
      let rest = store m key value in if c.same k key then (key, value) ∷ m else (k, v) ∷ rest

  -- `delete(m, key)`
  unfoldable pub erase : List (K × V) → K → List (K × V)
  erase [] key = []
  erase ((k, v) ∷ m) key = let rest = erase m key in if c.same k key then rest else (k, v) ∷ rest

  -- `maps.Copy(dst, src)`
  unfoldable pub copy_into : List (K × V) → List (K × V) → List (K × V)
  copy_into dst [] = dst
  copy_into dst ((k, v) ∷ src) = copy_into (store dst k v) src

  -- No key stands twice.
  abbrev pub IsMap : List (K × V) → Type 0
  IsMap [] = Unit
  IsMap ((k, v) ∷ m) = (is_some (lookup m k) ≡ false) × IsMap m

  pub lookup-store :
      (m : List (K × V)) (k : K) (v : V) (x : K)
      → lookup (store m k v) x ≡ (if c.same k x then some v else lookup m x)
  unfolding lookup store
  lookup-store [] k v x = refl
  lookup-store ((j, w) ∷ m) k v x =
      grind (arith, lookup-store m k v x, c.same_sound j k, c.same_sound j x, c.same_refl)

  pub lookup-erase :
      (m : List (K × V)) (k x : K)
      → lookup (erase m k) x ≡ (if c.same k x then none else lookup m x)
  unfolding lookup erase
  lookup-erase [] k x = ground arith
  lookup-erase ((j, w) ∷ m) k x =
      grind (
        arith,
        lookup-erase m k x,
        c.same_sound j k,
        c.same_sound j x,
        c.same_sound k x,
        c.same_refl,
      )

  pub store-IsMap : (m : List (K × V)) (k : K) (v : V) → IsMap m → IsMap (store m k v)
  unfolding store lookup
  store-IsMap [] k v h = (refl, tt)
  store-IsMap ((j, w) ∷ m) k v h = elim (Bool-cases (c.same j k)) [
    | inl e ↦ rw (e, sym (c.same_sound j k e)) h
    | inr e ↦ rw e (grind (arith, lookup-store m k v j, same_comm j k, h.0), store-IsMap m k v h.1)
  ]

  pub erase-IsMap : (m : List (K × V)) (k : K) → IsMap m → IsMap (erase m k)
  unfolding erase lookup
  erase-IsMap [] k h = tt
  erase-IsMap ((j, w) ∷ m) k h = elim (Bool-cases (c.same j k)) [
    | inl e ↦ rw e (erase-IsMap m k h.1)
    | inr e ↦ rw e (grind (arith, lookup-erase m k j, h.0), erase-IsMap m k h.1)
  ]

  pub copy_into-IsMap : (dst src : List (K × V)) → IsMap dst → IsMap (copy_into dst src)
  unfolding copy_into
  copy_into-IsMap dst [] h = h
  copy_into-IsMap dst ((k, v) ∷ src) h = copy_into-IsMap (store dst k v) src (store-IsMap dst k v h)

  pub lookup-copy_into :
      (dst src : List (K × V)) (x : K)
      → IsMap src
      → lookup (copy_into dst src) x
        ≡ (if is_some (lookup src x) then lookup src x else lookup dst x)
  unfolding copy_into lookup
  lookup-copy_into dst [] x h = refl
  lookup-copy_into dst ((k, v) ∷ src) x h = grind (
    arith,
    lookup-copy_into (store dst k v) src x h.1,
    lookup-store dst k v x,
    c.same_sound k x,
    h.0,
  )
