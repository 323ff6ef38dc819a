-- ===== src/Mapping/OrderedMap/Laws.antt =====
-- collectionx/mapping/ordered_map.go: a valid map behaves as the list of its entries in insertion
-- order.
use mathlib.Core.Path.{ap₂}
use arcgo.Prelude.{
  ◌≡◌, refl, sym, ap, ◌∙◌, true, false, List, [], ◌∷◌, ◌++◌, Option, none, some, if◌then◌else◌,
  is_some, is_some→some, arith, Bool-cases, Option-cases, inl, inr,
}
use arcgo.Prelude.Classes.{Comparable}
use arcgo.Mapping.GoMap.{IsMap, lookup, store, erase}
use arcgo.Mapping.Map
use arcgo.Mapping.Map.{Map, new_map}
use arcgo.Mapping.OrderedMap.{OrderedMap}
use arcgo.Mapping.OrderedMap.Spec.{has, position_from, Distinct}

module _ {ℓ κ} {K : Type ℓ} {V : Type κ} where
  abbrev pub cons_some : K → Option V → List (K × V) → List (K × V)
  cons_some k none rest = rest
  cons_some k (some v) rest = (k, v) ∷ rest

  -- The keys with their values; a key without one is passed over.
  abbrev pub pairs : (K → Option V) → List K → List (K × V)
  pairs f [] = []
  pairs f (k ∷ ks) = cons_some k (f k) (pairs f ks)

module _ {ℓ κ} {K : Type ℓ} {V : Type κ} ⦃c : Comparable K⦄ where
  -- The keys in the order all differ and are those with a value, and each has its index.
  pub record IsIndexed (m : OrderedMap K V) : Type ℓ where
    pub items_valid : IsMap m.items.items
    pub index_valid : IsMap m.index.items
    pub distinct : Distinct m.order
    pub stored : (k : K) → is_some (Map.get m.items k) ≡ has m.order k
    pub indexed : (k : K) → Map.get m.index k ≡ position_from 0 m.order k

  -- The entries in insertion order.
  abbrev pub entries : OrderedMap K V → List (K × V)
  entries m = pairs (Map.get m.items) m.order

  pub pairs_congr :
      (f g : K → Option V) (ks : List K)
      → ((x : K) → has ks x ≡ true → f x ≡ g x)
      → pairs f ks ≡ pairs g ks
  pairs_congr f g [] h = refl
  pairs_congr f g (k ∷ ks) h =
      ap₂ (cons_some k) (h k (ground (arith, c.same_refl k)))
        (pairs_congr f g ks (λ x e. h x (ground (arith, e))))

  -- Entries of other keys stay where they are.
  passes :
      (j : K) (o : Option V) (rest : List (K × V)) (k : K)
      → c.same j k ≡ false
      → ((v : V) → store (cons_some j o rest) k v ≡ cons_some j o (store rest k v))
        × (erase (cons_some j o rest) k ≡ cons_some j o (erase rest k))
        × (lookup (cons_some j o rest) k ≡ lookup rest k)
  unfolding store erase lookup
  passes j none rest k h = (λ v. refl, refl, refl)
  passes j (some w) rest k h = (λ v. rw h refl, rw h refl, rw h refl)

  -- A value for a key that is there goes into its place.
  pub pairs-update :
      (f g : K → Option V) (ks : List K) (k : K) (v : V)
      → Distinct ks
      → has ks k ≡ true
      → ((x : K) → has ks x ≡ true → is_some (f x) ≡ true)
      → ((x : K) → g x ≡ (if c.same k x then some v else f x))
      → pairs g ks ≡ store (pairs f ks) k v
  unfolding store
  pairs-update f g [] k v d h s e = cc
  pairs-update f g (j ∷ ks) k v d h s e = elim (Bool-cases (c.same j k)) [
    | inl q ↦
        let j_k = c.same_sound j k q in
        let now : g j ≡ some v = grind (arith, e j, c.same_refl k, j_k) in
        let (w, old) = is_some→some (f j) (s j (ground (arith, c.same_refl j))) in
        let tail : pairs g ks ≡ pairs f ks =
          pairs_congr g f ks (λ x p. grind (arith, e x, c.same_sound k x, j_k, d.0, p)) in
        rw (now, old, q, tail) (ap (λ i. (i, v) ∷ pairs f ks) j_k)
    | inr q ↦
        let now : g j ≡ f j = grind (arith, e j, c.same_sound k j, c.same_refl j, q) in
        ap₂ (cons_some j) now
          (pairs-update f g ks k v d.1 (ground (arith, h, q)) (λ x p. s x (ground (arith, p))) e)
        ∙ sym ((passes j (f j) (pairs f ks) k q).0 v)
  ]

  -- A value for a new key goes behind the others.
  pub pairs-append :
      (f g : K → Option V) (ks : List K) (k : K) (v : V)
      → has ks k ≡ false
      → ((x : K) → g x ≡ (if c.same k x then some v else f x))
      → pairs g (ks ++ k ∷ []) ≡ store (pairs f ks) k v
  unfolding store
  pairs-append f g [] k v h e = rw (e k, c.same_refl k) refl
  pairs-append f g (j ∷ ks) k v h e =
      let q : c.same j k ≡ false = ground (arith, h) in
      let now : g j ≡ f j = grind (arith, e j, c.same_sound k j, c.same_refl j, q) in
      ap₂ (cons_some j) now (pairs-append f g ks k v (ground (arith, h)) e)
      ∙ sym ((passes j (f j) (pairs f ks) k q).0 v)

  erased :
      (j : K) (o : Option V) (rest : List (K × V)) (k : K)
      → c.same j k ≡ true
      → erase (cons_some j o rest) k ≡ erase rest k
  unfolding erase
  erased j none rest k h = refl
  erased j (some w) rest k h = rw h refl

  -- Without its value, a key has no entry.
  pub pairs-erase :
      (f g : K → Option V) (ks : List K) (k : K)
      → ((x : K) → g x ≡ (if c.same k x then none else f x))
      → pairs g ks ≡ erase (pairs f ks) k
  unfolding erase
  pairs-erase f g [] k e = refl
  pairs-erase f g (j ∷ ks) k e = elim (Bool-cases (c.same j k)) [
    | inl q ↦
        let now : g j ≡ none = grind (arith, e j, c.same_sound j k q, c.same_refl k) in
        rw now (pairs-erase f g ks k e ∙ sym (erased j (f j) (pairs f ks) k q))
    | inr q ↦
        let now : g j ≡ f j = grind (arith, e j, c.same_sound k j, c.same_refl j, q) in
        ap₂ (cons_some j) now (pairs-erase f g ks k e) ∙ sym ((passes j (f j) (pairs f ks) k q).1)
  ]

  pub lookup-pairs :
      (f : K → Option V) (ks : List K) (x : K)
      → lookup (pairs f ks) x ≡ (if has ks x then f x else none)
  unfolding lookup
  lookup-pairs f [] x = refl
  lookup-pairs f (j ∷ ks) x = elim (Bool-cases (c.same j x)) [
    | inl q ↦ elim (Option-cases (f j)) [
      | inl o ↦ rw o (lookup-pairs f ks x ∙ grind (arith, o, c.same_sound j x q))
      | inr (w, o) ↦ rw (o, q) (sym o ∙ ap f (c.same_sound j x q))
    ]
    | inr q ↦ (passes j (f j) (pairs f ks) x q).2 ∙ lookup-pairs f ks x ∙ ground (arith, q)
  ]

  -- A key without a value has no entry, wherever it stands.
  pub pairs-drop :
      (f : K → Option V) (front : List K) (k : K) (back : List K)
      → f k ≡ none
      → pairs f (front ++ k ∷ back) ≡ pairs f (front ++ back)
  pairs-drop f [] k back h = rw h refl
  pairs-drop f (j ∷ front) k back h = ap (cons_some j (f j)) (pairs-drop f front k back h)
