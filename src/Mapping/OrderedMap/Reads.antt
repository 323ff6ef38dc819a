-- ===== src/Mapping/OrderedMap/Reads.antt =====
-- collectionx/mapping/ordered_map.go: the methods that read, on the list of entries in insertion
-- order, and the cache of values.
use arcgo.Prelude.{
  ℕ, zero, suc, ◌≡◌, refl, sym, ap, ◌∙◌, true, false, not, ◌&&◌, List, [], ◌∷◌, Option, none, some,
  is_some, is_some→some, is_some→none, is_nil, is_nil→nil, length, get_elem?, arith, Bool-cases,
  inl, inr,
}
use arcgo.Prelude.Classes.{Comparable}
use arcgo.Prelude.Int.{ℤ, pos, negsuc}
use arcgo.Mapping.GoMap.{lookup, keys_of}
use arcgo.Mapping.Map
use arcgo.Mapping.OrderedMap.{OrderedMap, or_zero, get, at, len, keys, values, values_loop}
use arcgo.Mapping.OrderedMap.Spec.{has}
use arcgo.Mapping.OrderedMap.Laws.{IsIndexed, entries, pairs, lookup-pairs}

module _ {ℓ κ} {K : Type ℓ} {V : Type κ} where
  abbrev pub values_of : List (K × V) → List V
  values_of [] = []
  values_of ((k, v) ∷ es) = v ∷ values_of es

  abbrev pub entry_at : List (K × V) → ℤ → Option (K × V)
  entry_at es (pos i) = get_elem? es i
  entry_at es (negsuc i) = none

module _ {ℓ κ} {K : Type ℓ} {V : Type κ} ⦃c : Comparable K⦄ where
  -- Each of the keys has a value.
  abbrev pub HasValues : (K → Option V) → List K → Type ℓ
  HasValues f ks = (x : K) → has ks x ≡ true → is_some (f x) ≡ true

  pub tail : (f : K → Option V) (k : K) (ks : List K) → HasValues f (k ∷ ks) → HasValues f ks
  tail f k ks h x p = h x (ground (arith, p))

  pub head :
      (f : K → Option V) (k : K) (ks : List K) → HasValues f (k ∷ ks) → (v : V) × (f k ≡ some v)
  head f k ks h = is_some→some (f k) (h k (ground (arith, c.same_refl k)))

  keys_of-pairs : (f : K → Option V) (ks : List K) → HasValues f ks → keys_of (pairs f ks) ≡ ks
  unfolding keys_of
  keys_of-pairs f [] h = refl
  keys_of-pairs f (k ∷ ks) h =
      let (v, e) = head f k ks h in rw e (ap (◌∷◌ k) (keys_of-pairs f ks (tail f k ks h)))

  pub length-pairs :
      (f : K → Option V) (ks : List K) → HasValues f ks → length (pairs f ks) ≡ length ks
  length-pairs f [] h = refl
  length-pairs f (k ∷ ks) h =
      let (v, e) = head f k ks h in rw e (ap suc (length-pairs f ks (tail f k ks h)))

  get_elem?-pairs :
      (z : V) (f : K → Option V) (ks : List K) (i : ℕ)
      → HasValues f ks
      → elim (get_elem? ks i) as (λ _. Option (K × V)) [
        | none ↦ none
        | some k ↦ some (k, or_zero z (f k))
      ]
        ≡ get_elem? (pairs f ks) i
  get_elem?-pairs z f [] i h = refl
  get_elem?-pairs z f (k ∷ ks) zero h = let (v, e) = head f k ks h in rw e refl
  get_elem?-pairs z f (k ∷ ks) (suc i) h =
      let (v, e) = head f k ks h in rw e (get_elem?-pairs z f ks i (tail f k ks h))

  at_lem :
      (z : V) (m : OrderedMap K V) (i : ℤ)
      → HasValues (Map.get m.items) m.order
      → at z m i ≡ entry_at (entries m) i
  unfolding at
  at_lem z m (pos i) h = get_elem?-pairs z (Map.get m.items) m.order i h
  at_lem z m (negsuc i) h = refl

  values_loop-pairs :
      (z : V) (m : OrderedMap K V) (ks : List K)
      → HasValues (Map.get m.items) ks
      → values_loop z m ks ≡ values_of (pairs (Map.get m.items) ks)
  unfolding values_loop
  values_loop-pairs z m [] h = refl
  values_loop-pairs z m (k ∷ ks) h =
      let f = Map.get m.items in
      let (v, e) = head f k ks h in rw e (ap (◌∷◌ v) (values_loop-pairs z m ks (tail f k ks h)))

  -- On a valid map, Get, At, Len and Keys read the list of entries, At at any index.
  pub ordered_reads_lem :
      (z : V) (m : OrderedMap K V) (k : K) (i : ℤ)
      → IsIndexed m
      → (get m k ≡ lookup (entries m) k)
        × (at z m i ≡ entry_at (entries m) i)
        × (len m ≡ length (entries m))
        × (keys m ≡ keys_of (entries m))
  unfolding get len keys
  ordered_reads_lem z m k i h =
      let f = Map.get m.items in
      let all : HasValues f m.order = λ x p. h.stored x ∙ p in
      (
        grind (arith, lookup-pairs f m.order k, h.stored k, is_some→none (f k)),
        at_lem z m i all,
        sym (length-pairs f m.order all),
        sym (keys_of-pairs f m.order all),
      )

  -- The cache of values, where it is in use, holds the values.
  abbrev pub IsCached : OrderedMap K V → Type κ
  IsCached m =
      m.values_dirty ≡ false
      → is_nil m.values_cache ≡ false
      → m.values_cache ≡ values_of (entries m)

  -- Values returns the values in insertion order, whatever the cache holds, and keeps the cache
  -- right and the entries as they are.
  pub ordered_values_lem :
      (z : V) (m : OrderedMap K V)
      → IsIndexed m
      → IsCached m
      → ((values z m).0 ≡ values_of (entries m))
        × IsCached (values z m).1
        × (entries (values z m).1 ≡ entries m)
  unfolding values
  ordered_values_lem z m h cached = elim (Bool-cases (is_nil m.order)) [
    | inl e ↦
        let none_left : entries m ≡ [] = ap (pairs (Map.get m.items)) (is_nil→nil m.order e) in
        simp e (ap values_of (sym none_left), cached, refl)
    | inr e ↦ elim (Bool-cases (not m.values_dirty && not (is_nil m.values_cache))) [
      | inl u ↦ simp (e, u) (cached (ground (arith, u)) (ground (arith, u)), cached, refl)
      | inr u ↦
          let now = values_loop-pairs z m m.order (λ x p. h.stored x ∙ p) in
          simp (e, u) (now, (λ p q. now), refl)
    ]
  ]
