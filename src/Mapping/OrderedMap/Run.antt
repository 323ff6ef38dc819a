-- ===== src/Mapping/OrderedMap/Run.antt =====
-- collectionx/mapping/ordered_map.go: what a client sees over any sequence of calls.
use mathlib.Core.Path.{ap₂}
use arcgo.Prelude.{
  ◌≡◌, refl, ap, ◌∙◌, Bool, List, [], ◌∷◌, Option, is_some, is_nil, not, ◌&&◌, Bool-cases,
  Option-cases, inl, inr,
}
use arcgo.Prelude.Int.{pos}
use arcgo.Prelude.Classes.{Comparable}
use arcgo.Mapping.GoMap.{lookup, store, erase}
use arcgo.Mapping.Map
use arcgo.Mapping.Map.{Map, new_map}
use arcgo.Mapping.OrderedMap
use arcgo.Mapping.OrderedMap.{OrderedMap, new_ordered_map}
use arcgo.Mapping.OrderedMap.Laws.{IsIndexed, entries}
use arcgo.Mapping.OrderedMap.Methods.{ordered_set_lem, ordered_delete_lem}
use arcgo.Mapping.OrderedMap.Reads.{IsCached, values_of, ordered_reads_lem, ordered_values_lem}

pub data Op {ℓ κ} (K : Type ℓ) (V : Type κ) : Type (ℓ ⊔ κ) where
  set : K → V → Op K V
  get delete : K → Op K V
  values clear : Op K V

-- What a call returns.
pub data Answer {κ} (V : Type κ) : Type κ where
  done : Answer V
  found : Option V → Answer V
  existed : Bool → Answer V
  listed : List V → Answer V

module _ {ℓ κ} {K : Type ℓ} {V : Type κ} ⦃c : Comparable K⦄ where
  -- The calls on a list of entries in insertion order.
  pub replay : List (Op K V) → List (K × V) → List (Answer V)
  replay [] es = []
  replay (Op.set k v ∷ ops) es = Answer.done ∷ replay ops (store es k v)
  replay (Op.get k ∷ ops) es = Answer.found (lookup es k) ∷ replay ops es
  replay (Op.delete k ∷ ops) es = Answer.existed (is_some (lookup es k)) ∷ replay ops (erase es k)
  replay (Op.values ∷ ops) es = Answer.listed (values_of es) ∷ replay ops es
  replay (Op.clear ∷ ops) es = Answer.done ∷ replay ops []

  unfoldable pub run : V → List (Op K V) → OrderedMap K V → List (Answer V)
  run z [] m = []
  run z (Op.set k v ∷ ops) m = Answer.done ∷ run z ops (OrderedMap.set m k v)
  run z (Op.get k ∷ ops) m = Answer.found (OrderedMap.get m k) ∷ run z ops m
  run z (Op.delete k ∷ ops) m =
      let (m', b) = OrderedMap.delete m k in Answer.existed b ∷ run z ops m'
  run z (Op.values ∷ ops) m =
      let (vs, m') = OrderedMap.values z m in Answer.listed vs ∷ run z ops m'
  run z (Op.clear ∷ ops) m = Answer.done ∷ run z ops (OrderedMap.clear m)

  set-IsCached : (m : OrderedMap K V) (k : K) (v : V) → IsCached (OrderedMap.set m k v)
  unfolding OrderedMap.set
  set-IsCached m k v p q = cc

  delete-IsCached : (m : OrderedMap K V) (k : K) → IsCached m → IsCached (OrderedMap.delete m k).0
  unfolding OrderedMap.delete
  delete-IsCached m k h = elim (Option-cases (Map.get m.index k)) [
    | inl e ↦ simp (e, OrderedMap.delete) h
    | inr (i, e) ↦ simp (e, OrderedMap.delete) (λ p q. cc)
  ]

  values-IsIndexed :
      (z : V) (m : OrderedMap K V) → IsIndexed m → IsIndexed (OrderedMap.values z m).1
  unfolding OrderedMap.values
  values-IsIndexed z m h = elim (Bool-cases (is_nil m.order)) [
    | inl e ↦ simp e h
    | inr e ↦ elim (Bool-cases (not m.values_dirty && not (is_nil m.values_cache))) [
      | inl u ↦ simp (e, u) h
      | inr u ↦
          simp (e, u)
            (record {
              items_valid = h.items_valid;
              index_valid = h.index_valid;
              distinct = h.distinct;
              stored = h.stored;
              indexed = h.indexed;
            })
    ]
  ]

  pub new-IsIndexed : IsIndexed (new_ordered_map {K = K} {V = V})
  unfolding Map.get lookup
  new-IsIndexed = record {
    items_valid = tt;
    index_valid = tt;
    distinct = tt;
    stored = λ x. refl;
    indexed = λ x. refl;
  }

  cleared : (m : OrderedMap K V) → OrderedMap.clear m ≡ new_ordered_map
  unfolding OrderedMap.clear Map.clear
  cleared m = refl

  run_valid :
      (z : V) (ops : List (Op K V)) (m : OrderedMap K V)
      → IsIndexed m
      → IsCached m
      → run z ops m ≡ replay ops (entries m)
  unfolding run replay
  run_valid z [] m h c' = refl
  run_valid z (Op.set k v ∷ ops) m h c' =
      let (valid, now) = ordered_set_lem m k v h in
      ap (◌∷◌ Answer.done)
        (run_valid z ops (OrderedMap.set m k v) valid (set-IsCached m k v) ∙ ap (replay ops) now)
  run_valid z (Op.get k ∷ ops) m h c' =
      ap₂ (λ o rest. Answer.found o ∷ rest) (ordered_reads_lem z m k (pos 0) h).0
        (run_valid z ops m h c')
  run_valid z (Op.delete k ∷ ops) m h c' =
      let (was, valid, now) = ordered_delete_lem m k h in
      ap₂ (λ b rest. Answer.existed b ∷ rest)
        (was ∙ ap is_some (ordered_reads_lem z m k (pos 0) h).0)
        (run_valid z ops (OrderedMap.delete m k).0 valid (delete-IsCached m k c')
          ∙ ap (replay ops) now)
  run_valid z (Op.values ∷ ops) m h c' =
      let (out, cached, now) = ordered_values_lem z m h c' in
      ap₂ (λ vs rest. Answer.listed vs ∷ rest) out
        (run_valid z ops (OrderedMap.values z m).1 (values-IsIndexed z m h) cached
          ∙ ap (replay ops) now)
  run_valid z (Op.clear ∷ ops) m h c' =
      ap (◌∷◌ Answer.done)
        (ap (run z ops) (cleared m) ∙ run_valid z ops new_ordered_map new-IsIndexed (λ p q. refl))

  -- Over any sequence of calls, a new ordered map returns what the list of its entries in
  -- insertion order returns: Set replaces the value of a key in its place or puts a new key behind
  -- the others, and Values lists the values in that order, whatever the cache holds.
  pub ordered_map_refines :
      (z : V) (ops : List (Op K V)) → run z ops new_ordered_map ≡ replay ops []
  ordered_map_refines z ops = run_valid z ops new_ordered_map new-IsIndexed (λ p q. refl)
