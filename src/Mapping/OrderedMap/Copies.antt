-- ===== src/Mapping/OrderedMap/Copies.antt =====
-- collectionx/mapping/ordered_map.go: the methods that copy entries into a new map.
use mathlib.Core.List.{append_assoc, append-nil}
use mathlib.Core.Path.{subst}
use arcgo.Prelude.{
  ◌≡◌, refl, sym, ap, ◌∙◌, Bool, true, List, [], ◌∷◌, ◌++◌, none, if◌then◌else◌, is_some,
  is_some→some, is_nil, is_nil→nil, arith, Bool-cases, inl, inr,
}
use arcgo.Prelude.Classes.{Comparable}
use arcgo.Mapping.GoMap.{lookup, store, lookup-store}
use arcgo.Mapping.Map
use arcgo.Mapping.OrderedMap.{OrderedMap, or_zero, new_ordered_map, set, where_loop, where_entries}
use arcgo.Mapping.OrderedMap.Spec.{has, Distinct}
use arcgo.Mapping.OrderedMap.Laws.{IsIndexed, entries, pairs}
use arcgo.Mapping.OrderedMap.Methods.{ordered_set_lem}
use arcgo.Mapping.OrderedMap.Run.{new-IsIndexed}

module _ {ℓ κ} {K : Type ℓ} {V : Type κ} where
  -- The entries that pass, in their order.
  abbrev pub passing : (K → V → Bool) → List (K × V) → List (K × V)
  passing p [] = []
  passing p ((k, v) ∷ es) = if p k v then (k, v) ∷ passing p es else passing p es

module _ {ℓ κ} {K : Type ℓ} {V : Type κ} ⦃c : Comparable K⦄ where
  store_new :
      (es : List (K × V)) (k : K) (v : V) → lookup es k ≡ none → store es k v ≡ es ++ (k, v) ∷ []
  unfolding store lookup
  store_new [] k v h = refl
  store_new ((j, w) ∷ es) k v h = elim (Bool-cases (c.same j k)) [
    | inl e ↦ cc (rw e at h)
    | inr e ↦ rw e (ap (◌∷◌ (j, w)) (store_new es k v (rw e at h)))
  ]

  -- None of the keys has an entry.
  abbrev pub IsFreshFor : List (K × V) → List K → Type (ℓ ⊔ κ)
  IsFreshFor es ks = (x : K) → has ks x ≡ true → lookup es x ≡ none

  pub where_loop_entries :
      (z : V) (m : OrderedMap K V) (p : K → V → Bool) (out : OrderedMap K V) (ks : List K)
      → ((x : K) → has ks x ≡ true → is_some (Map.get m.items x) ≡ true)
      → Distinct ks
      → IsIndexed out
      → IsFreshFor (entries out) ks
      → IsIndexed (where_loop z m p out ks)
        × (entries (where_loop z m p out ks)
            ≡ entries out ++ passing p (pairs (Map.get m.items) ks))
  unfolding where_loop
  where_loop_entries z m p out [] s d h f = (h, sym (append-nil (entries out)))
  where_loop_entries z m p out (k ∷ ks) s d h f =
      let (v, e) = is_some→some (Map.get m.items k) (s k (ground (arith, c.same_refl k))) in
      let rest : (x : K) → has ks x ≡ true → is_some (Map.get m.items x) ≡ true =
        λ x q. s x (ground (arith, q)) in
      elim (Bool-cases (p k v)) [
        | inl q ↦
            let (valid, now) = ordered_set_lem out k v h in
            let added : entries (set out k v) ≡ entries out ++ (k, v) ∷ [] =
              now ∙ store_new (entries out) k v (f k (ground (arith, c.same_refl k))) in
            let fresh : IsFreshFor (entries (set out k v)) ks = λ x r.
              ap (λ es. lookup es x) now
              ∙ grind (arith, lookup-store (entries out) k v x, f x, r, d.0, c.same_sound k x) in
            let (valid', all) = where_loop_entries z m p (set out k v) ks rest d.1 valid fresh in
            let next : (if p k (or_zero z (Map.get m.items k))
                  then set out k (or_zero z (Map.get m.items k))
                  else out)
                ≡ set out k v =
              rw (e, q) refl in
            let kept : passing p (pairs (Map.get m.items) (k ∷ ks)) ≡ (k, v) ∷ tail =
              rw (e, q) refl in
            subst (λ o. Copied o (passing p (pairs (Map.get m.items) (k ∷ ks)))) (sym next)
              (
                valid',
                all
                    ∙ ap (λ es. es ++ tail) added
                    ∙ append_assoc (entries out) ((k, v) ∷ []) tail
                    ∙ ap (λ es. entries out ++ es) (sym kept),
              )
        | inr q ↦
            let next : (if p k (or_zero z (Map.get m.items k))
                  then set out k (or_zero z (Map.get m.items k))
                  else out)
                ≡ out =
              rw (e, q) refl in
            let kept : passing p (pairs (Map.get m.items) (k ∷ ks)) ≡ tail = rw (e, q) refl in
            let (valid', all) =
              where_loop_entries z m p out ks rest d.1 h (λ x r. f x (ground (arith, r))) in
            subst (λ o. Copied o (passing p (pairs (Map.get m.items) (k ∷ ks)))) (sym next)
              (valid', all ∙ ap (λ es. entries out ++ es) (sym kept))
      ]
    where
      tail : List (K × V)
      tail = passing p (pairs (Map.get m.items) ks)

      Copied : OrderedMap K V → List (K × V) → Type (ℓ ⊔ κ)
      Copied o es =
          IsIndexed (where_loop z m p o ks) × (entries (where_loop z m p o ks) ≡ entries out ++ es)

  pub ordered_where_lem :
      (z : V) (m : OrderedMap K V) (p : K → V → Bool)
      → IsIndexed m
      → IsIndexed (where_entries z m p) × (entries (where_entries z m p) ≡ passing p (entries m))
  unfolding where_entries
  ordered_where_lem z m p h = elim (Bool-cases (is_nil m.order)) [
    | inl e ↦
        let empty : entries m ≡ [] = ap (pairs (Map.get m.items)) (is_nil→nil m.order e) in
        rw e (new-IsIndexed, sym (ap (passing p) empty))
    | inr e ↦ rw e (
        where_loop_entries z m p new_ordered_map m.order (λ x q. h.stored x ∙ q) h.distinct
          new-IsIndexed (λ x q. unfold lookup in refl))
  ]
