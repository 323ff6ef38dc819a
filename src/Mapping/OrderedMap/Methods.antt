-- ===== src/Mapping/OrderedMap/Methods.antt =====
-- collectionx/mapping/ordered_map.go: Set, Delete, Get, At and Values on the list of entries in
-- insertion order.
use mathlib.Core.Path.{ap₂, subst}
use arcgo.Prelude.{
  ℕ, suc, ◌+◌, ◌-◌, ◌≡◌, refl, sym, ap, ◌∙◌, true, false, List, [], ◌∷◌, ◌++◌, none, some, is_some,
  is_some→none, length, drop, arith, length-append, Option-cases, inl, inr,
}
use arcgo.Prelude.Classes.{Comparable}
use arcgo.Mapping.GoMap.{store, erase}
use arcgo.Mapping.Map
use arcgo.Mapping.Map.{Map, new_map}
use arcgo.Mapping.Map.Laws.{set_lem, delete_lem}
use arcgo.Mapping.OrderedMap.{
  OrderedMap, get, set, delete, invalidate_caches, remove_at, reindex_loop,
}
use arcgo.Mapping.OrderedMap.Spec.{
  has, position_from, Distinct, position_from-none, is_some-position_from, has-append,
  position_from-append, split_at_position, Distinct-IsSplit, remove_at-split, drop-front,
  reindex_loop_lem,
}
use arcgo.Mapping.OrderedMap.Laws.{
  IsIndexed, entries, pairs, pairs-update, pairs-append, pairs-erase, pairs-drop,
}

module _ {ℓ} {K : Type ℓ} ⦃c : Comparable K⦄ where
  Distinct-append : (ks : List K) (k : K) → Distinct ks → has ks k ≡ false → Distinct (ks ++ k ∷ [])
  Distinct-append [] k d h = (refl, tt)
  Distinct-append (j ∷ ks) k d h = (
    grind (arith, has-append ks (k ∷ []) j, d.0, c.same_sound k j, c.same_refl, h),
    Distinct-append ks k d.1 (ground (arith, h)),
  )

module _ {ℓ κ} {K : Type ℓ} {V : Type κ} ⦃c : Comparable K⦄ where
  -- On a valid map, Set keeps the map valid, and puts the value in the place of the key, or behind
  -- all others where the key is new.
  pub ordered_set_lem :
      (m : OrderedMap K V) (k : K) (v : V)
      → IsIndexed m
      → IsIndexed (set m k v) × (entries (set m k v) ≡ store (entries m) k v)
  unfolding set
  ordered_set_lem m k v h =
      let (items_valid, items) = set_lem m.items k v h.items_valid in
      let n = length (m.order ++ k ∷ []) - 1 in
      let (index_valid, index) = set_lem m.index k n h.index_valid in
      let f = Map.get m.items in
      let g = Map.get (Map.set m.items k v) in
      elim (Option-cases (f k)) [
        | inl e ↦
            let new : has m.order k ≡ false = ground (arith, h.stored k, e) in
            let last : n ≡ 0 + length m.order = omega (arith, length-append m.order (k ∷ [])) in
            simp (e, set)
              (
                record {
                  items_valid = items_valid;
                  index_valid = index_valid;
                  distinct = Distinct-append m.order k h.distinct new;
                  stored = λ x. grind (arith, items x, h.stored x, has-append m.order (k ∷ []) x);
                  indexed = λ x. grind (
                    arith,
                    index x,
                    h.indexed x,
                    position_from-append 0 m.order (k ∷ []) x,
                    position_from-none 0 m.order x,
                    ap some last,
                    c.same_sound k x,
                    new,
                  );
                },
                pairs-append f g m.order k v new items,
              )
        | inr (w, e) ↦
            let old : has m.order k ≡ true = ground (arith, h.stored k, e) in
            simp (e, set)
              (
                record {
                  items_valid = items_valid;
                  index_valid = h.index_valid;
                  distinct = h.distinct;
                  stored = λ x. grind (arith, items x, h.stored x, c.same_sound k x, old);
                  indexed = h.indexed;
                },
                pairs-update f g m.order k v h.distinct old (λ x p. h.stored x ∙ p) items,
              )
      ]

  -- The map without a key, from the split of the order at it.
  abbrev without : OrderedMap K V → K → List K → List K → ℕ → OrderedMap K V
  without m k front back p = invalidate_caches (record m {
    order = front ++ back;
    items = (Map.delete m.items k).0;
    index = reindex_loop (Map.delete m.index k).0 back p;
  })

  without_lem :
      (m : OrderedMap K V) (k : K) (front back : List K) (p : ℕ)
      → IsIndexed m
      → m.order ≡ front ++ k ∷ back
      → p ≡ length front
      → IsIndexed (without m k front back p)
        × (entries (without m k front back p) ≡ erase (entries m) k)
  without_lem m k front back p h whole at =
      let s = Distinct-IsSplit front k back (subst Distinct whole h.distinct) in
      let (r, items_valid, items) = delete_lem m.items k h.items_valid in
      let (q, index_valid, index) = delete_lem m.index k h.index_valid in
      let (index_valid', index') =
        reindex_loop_lem (Map.delete m.index k).0 back p index_valid s.back_distinct in
      let f = Map.get m.items in
      let g = Map.get (Map.delete m.items k).0 in
      let gone : g k ≡ none = grind (arith, items k, c.same_refl k) in
      (
        record {
          items_valid = items_valid;
          index_valid = index_valid';
          distinct = s.rest_distinct;
          stored = λ x. grind (
            arith,
            items x,
            h.stored x,
            ap (λ ks. has ks x) whole,
            has-append front (k ∷ back) x,
            has-append front back x,
            s.not_before,
            s.not_after,
            c.same_sound k x,
          );
          indexed = λ x. grind (
            arith,
            index' x,
            index x,
            h.indexed x,
            ap (λ ks. position_from 0 ks x) whole,
            position_from-append 0 front (k ∷ back) x,
            position_from-append 0 front back x,
            ap (λ j. position_from j back x) at,
            position_from-none (0 + length front) back x,
            position_from-none (suc (0 + length front)) back x,
            s.apart x,
            s.not_before,
            s.not_after,
            c.same_sound k x,
          );
        },
        sym (pairs-drop g front k back gone)
            ∙ ap (pairs g) (sym whole)
            ∙ pairs-erase f g m.order k items,
      )

  -- On a valid map, Delete reports whether the key was there, keeps the map valid, and takes its
  -- entry out of the list; the entries behind move up, and their indices with them.
  pub ordered_delete_lem :
      (m : OrderedMap K V) (k : K)
      → IsIndexed m
      → ((delete m k).1 ≡ is_some (get m k))
        × IsIndexed (delete m k).0
        × (entries (delete m k).0 ≡ erase (entries m) k)
  unfolding delete get
  ordered_delete_lem m k h = elim (Option-cases (Map.get m.index k)) [
    | inl e ↦
        let absent : is_some (Map.get m.items k) ≡ false =
          h.stored k
          ∙ sym (is_some-position_from 0 m.order k)
          ∙ ap is_some (sym (h.indexed k) ∙ e) in
        let f = Map.get m.items in
        simp (e, delete)
          (
            sym absent,
            h,
            pairs-erase f f m.order k
                (λ x. grind (arith, is_some→none (f k) absent, c.same_sound k x)),
          )
    | inr (p, e) ↦
        let (front, back, whole, at) = split_at_position 0 m.order k p (sym (h.indexed k) ∙ e) in
        let p_eq : p ≡ length front = omega (arith, at) in
        let order : remove_at m.order p ≡ front ++ back =
          ap₂ remove_at whole p_eq ∙ remove_at-split front k back in
        let behind : drop p (front ++ back) ≡ back =
          ap (λ j. drop j (front ++ back)) p_eq ∙ drop-front front back in
        let there : is_some (Map.get m.items k) ≡ true =
          h.stored k
          ∙ ap (λ ks. has ks k) whole
          ∙ ground (arith, has-append front (k ∷ back) k, c.same_refl k) in
        let (valid, erased) = without_lem m k front back p h whole p_eq in
        simp (e, delete, order, behind) (sym there, valid, erased)
  ]
