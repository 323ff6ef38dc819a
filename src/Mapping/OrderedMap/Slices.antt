-- ===== src/Mapping/OrderedMap/Slices.antt =====
-- collectionx/mapping/ordered_map.go: RejectEntries, Clone, Take and Drop, which copy as
-- WhereEntries does.
use mathlib.Core.Path.{subst}
use arcgo.Prelude.{
  ℕ, zero, suc, ◌≤◌, ◌≡◌, refl, sym, ap, ◌∙◌, Bool, true, not, List, [], ◌∷◌, Option, none, some,
  if◌then◌else◌, is_some, is_nil, is_nil→nil, leb, length, take, drop, arith, Bool-cases, inl, inr,
}
use arcgo.Prelude.Classes.{Comparable}
use arcgo.Prelude.Int.{ℤ, pos, negsuc, clamp}
use arcgo.Mapping.GoMap.{lookup}
use arcgo.Mapping.Map
use arcgo.Mapping.Map.{Map, new_map}
use arcgo.Mapping.Map.Laws.{set_all_lem}
use arcgo.Mapping.OrderedMap.{
  OrderedMap, or_zero, new_ordered_map, set, where_loop, where_entries, reject_loop, reject_entries,
  copy_loop, clone, take_first, drop_first,
}
use arcgo.Mapping.OrderedMap.Spec.{has, Distinct}
use arcgo.Mapping.OrderedMap.Laws.{IsIndexed, entries, pairs, pairs_congr}
use arcgo.Mapping.OrderedMap.Reads.{HasValues, tail, head, length-pairs}
use arcgo.Mapping.OrderedMap.Run.{new-IsIndexed}
use arcgo.Mapping.OrderedMap.Copies.{passing, where_loop_entries, ordered_where_lem}

module _ {ℓ} {K : Type ℓ} ⦃c : Comparable K⦄ where
  has-take : (n : ℕ) (ks : List K) (x : K) → has (take n ks) x ≡ true → has ks x ≡ true
  has-take zero ks x h = cc
  has-take (suc n) [] x h = cc
  has-take (suc n) (k ∷ ks) x h = ground (arith, has-take n ks x)

  has-drop : (n : ℕ) (ks : List K) (x : K) → has (drop n ks) x ≡ true → has ks x ≡ true
  has-drop zero ks x h = h
  has-drop (suc n) [] x h = cc
  has-drop (suc n) (k ∷ ks) x h = ground (arith, has-drop n ks x)

  Distinct-take : (n : ℕ) (ks : List K) → Distinct ks → Distinct (take n ks)
  Distinct-take zero ks d = tt
  Distinct-take (suc n) [] d = tt
  Distinct-take (suc n) (k ∷ ks) d = (ground (arith, has-take n ks k, d.0), Distinct-take n ks d.1)

  Distinct-drop : (n : ℕ) (ks : List K) → Distinct ks → Distinct (drop n ks)
  Distinct-drop zero ks d = d
  Distinct-drop (suc n) [] d = tt
  Distinct-drop (suc n) (k ∷ ks) d = Distinct-drop n ks d.1

module _ {ℓ κ} {K : Type ℓ} {V : Type κ} ⦃c : Comparable K⦄ where
  reject_loop-eq-where_loop :
      (z : V) (m : OrderedMap K V) (p : K → V → Bool) (out : OrderedMap K V) (ks : List K)
      → reject_loop z m p out ks ≡ where_loop z m (λ k v. not (p k v)) out ks
  unfolding reject_loop where_loop
  reject_loop-eq-where_loop z m p out [] = refl
  reject_loop-eq-where_loop z m p out (k ∷ ks) =
      let v = or_zero z (Map.get m.items k) in
      reject_loop-eq-where_loop z m p (if not (p k v) then set out k v else out) ks

  reject_entries-eq-where_entries :
      (z : V) (m : OrderedMap K V) (p : K → V → Bool)
      → reject_entries z m p ≡ where_entries z m (λ k v. not (p k v))
  unfolding reject_entries where_entries
  reject_entries-eq-where_entries z m p =
      ap (λ n. if is_nil m.order then new_ordered_map else n)
        (reject_loop-eq-where_loop z m p new_ordered_map m.order)

  -- On a valid map, WhereEntries and RejectEntries give valid maps, of the entries that pass and
  -- of the others, each in the order of the map.
  pub filters_lem :
      (z : V) (m : OrderedMap K V) (p : K → V → Bool)
      → IsIndexed m
      → IsIndexed (where_entries z m p)
        × (entries (where_entries z m p) ≡ passing p (entries m))
        × IsIndexed (reject_entries z m p)
        × (entries (reject_entries z m p) ≡ passing (λ k v. not (p k v)) (entries m))
  filters_lem z m p h =
      let (kept_valid, kept) = ordered_where_lem z m p h in
      let (others_valid, others) = ordered_where_lem z m (λ k v. not (p k v)) h in
      let e = reject_entries-eq-where_entries z m p in
      (kept_valid, kept, subst IsIndexed (sym e) others_valid, ap entries e ∙ others)

  copy_loop-eq-where_loop :
      (z : V) (m : OrderedMap K V) (out : OrderedMap K V) (ks : List K)
      → copy_loop z m out ks ≡ where_loop z m (λ k v. true) out ks
  unfolding copy_loop where_loop
  copy_loop-eq-where_loop z m out [] = refl
  copy_loop-eq-where_loop z m out (k ∷ ks) =
      copy_loop-eq-where_loop z m (set out k (or_zero z (Map.get m.items k))) ks

  passing_all : (es : List (K × V)) → passing (λ k v. true) es ≡ es
  passing_all [] = refl
  passing_all ((k, v) ∷ es) = ap (◌∷◌ (k, v)) (passing_all es)

  copied :
      (z : V) (m : OrderedMap K V) (ks : List K)
      → HasValues (Map.get m.items) ks
      → Distinct ks
      → entries (copy_loop z m new_ordered_map ks) ≡ pairs (Map.get m.items) ks
  copied z m ks s d =
      ap entries (copy_loop-eq-where_loop z m new_ordered_map ks)
      ∙ (where_loop_entries z m (λ k v. true) new_ordered_map ks s d new-IsIndexed
          (λ x q. unfold lookup in refl)).1
      ∙ passing_all (pairs (Map.get m.items) ks)

  pairs-take :
      (f : K → Option V) (n : ℕ) (ks : List K)
      → HasValues f ks
      → pairs f (take n ks) ≡ take n (pairs f ks)
  pairs-take f zero ks h = refl
  pairs-take f (suc n) [] h = refl
  pairs-take f (suc n) (k ∷ ks) h =
      let (v, e) = head f k ks h in rw e (ap (◌∷◌ (k, v)) (pairs-take f n ks (tail f k ks h)))

  pairs-drop :
      (f : K → Option V) (n : ℕ) (ks : List K)
      → HasValues f ks
      → pairs f (drop n ks) ≡ drop n (pairs f ks)
  pairs-drop f zero ks h = refl
  pairs-drop f (suc n) [] h = refl
  pairs-drop f (suc n) (k ∷ ks) h =
      let (v, e) = head f k ks h in rw e (pairs-drop f n ks (tail f k ks h))

  entries-clone : (m : OrderedMap K V) → IsIndexed m → entries (clone m) ≡ entries m
  unfolding clone Map.set_all Map.get Map.all lookup
  entries-clone m h =
      let (valid, same) = set_all_lem new_map m.items.items tt h.items_valid in
      pairs_congr (Map.get (clone m).items) (Map.get m.items) m.order
        (λ x q. same x ∙ kept (lookup m.items.items x))
    where
      kept : (o : Option V) → (if is_some o then o else none) ≡ o
      kept none = refl
      kept (some v) = refl

  length-take_all : (n : ℕ) (es : List (K × V)) → length es ≤ n → take n es ≡ es
  length-take_all zero [] h = refl
  length-take_all zero (e ∷ es) h = elim h [ ]
  length-take_all (suc n) [] h = refl
  length-take_all (suc n) (e ∷ es) h = ap (◌∷◌ e) (length-take_all n es (omega arith))

  length-drop_all : (n : ℕ) (es : List (K × V)) → length es ≤ n → drop n es ≡ []
  length-drop_all zero [] h = refl
  length-drop_all zero (e ∷ es) h = elim h [ ]
  length-drop_all (suc n) [] h = refl
  length-drop_all (suc n) (e ∷ es) h = length-drop_all n es (omega arith)

  -- On a valid map, Take and Drop give the first n entries and those behind them, at any n.
  pub slices_lem :
      (z : V) (m : OrderedMap K V) (n : ℤ)
      → IsIndexed m
      → (entries (take_first z m n) ≡ take (clamp n) (entries m))
        × (entries (drop_first z m n) ≡ drop (clamp n) (entries m))
  unfolding take_first drop_first
  slices_lem z m (negsuc n) h = (
    refl,
    elim (Bool-cases (is_nil m.order)) [
      | inl e ↦ rw e (sym (ap (pairs (Map.get m.items)) (is_nil→nil m.order e)))
      | inr e ↦ rw e (entries-clone m h)
    ],
  )
  slices_lem z m (pos n) h =
      let f = Map.get m.items in
      let all : HasValues f m.order = λ x q. h.stored x ∙ q in
      let size = length-pairs f m.order all in
      let no_entries : is_nil m.order ≡ true → entries m ≡ [] =
        λ e. ap (pairs f) (is_nil→nil m.order e) in
      (
        elim (Bool-cases (leb n 0)) [
          | inl e ↦
              let none_taken : n ≡ 0 = ground (arith, e) in
              rw e (ap (λ j. take j (entries m)) (sym none_taken))
          | inr e ↦ elim (Bool-cases (is_nil m.order)) [
            | inl k ↦
                rw (e, k)
                  (sym (length-take_all n [] (omega arith)) ∙ ap (take n) (sym (no_entries k)))
            | inr k ↦ elim (Bool-cases (leb (length m.order) n)) [
              | inl l ↦
                  rw (e, k, l)
                    (entries-clone m h
                      ∙ sym (length-take_all n (entries m) (ground (arith, l, size))))
              | inr l ↦
                  rw (e, k, l)
                    (copied z m (take n m.order) (λ x q. all x (has-take n m.order x q))
                        (Distinct-take n m.order h.distinct)
                      ∙ pairs-take f n m.order all)
            ]
          ]
        ],
        elim (Bool-cases (is_nil m.order)) [
          | inl k ↦
              rw k (sym (length-drop_all n [] (omega arith)) ∙ ap (drop n) (sym (no_entries k)))
          | inr k ↦ elim (Bool-cases (leb n 0)) [
            | inl e ↦
                let none_dropped : n ≡ 0 = ground (arith, e) in
                rw (k, e) (entries-clone m h ∙ ap (λ j. drop j (entries m)) (sym none_dropped))
            | inr e ↦ elim (Bool-cases (leb (length m.order) n)) [
              | inl l ↦ rw (k, e, l) (sym (length-drop_all n (entries m) (ground (arith, l, size))))
              | inr l ↦
                  rw (k, e, l)
                    (copied z m (drop n m.order) (λ x q. all x (has-drop n m.order x q))
                        (Distinct-drop n m.order h.distinct)
                      ∙ pairs-drop f n m.order all)
            ]
          ]
        ],
      )
