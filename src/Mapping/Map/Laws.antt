-- ===== src/Mapping/Map/Laws.antt =====
-- collectionx/mapping/map.go: what each method does to the partial function that Get answers.
use arcgo.Prelude.{
  ◌≡◌, refl, ap, ◌∙◌, not, ◌&&◌, Option, none, some, List, [], ◌∷◌, Bool, true, if◌then◌else◌,
  is_nil, is_nil→nil, is_some, Bool-cases, Option-cases, inl, inr, arith,
}
use arcgo.Prelude.Classes.{Comparable}
use arcgo.Mapping.GoMap.{
  lookup, IsMap, lookup-store, lookup-erase, lookup-copy_into, store-IsMap, erase-IsMap,
  copy_into-IsMap,
}
use arcgo.Mapping.Map.{
  Map, new_map, set, set_all, get, delete, where_loop, where_entries, reject_loop, reject_entries,
}

module _ {ℓ κ} {K : Type ℓ} {V : Type κ} ⦃c : Comparable K⦄ where
  -- Set binds the key and leaves every other.
  pub set_lem :
      (m : Map K V) (k : K) (v : V)
      → IsMap m.items
      → IsMap (set m k v).items
        × ((x : K) → get (set m k v) x ≡ (if c.same k x then some v else get m x))
  unfolding set get
  set_lem m k v h = (store-IsMap m.items k v h, lookup-store m.items k v)

  -- Delete unbinds the key, leaves every other, and reports whether it was bound, on a map that
  -- has no key twice, and keeps it so.
  pub delete_lem :
      (m : Map K V) (k : K)
      → IsMap m.items
      → ((delete m k).1 ≡ is_some (get m k))
        × IsMap (delete m k).0.items
        × ((x : K) → get (delete m k).0 x ≡ (if c.same k x then none else get m x))
  unfolding delete get
  delete_lem m k h = elim (Option-cases (lookup m.items k)) [
    | inl e ↦ simp e (refl, h, λ x. grind (arith, c.same_sound k x))
    | inr (v, e) ↦ simp e (refl, erase-IsMap m.items k h, lookup-erase m.items k)
  ]

  -- SetAll binds the keys of the source to its values and leaves every other, where neither map
  -- has a key twice, and the result has none twice.
  pub set_all_lem :
      (m : Map K V) (source : List (K × V))
      → IsMap m.items
      → IsMap source
      → IsMap (set_all m source).items
        × ((x : K)
            → get (set_all m source) x
              ≡ (if is_some (lookup source x) then lookup source x else get m x))
  unfolding set_all get lookup
  set_all_lem m [] h k = (h, λ x. refl)
  set_all_lem m ((j, w) ∷ source) h k = (
    copy_into-IsMap m.items ((j, w) ∷ source) h,
    λ x. lookup-copy_into m.items ((j, w) ∷ source) x k,
  )

  abbrev pub keep : (K → V → Bool) → K → Option V → Option V
  keep predicate k none = none
  keep predicate k (some v) = if predicate k v then some v else none

  kept_entry :
      (predicate : K → V → Bool) (filtered : Map K V) (k : K) (v : V) (y : K)
      → get (if predicate k v then set filtered k v else filtered) y
        ≡ (if c.same k y && predicate k v then some v else get filtered y)
  unfolding get set
  kept_entry predicate filtered k v y = elim (Bool-cases (predicate k v)) [
    | inl e ↦ rw e (ground (arith, lookup-store filtered.items k v y))
    | inr e ↦ rw e (ground arith)
  ]

  where_loop_lem :
      (predicate : K → V → Bool) (filtered : Map K V) (m : List (K × V))
      → IsMap m
      → ((x : K) → is_some (lookup m x) ≡ true → get filtered x ≡ none)
      → (x : K)
      → get (where_loop predicate filtered m) x
        ≡ (if is_some (lookup m x) then keep predicate x (lookup m x) else get filtered x)
  unfolding where_loop lookup
  where_loop_lem predicate filtered [] h d x = refl
  where_loop_lem predicate filtered ((k, v) ∷ m) h d x =
      let next : Map K V = if predicate k v then set filtered k v else filtered in
      let bound : (y : K)
          → get next y ≡ (if c.same k y && predicate k v then some v else get filtered y) =
        kept_entry predicate filtered k v in
      let fresh : (y : K) → is_some (lookup m y) ≡ true → get next y ≡ none =
        λ y e. grind (arith, bound y, d y, c.same_sound k y, h.0) in
      where_loop_lem predicate next m h.1 fresh x
      ∙ grind (arith, bound x, c.same_sound k x, h.0, c.same_refl k, d x)

  -- WhereEntries keeps exactly the entries that pass.
  pub where_entries_lem :
      (predicate : K → V → Bool) (m : Map K V)
      → IsMap m.items
      → (x : K) → get (where_entries predicate m) x ≡ keep predicate x (get m x)
  unfolding where_entries get lookup
  where_entries_lem predicate m h x = elim (Bool-cases (is_nil m.items)) [
    | inl e ↦ rw (is_nil→nil m.items e) (unfold lookup in refl)
    | inr e ↦
        simp (e, where_entries)
          (where_loop_lem predicate new_map m.items h (λ y k. unfold get lookup in refl) x ∙ shown)
  ]
    where
      shown :
          (if is_some (lookup m.items x)
            then keep predicate x (lookup m.items x)
            else get new_map x)
          ≡ keep predicate x (lookup m.items x)
      shown = elim (Option-cases (lookup m.items x)) [
        | inl e ↦ simp e refl
        | inr (v, e) ↦ simp e refl
      ]

  reject_loop-eq-where_loop :
      (predicate : K → V → Bool) (rejected : Map K V) (m : List (K × V))
      → reject_loop predicate rejected m ≡ where_loop (λ k v. not (predicate k v)) rejected m
  unfolding reject_loop where_loop
  reject_loop-eq-where_loop predicate rejected [] = refl
  reject_loop-eq-where_loop predicate rejected ((k, v) ∷ m) =
      reject_loop-eq-where_loop predicate
        (if not (predicate k v) then set rejected k v else rejected) m

  reject_entries-eq-where_entries :
      (predicate : K → V → Bool) (m : Map K V)
      → reject_entries predicate m ≡ where_entries (λ k v. not (predicate k v)) m
  unfolding reject_entries where_entries
  reject_entries-eq-where_entries predicate m =
      ap (λ n. if is_nil m.items then new_map else n)
        (reject_loop-eq-where_loop predicate new_map m.items)

  -- WhereEntries keeps exactly the entries of the map that pass, and RejectEntries exactly those
  -- that do not.
  pub where_or_reject :
      (predicate : K → V → Bool) (m : Map K V) (x : K)
      → IsMap m.items
      → (get (where_entries predicate m) x ≡ keep predicate x (get m x))
        × (get (reject_entries predicate m) x ≡ keep (λ k v. not (predicate k v)) x (get m x))
  where_or_reject predicate m x h = (
    where_entries_lem predicate m h x,
    ap (λ n. get n x) (reject_entries-eq-where_entries predicate m)
        ∙ where_entries_lem (λ k v. not (predicate k v)) m h x,
  )
