-- ===== src/Mapping/OrderedMap/Spec.antt =====
-- collectionx/mapping/ordered_map.go: the order of the keys, and the index of each.
use arcgo.Prelude.{
  ℕ, suc, ◌+◌, ◌≡◌, refl, sym, ap, ◌∙◌, Bool, true, false, ◌||◌, List, [], ◌∷◌, ◌++◌, Option, none,
  some, if◌then◌else◌, is_some, leb, length, take, drop, arith, length-append, Bool-cases, inl, inr,
}
use arcgo.Prelude.Classes.{Comparable}
use arcgo.Mapping.GoMap.{IsMap}
use arcgo.Mapping.Map
use arcgo.Mapping.Map.{Map}
use arcgo.Mapping.Map.Laws.{set_lem}
use arcgo.Mapping.OrderedMap.{remove_at, reindex_loop}

module _ {ℓ} {K : Type ℓ} ⦃c : Comparable K⦄ where
  abbrev pub has : List K → K → Bool
  has [] key = false
  has (k ∷ ks) key = c.same k key || has ks key

  -- The index of a key, with the first of the keys at `i`.
  abbrev pub position_from : ℕ → List K → K → Option ℕ
  position_from i [] key = none
  position_from i (k ∷ ks) key = if c.same k key then some i else position_from (suc i) ks key

  abbrev pub Distinct : List K → Type 0
  Distinct [] = Unit
  Distinct (k ∷ ks) = (has ks k ≡ false) × Distinct ks

  pub position_from-none :
      (i : ℕ) (ks : List K) (x : K) → has ks x ≡ false → position_from i ks x ≡ none
  position_from-none i [] x h = refl
  position_from-none i (k ∷ ks) x h = ground (arith, position_from-none (suc i) ks x)

  pub is_some-position_from :
      (i : ℕ) (ks : List K) (x : K) → is_some (position_from i ks x) ≡ has ks x
  is_some-position_from i [] x = refl
  is_some-position_from i (k ∷ ks) x = ground (arith, is_some-position_from (suc i) ks x)

  pub has-append : (xs ys : List K) (x : K) → has (xs ++ ys) x ≡ (has xs x || has ys x)
  has-append [] ys x = refl
  has-append (k ∷ ks) ys x = ground (arith, has-append ks ys x)

  pub position_from-append :
      (i : ℕ) (xs ys : List K) (x : K)
      → position_from i (xs ++ ys) x
        ≡ (if has xs x then position_from i xs x else position_from (i + length xs) ys x)
  position_from-append i [] ys x = ap (λ j. position_from j ys x) (omega arith)
  position_from-append i (k ∷ ks) ys x = elim (Bool-cases (c.same k x)) [
    | inl e ↦ rw e refl
    | inr e ↦ rw e (
        position_from-append (suc i) ks ys x
        ∙ ap (λ j. if has ks x then position_from (suc i) ks x else position_from j ys x)
            {y = i + length (k ∷ ks)} (omega arith))
  ]

  -- A key with an index stands there, between the keys before and those after.
  pub split_at_position :
      (i : ℕ) (ks : List K) (x : K) (p : ℕ)
      → position_from i ks x ≡ some p
      → (front : List K) × (back : List K) × (ks ≡ front ++ x ∷ back) × (p ≡ i + length front)
  split_at_position i [] x p h = cc
  split_at_position i (k ∷ ks) x p h = elim (Bool-cases (c.same k x)) [
    | inl e ↦
        let at : i ≡ p = ground (arith, e, h) in
        ([], ks, ap (λ j. j ∷ ks) (c.same_sound k x e), sym at ∙ omega arith)
    | inr e ↦
        let (front, back, whole, at) = split_at_position (suc i) ks x p (rw e at h) in
        (k ∷ front, back, ap (◌∷◌ k) whole, at ∙ omega arith)
  ]

  -- Keys that all differ, split at one of them.
  pub record IsSplit (front : List K) (x : K) (back : List K) : Type ℓ where
    pub rest_distinct : Distinct (front ++ back)
    pub back_distinct : Distinct back
    pub not_before : has front x ≡ false
    pub not_after : has back x ≡ false
    pub apart : (y : K) → has front y ≡ true → has back y ≡ false

  pub Distinct-IsSplit :
      (front : List K) (x : K) (back : List K) → Distinct (front ++ x ∷ back) → IsSplit front x back
  Distinct-IsSplit [] x back h = record {
    rest_distinct = h.1;
    back_distinct = h.1;
    not_before = refl;
    not_after = h.0;
    apart = λ y e. cc;
  }
  Distinct-IsSplit (k ∷ front) x back h =
      let s = Distinct-IsSplit front x back h.1 in
      let away = has-append front (x ∷ back) k in
      record {
        rest_distinct = (ground (arith, h.0, away, has-append front back k), s.rest_distinct);
        back_distinct = s.back_distinct;
        not_before = grind (arith, h.0, away, s.not_before, c.same_sound k x, c.same_refl x);
        not_after = s.not_after;
        apart = λ y e. grind (arith, h.0, away, s.apart y, c.same_sound k y, e);
      }

  take-front : (front back : List K) → take (length front) (front ++ back) ≡ front
  take-front [] back = refl
  take-front (k ∷ front) back = ap (◌∷◌ k) (take-front front back)

  drop-suc_front :
      (front : List K) (x : K) (back : List K)
      → drop (suc (length front)) (front ++ x ∷ back) ≡ back
  drop-suc_front [] x back = refl
  drop-suc_front (k ∷ front) x back = drop-suc_front front x back

  pub remove_at-split :
      (front : List K) (x : K) (back : List K)
      → remove_at (front ++ x ∷ back) (length front) ≡ front ++ back
  unfolding remove_at
  remove_at-split front x back =
      let within : leb (length (front ++ x ∷ back)) (length front) ≡ false =
        ground (arith, length-append front (x ∷ back)) in
      rw (within, take-front front (x ∷ back), drop-suc_front front x back) refl

  pub drop-front : (front back : List K) → drop (length front) (front ++ back) ≡ back
  drop-front [] back = refl
  drop-front (k ∷ front) back = drop-front front back

  -- The loop gives the keys from `i` on their indices, and leaves the others.
  pub reindex_loop_lem :
      (index : Map K ℕ) (ks : List K) (i : ℕ)
      → IsMap index.items
      → Distinct ks
      → IsMap (reindex_loop index ks i).items
        × ((x : K)
            → Map.get (reindex_loop index ks i) x
              ≡ (if has ks x then position_from i ks x else Map.get index x))
  unfolding reindex_loop
  reindex_loop_lem index [] i h d = (h, λ x. refl)
  reindex_loop_lem index (k ∷ ks) i h d =
      let (h', acts) = set_lem index k i h in
      let (h'', acts') = reindex_loop_lem (Map.set index k i) ks (suc i) h' d.1 in
      (h'', λ x. acts' x ∙ grind (arith, acts x, d.0, c.same_sound k x))
