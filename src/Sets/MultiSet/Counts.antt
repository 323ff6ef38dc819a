-- ===== src/Sets/MultiSet/Counts.antt =====
-- collectionx/set/multiset.go: sums and occurrences over a map of counts.
use arcgo.Prelude.{
  ℕ, zero, suc, ◌+◌, ◌≤◌, ◌≡◌, refl, sym, ap, ◌∙◌, List, [], ◌∷◌, ◌++◌, none, if◌then◌else◌,
  is_some→none, arith, length, length-append, length-replicate, replicate, Bool-cases, inl, inr,
}
use arcgo.Prelude.Classes.{Comparable}
use arcgo.Mapping.GoMap.{lookup, store, erase, IsMap}
use arcgo.Sets.MultiSet.{or_none, elements_loop}

module _ {ℓ} {T : Type ℓ} where
  abbrev pub total : List (T × ℕ) → ℕ
  total [] = 0
  total ((k, n) ∷ m) = n + total m

  -- No count is 0.
  abbrev pub IsPositive : List (T × ℕ) → Type 0
  IsPositive [] = Unit
  IsPositive ((k, n) ∷ m) = (1 ≤ n) × IsPositive m

  pub length-elements_loop : (m : List (T × ℕ)) → length (elements_loop m) ≡ total m
  unfolding elements_loop
  length-elements_loop [] = refl
  length-elements_loop ((k, n) ∷ m) = omega (
    arith,
    length-append (replicate n k) (elements_loop m),
    length-replicate n k,
    length-elements_loop m,
  )

module _ {ℓ} {T : Type ℓ} ⦃c : Comparable T⦄ where
  pub total-store :
      (m : List (T × ℕ)) (k : T) (n : ℕ) → total (store m k n) + or_none (lookup m k) ≡ total m + n
  unfolding store lookup
  total-store [] k n = omega arith
  total-store ((j, i) ∷ m) k n = elim (Bool-cases (c.same j k)) [
    | inl e ↦ rw e (omega arith)
    | inr e ↦ rw e (omega (arith, total-store m k n))
  ]

  erase-absent : (m : List (T × ℕ)) (k : T) → lookup m k ≡ none → erase m k ≡ m
  unfolding erase lookup
  erase-absent [] k h = refl
  erase-absent ((j, i) ∷ m) k h = elim (Bool-cases (c.same j k)) [
    | inl e ↦ cc (rw e at h)
    | inr e ↦ rw e (ap (◌∷◌ (j, i)) (erase-absent m k (rw e at h)))
  ]

  pub total-erase :
      (m : List (T × ℕ)) (k : T) → IsMap m → total (erase m k) + or_none (lookup m k) ≡ total m
  unfolding erase lookup
  total-erase [] k h = omega arith
  total-erase ((j, i) ∷ m) k h = elim (Bool-cases (c.same j k)) [
    | inl e ↦
        let gone =
          erase-absent m k
            (ap (lookup m) (sym (c.same_sound j k e)) ∙ is_some→none (lookup m j) h.0) in
        rw (e, gone) (omega arith)
    | inr e ↦ rw e (omega (arith, total-erase m k h.1))
  ]

  pub store-IsPositive :
      (m : List (T × ℕ)) (k : T) (n : ℕ) → 1 ≤ n → IsPositive m → IsPositive (store m k n)
  unfolding store
  store-IsPositive [] k n p h = (p, tt)
  store-IsPositive ((j, i) ∷ m) k n p h = elim (Bool-cases (c.same j k)) [
    | inl e ↦ rw e (p, h.1)
    | inr e ↦ rw e (h.0, store-IsPositive m k n p h.1)
  ]

  pub erase-IsPositive : (m : List (T × ℕ)) (k : T) → IsPositive m → IsPositive (erase m k)
  unfolding erase
  erase-IsPositive [] k h = tt
  erase-IsPositive ((j, i) ∷ m) k h = elim (Bool-cases (c.same j k)) [
    | inl e ↦ rw e (erase-IsPositive m k h.1)
    | inr e ↦ rw e (h.0, erase-IsPositive m k h.1)
  ]

  pub lookup-le-total : (m : List (T × ℕ)) (k : T) → or_none (lookup m k) ≤ total m
  unfolding lookup
  lookup-le-total [] k = omega arith
  lookup-le-total ((j, i) ∷ m) k = elim (Bool-cases (c.same j k)) [
    | inl e ↦ rw e (omega arith)
    | inr e ↦ rw e (omega (arith, lookup-le-total m k))
  ]

  -- How often an item stands in a list.
  abbrev pub occurrences : T → List T → ℕ
  occurrences x [] = 0
  occurrences x (y ∷ ys) = (if c.same y x then 1 else 0) + occurrences x ys

  occurrences-append :
      (x : T) (ys zs : List T) → occurrences x (ys ++ zs) ≡ occurrences x ys + occurrences x zs
  occurrences-append x [] zs = omega arith
  occurrences-append x (y ∷ ys) zs = omega (arith, occurrences-append x ys zs)

  occurrences-replicate :
      (x y : T) (n : ℕ) → occurrences x (replicate n y) ≡ (if c.same y x then n else 0)
  occurrences-replicate x y zero = ground arith
  occurrences-replicate x y (suc n) = ground (arith, occurrences-replicate x y n)

  absent : (m : List (T × ℕ)) (x : T) → lookup m x ≡ none → occurrences x (elements_loop m) ≡ 0
  unfolding lookup elements_loop
  absent [] x h = refl
  absent ((j, n) ∷ m) x h = elim (Bool-cases (c.same j x)) [
    | inl e ↦ cc (rw e at h)
    | inr e ↦ omega (
      arith,
      occurrences-append x (replicate n j) (elements_loop m),
      occurrences-replicate x j n ∙ ap (λ b. if b then n else 0) e,
      absent m x (rw e at h),
    )
  ]

  pub occurrences-elements_loop :
      (m : List (T × ℕ)) (x : T) → IsMap m → occurrences x (elements_loop m) ≡ or_none (lookup m x)
  unfolding lookup elements_loop
  occurrences-elements_loop [] x h = refl
  occurrences-elements_loop ((j, n) ∷ m) x h =
      let both = occurrences-append x (replicate n j) (elements_loop m) in
      let here = occurrences-replicate x j n in
      elim (Bool-cases (c.same j x)) [
        | inl e ↦
            let gone =
              absent m x
                (ap (lookup m) (sym (c.same_sound j x e)) ∙ is_some→none (lookup m j) h.0) in
            both ∙ (rw (here, e, gone) (omega arith))
        | inr e ↦ both ∙ (rw (here, e) (omega (arith, occurrences-elements_loop m x h.1)))
      ]
