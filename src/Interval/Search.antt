-- ===== src/Interval/Search.antt =====
-- The standard library's `sort.Search`, as collectionx/interval calls it on a sorted slice.
use arcgo.Prelude.{
  ℕ, zero, suc, ◌+◌, ◌-◌, ◌/◌, ◌≤◌, ◌<◌, ◌≡◌, refl, Bool, true, false, List, [], ◌∷◌, none, some,
  arith, ltb, if◌then◌else◌, length, get_elem?, All,
}

-- `for i < j { h := (i+j)>>1; if !f(h) { i = h + 1 } else { j = h } }` on fuel; the rounds
-- shorten [i, j), so `j - i` of them are enough.
unfoldable pub sort_search_loop : ℕ → (ℕ → Bool) → ℕ → ℕ → ℕ
sort_search_loop zero f i j = i
sort_search_loop (suc k) f i j =
    let h = (i + j) / 2 in
    let rest = sort_search_loop k f (if f h then i else h + 1) (if f h then h else j) in
    if ltb i j then rest else i

unfoldable pub sort_search : ℕ → (ℕ → Bool) → ℕ
sort_search n f = sort_search_loop n f 0 n

-- The loop finds the index at which a predicate turns from false to true.
sort_search_loop-eq :
    (k : ℕ) (f : ℕ → Bool) (i j n t : ℕ)
    → ((m : ℕ) → m < t → f m ≡ false)
    → ((m : ℕ) → t ≤ m → m < n → f m ≡ true)
    → i ≤ t
    → t ≤ j
    → j ≤ n
    → j - i ≤ k
    → sort_search_loop k f i j ≡ t
unfolding sort_search_loop
sort_search_loop-eq zero f i j n t lo hi p q r s = omega arith
sort_search_loop-eq (suc k) f i j n t lo hi p q r s = ground (
  arith,
  lo ((i + j) / 2),
  hi ((i + j) / 2),
  sort_search_loop-eq k f (if f ((i + j) / 2) then i else (i + j) / 2 + 1)
      (if f ((i + j) / 2) then (i + j) / 2 else j) n t lo hi,
)

module _ {ℓ} {A : Type ℓ} (test : A → Bool) where
  -- The predicate on `slice[i]`; the search stays within the slice.
  abbrev pub test_at : List A → ℕ → Bool
  test_at l i = elim (get_elem? l i) [ some a ↦ test a | none ↦ false ]

  unfoldable pub search_first : List A → ℕ
  search_first l = sort_search (length l) (test_at l)

  -- The index of the first entry that passes, by a walk.
  unfoldable pub find_index : List A → ℕ
  find_index [] = 0
  find_index (a ∷ l) = if test a then 0 else suc (find_index l)

  -- Once an entry passes, all later ones do.
  abbrev pub IsMonotone : List A → Type 0
  IsMonotone [] = Unit
  IsMonotone (a ∷ l) = (test a ≡ true → All (λ b. test b ≡ true) l) × IsMonotone l

  find_index-le-length : (l : List A) → find_index l ≤ length l
  unfolding find_index
  find_index-le-length [] = omega arith
  find_index-le-length (a ∷ l) = ground (arith, find_index-le-length l)

  test_at_below : (l : List A) (m : ℕ) → m < find_index l → test_at l m ≡ false
  unfolding find_index
  test_at_below [] m h = refl
  test_at_below (a ∷ l) zero h = ground arith
  test_at_below (a ∷ l) (suc m) h = ground (arith, test_at_below l m)

  test_at-All :
      (l : List A) (m : ℕ) → All (λ b. test b ≡ true) l → m < length l → test_at l m ≡ true
  test_at-All [] m p h = absurd (omega arith)
  test_at-All (a ∷ l) zero p h = p.0
  test_at-All (a ∷ l) (suc m) p h = test_at-All l m p.1 (omega arith)

  test_at_above :
      (l : List A) (m : ℕ) → IsMonotone l → find_index l ≤ m → m < length l → test_at l m ≡ true
  unfolding find_index
  test_at_above [] m p q h = absurd (omega arith)
  test_at_above (a ∷ l) zero p q h = ground arith
  test_at_above (a ∷ l) (suc m) p q h = ground (arith, test_at_above l m p.1, test_at-All l m, p.0)

  pub search_first-eq-find_index : (l : List A) → IsMonotone l → search_first l ≡ find_index l
  unfolding search_first sort_search
  search_first-eq-find_index l p =
      sort_search_loop-eq (length l) (test_at l) 0 (length l) (length l) (find_index l)
        (test_at_below l) (λ m. test_at_above l m p) (omega arith) (find_index-le-length l)
        (omega arith) (omega arith)
