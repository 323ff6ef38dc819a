-- ===== src/Paging/Bounds.antt =====
-- dbx/paging/pagination.go: normalized requests, and the arithmetic of offsets and pages within the
-- bounds of `int`.
use native.Mathlib.Nat.{
  add-mul, one-mul, mul_comm, zero-mul, le-div_iff_mul-le, div-le_self, div-mul-le_self,
  lt-mul-div-succ,
}
use Prim.Native.Nat.{min}
use mathlib.Core.Path.{subst, ap₂}
use arcgo.Prelude.{
  ℕ, ◌+◌, ◌-◌, ◌*◌, ◌/◌, ◌≤◌, ◌≡◌, refl, sym, ap, ◌∙◌, false, ◌&&◌, ◌||◌, List, arith,
  if◌then◌else◌, ltb, leb, Bool-cases, inl, inr,
}
use arcgo.Prelude.Int.{ℤ, pos, negsuc, clamp}
use arcgo.Paging.{
  Request, max_int, or_default, int_lt, normalize, safe_offset, offset, limit, total_pages,
  new_result,
}

-- A positive integer.
abbrev pub IsPos : ℤ → Type 0
IsPos n = n ≡ pos (clamp n) × 1 ≤ clamp n

or_default-IsPos : (n : ℤ) (fallback : ℕ) → 1 ≤ fallback → IsPos (or_default n fallback)
unfolding int_lt
or_default-IsPos (pos n) fallback h = elim (Bool-cases (ltb n 1)) [
  | inl e ↦ rw e (refl, h)
  | inr e ↦ rw e (refl, ground arith)
]
or_default-IsPos (negsuc n) fallback h = (refl, h)

-- The page size under the limit.
abbrev cap : ℤ → ℤ → ℤ
cap limit size = if int_lt (pos 0) limit && int_lt limit size then limit else size

capped :
    (limit : ℤ) (s : ℕ)
    → 1 ≤ s
    → IsPos (cap limit (pos s))
      × ((int_lt (pos 0) limit && int_lt limit (cap limit (pos s))) ≡ false)
unfolding int_lt
capped (pos m) s h = elim (Bool-cases (ltb 0 m && ltb m s)) [
  | inl e ↦ rw e ((refl, ground (arith, e)), ground arith)
  | inr e ↦ rw e ((refl, h), e)
]
capped (negsuc m) s h = ((refl, h), refl)

cap-IsPos :
    (limit size : ℤ)
    → IsPos size
    → IsPos (cap limit size) × ((int_lt (pos 0) limit && int_lt limit (cap limit size)) ≡ false)
cap-IsPos limit size h =
    subst
      (λ n. IsPos (cap limit n) × ((int_lt (pos 0) limit && int_lt limit (cap limit n)) ≡ false))
      (sym h.0) (capped limit (clamp size) h.1)

or_default_kept : (n : ℤ) (fallback : ℕ) → IsPos n → or_default n fallback ≡ n
unfolding int_lt
or_default_kept (pos n) fallback h = ground arith
or_default_kept (negsuc n) fallback h = cc (h.0)

-- A product that goes beyond the largest integer is found by the division before it is made.
offset_product :
    (p s : ℕ) → 1 ≤ s → (if ltb (max_int / s) p then max_int else p * s) ≡ min (p * s) max_int
offset_product p s h =
    let (fits, back) = le-div_iff_mul-le {k = s} {x = p} {y = max_int} h in
    ground (arith, fits, back)

safe_offset_lem :
    (p s : ℕ) → 1 ≤ p → 1 ≤ s → safe_offset (pos p) (pos s) ≡ min ((p - 1) * s) max_int
unfolding safe_offset
safe_offset_lem p s h k = elim (Bool-cases (leb p 1 || leb s 0)) [
  | inl e ↦ let first : p - 1 ≡ 0 = ground (arith, e) in rw (e, first) (omega (arith, zero-mul s))
  | inr e ↦ rw e (offset_product (p - 1) s k)
]

-- The page count is the number of pages that the rows fill, the last one perhaps in part; it stays
-- within `int`, and a page has a next one exactly if rows remain behind it.
pages_lem :
    (t s p : ℕ)
    → 1 ≤ s
    → 1 ≤ p
    → t ≤ max_int
    → (t ≤ total_pages (pos t) (pos s) * s)
      × (total_pages (pos t) (pos s) * s ≤ t + (s - 1))
      × (total_pages (pos t) (pos s) ≤ max_int)
      × (ltb p (total_pages (pos t) (pos s)) ≡ ltb (p * s) t)
unfolding total_pages
pages_lem t s p h k m = elim (Bool-cases (leb t 0 || leb s 0)) [
  | inl e ↦
      let empty : t ≡ 0 = ground (arith, e) in
      rw (e, empty) (omega arith, omega arith, omega arith, ground arith)
  | inr e ↦
      let positive : 1 ≤ t = ground (arith, e) in
      let q = (t - 1) / s in
      let small : ltb max_int (q + 1) ≡ false = ground (arith, e, div-le_self (t - 1) s) in
      let (fits, back) = le-div_iff_mul-le {k = s} {x = p} {y = t - 1} h in
      let rows : (q + 1) * s ≡ q * s + s = add-mul q 1 s ∙ ap (λ n. q * s + n) (one-mul s) in
      let enough : t ≤ (q + 1) * s =
        omega (arith, rows, lt-mul-div-succ (t - 1) h, mul_comm s (q + 1), positive) in
      let tight : (q + 1) * s ≤ t + (s - 1) =
        omega (arith, rows, div-mul-le_self (t - 1) s, positive) in
      rw (e, small) (enough, tight, ground (arith, small), ground (arith, fits, back, positive))
]

-- Normalize gives a page and a page size of at least 1, the page size within a positive maximum,
-- and normalizing again changes nothing.
pub normalize_lem :
    (r : Request)
    → let n = normalize r in
      IsPos n.page
      × IsPos n.page_size
      × ((int_lt (pos 0) n.max_page_size && int_lt n.max_page_size n.page_size) ≡ false)
      × (normalize n ≡ n)
unfolding normalize
normalize_lem r =
    let page = or_default-IsPos r.page 1 (omega arith) in
    let size = or_default-IsPos r.page_size 20 (omega arith) in
    let (valid, within) = cap-IsPos r.max_page_size (or_default r.page_size 20) size in
    let n = normalize r in
    let kept : cap n.max_page_size (or_default n.page_size 20) ≡ n.page_size =
      ap (cap n.max_page_size) (or_default_kept n.page_size 20 valid)
      ∙ ap (λ b. if b then n.max_page_size else n.page_size) within in
    (
      page,
      valid,
      within,
      ap₂ (λ a b. record r { page = a; page_size = b }) (or_default_kept n.page 1 page) kept,
    )

-- Offset is the exact product of the pages before and the page size, or the largest integer where
-- the product goes beyond it.
pub offset_lem :
    (r : Request)
    → let n = normalize r in offset r ≡ min ((clamp n.page - 1) * clamp n.page_size) max_int
unfolding offset
offset_lem r =
    let (page, size, within, same) = normalize_lem r in
    ap₂ safe_offset page.0 size.0
    ∙ safe_offset_lem (clamp (normalize r).page) (clamp (normalize r).page_size) page.1 size.1

-- For as many rows as an int64 counts, the page count of a result is the number of pages that the
-- rows fill, and a next page is reported exactly if rows remain behind the page.
pub new_result_lem {ℓ} :
    {E : Type ℓ} (items : List E) (t : ℕ) (r : Request)
    → t ≤ max_int
    → let n = normalize r in
      let s = clamp n.page_size in
      let out = new_result items (pos t) r in
      (t ≤ out.total_pages * s)
      × (out.total_pages * s ≤ t + (s - 1))
      × (out.total_pages ≤ max_int)
      × (out.has_next ≡ ltb (clamp n.page * s) t)
unfolding new_result int_lt
new_result_lem items t r m =
    let (page, size, within, same) = normalize_lem r in
    let p = clamp (normalize r).page in
    let s = clamp (normalize r).page_size in
    let (enough, tight, small, next) = pages_lem t s p size.1 page.1 m in
    let pages : total_pages (pos t) (normalize r).page_size ≡ total_pages (pos t) (pos s) =
      ap (total_pages (pos t)) size.0 in
    (
      subst (λ n. t ≤ n * s) (sym pages) enough,
      subst (λ n. n * s ≤ t + (s - 1)) (sym pages) tight,
      subst (λ n. n ≤ max_int) (sym pages) small,
      ap₂ int_lt page.0 (ap pos pages) ∙ next,
    )
