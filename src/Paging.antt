-- ===== src/Paging.antt =====
-- dbx/paging/pagination.go: offset pagination. `int` has the 64 bits of `int64`, and `max_int` is
-- `maxInt()`; numbers are exact here, and the guards of the code are what keeps its sums and
-- products below that. The items of a result are a list.
pub mod Bounds
mod Tests
use arcgo.Prelude.{
  ℕ, zero, suc, ◌+◌, ◌-◌, ◌*◌, ◌/◌, Bool, true, false, List, [], ◌∷◌, if◌then◌else◌, ltb, leb, ◌&&◌,
  ◌||◌,
}
use arcgo.Prelude.Int.{ℤ, pos, negsuc}

abbrev pub default_page : ℕ
default_page = 1

abbrev pub default_page_size : ℕ
default_page_size = 20

-- `int(^uint(0) >> 1)` on a 64-bit machine
abbrev pub max_int : ℕ
max_int = 9223372036854775807

pub record Request : Type 0 where
  pub page : ℤ
  pub page_size : ℤ
  pub max_page_size : ℤ

-- `a < b` on integers
unfoldable pub int_lt : ℤ → ℤ → Bool
int_lt (pos a) (pos b) = ltb a b
int_lt (pos a) (negsuc b) = false
int_lt (negsuc a) (pos b) = true
int_lt (negsuc a) (negsuc b) = ltb b a

abbrev pub or_default : ℤ → ℕ → ℤ
or_default n fallback = if int_lt n (pos 1) then pos fallback else n

unfoldable pub normalize : Request → Request
normalize r =
    let page = or_default r.page default_page in
    let page_size = or_default r.page_size default_page_size in
    record r {
      page = page;
      page_size =
          if int_lt (pos 0) r.max_page_size && int_lt r.max_page_size page_size
          then r.max_page_size
          else page_size;
    }

unfoldable pub new_request : ℤ → ℤ → Request
new_request page page_size =
    normalize (record { page = page; page_size = page_size; max_page_size = pos 0 })

unfoldable pub with_max_page_size : Request → ℤ → Request
with_max_page_size r max_page_size = normalize (record r { max_page_size = max_page_size })

-- A division by zero would panic; the guard keeps the code from it.
unfoldable pub safe_offset : ℤ → ℤ → ℕ
safe_offset (pos page) (pos page_size) =
    let multiplier = page - 1 in
    if leb page default_page || leb page_size 0
    then 0
    else if ltb (max_int / page_size) multiplier
    then max_int
    else multiplier * page_size
safe_offset page page_size = 0

unfoldable pub offset : Request → ℕ
offset r = let n = normalize r in safe_offset n.page n.page_size

unfoldable pub limit : Request → ℤ
limit r = (normalize r).page_size

unfoldable pub total_pages : ℤ → ℤ → ℕ
total_pages (pos total) (pos page_size) =
    let pages = (total - 1) / page_size + 1 in
    if leb total 0 || leb page_size 0 then 0 else if ltb max_int pages then max_int else pages
total_pages total page_size = 0

pub record Result {ℓ} (E : Type ℓ) : Type ℓ where
  pub items : List E
  pub total : ℤ
  pub page : ℤ
  pub page_size : ℤ
  pub offset : ℕ
  pub total_pages : ℕ
  pub has_next : Bool
  pub has_previous : Bool

pub new_result {ℓ} : {E : Type ℓ} → List E → ℤ → Request → Result E
new_result items total request =
    let r = normalize request in
    let pages = total_pages total r.page_size in
    record {
      items = items;
      total = total;
      page = r.page;
      page_size = r.page_size;
      offset = offset r;
      total_pages = pages;
      has_next = int_lt r.page (pos pages);
      has_previous = int_lt (pos default_page) r.page;
    }

pub map_items {ℓ κ} : {E : Type ℓ} {R : Type κ} → (ℕ → E → R) → ℕ → List E → List R
map_items mapper i [] = []
map_items mapper i (e ∷ es) = mapper i e ∷ map_items mapper (suc i) es

pub map_result {ℓ κ} : {E : Type ℓ} {R : Type κ} → Result E → (ℕ → E → R) → Result R
map_result result mapper = record {
  items = map_items mapper 0 result.items;
  total = result.total;
  page = result.page;
  page_size = result.page_size;
  offset = result.offset;
  total_pages = result.total_pages;
  has_next = result.has_next;
  has_previous = result.has_previous;
}
