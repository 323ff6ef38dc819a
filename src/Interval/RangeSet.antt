-- ===== src/Interval/RangeSet.antt =====
-- collectionx/interval/range_set.go and the RangeSet part of json.go: a set of points kept as
-- sorted ranges with gaps between them. The methods take and return the state; a nil receiver,
-- for which they do nothing, is left out. A nil slice is an empty list.
pub mod Spec
pub mod Points
pub mod Cuts
pub mod Json
pub mod Contains
pub mod Overlaps
pub mod Methods
pub mod Canonical
pub mod Coherent
pub mod Run
mod Tests
use arcgo.Prelude.{
  ℕ, zero, suc, ◌+◌, ◌≡◌, refl, Bool, true, false, not, ◌&&◌, ◌||◌, List, [], ◌∷◌, ◌++◌, Option,
  none, some, arith, if◌then◌else◌, length, get_elem?, take, drop, nat_eqb, is_nil,
}
use arcgo.Prelude.Cache.{Bytes, JsonCache, no_cache, invalidated, cached}
use arcgo.Prelude.Classes.{Ordered, ◌<?◌, ◌≤?◌}
use arcgo.Interval.Range
use arcgo.Interval.Range.{Range, is_valid}
use arcgo.Interval.Search.{search_first}

pub record RangeSet {ℓ} (T : Type ℓ) : Type ℓ where
  pub ranges : List (Range T)
  pub ranges_cache : List (Range T)
  pub ranges_dirty : Bool
  pub json : JsonCache

pub new_range_set {ℓ} : {T : Type ℓ} → RangeSet T
new_range_set = record { ranges = []; ranges_cache = []; ranges_dirty = false; json = no_cache }

module _ {ℓ} {T : Type ℓ} where
  abbrev invalidate_derived_caches : RangeSet T → RangeSet T
  invalidate_derived_caches s = record s {
    ranges_cache = [];
    ranges_dirty = true;
    json = invalidated;
  }

  pub splice_ranges : List (Range T) → ℕ → ℕ → List (Range T) → List (Range T)
  splice_ranges ranges start end replacement = take start ranges ++ (replacement ++ drop end ranges)

  -- `Ranges`: the copy, and the state with its cache filled.
  pub get_ranges : RangeSet T → List (Range T) × RangeSet T
  get_ranges s =
      if is_nil s.ranges
      then ([], s)
      else if not s.ranges_dirty && not (is_nil s.ranges_cache)
      then (s.ranges_cache, s)
      else (s.ranges, record s { ranges_cache = s.ranges; ranges_dirty = false })

  pub len : RangeSet T → ℕ
  len s = length s.ranges

  pub is_empty : RangeSet T → Bool
  is_empty s = nat_eqb (len s) 0

  pub clear : RangeSet T → RangeSet T
  clear s = record { ranges = []; ranges_cache = []; ranges_dirty = false; json = no_cache }

  -- `Range`: the ranges handed to `fn`, up to the first that it refuses.
  pub range_loop : (Range T → Bool) → List (Range T) → List (Range T)
  range_loop fn [] = []
  range_loop fn (r ∷ rs) = let rest = range_loop fn rs in r ∷ (if fn r then rest else [])

  pub range : (Range T → Bool) → RangeSet T → List (Range T)
  range fn s = range_loop fn s.ranges

module _ {ℓ} {T : Type ℓ} ⦃o : Ordered T⦄ where
  pub find_first_range_ending_at_or_after : List (Range T) → T → ℕ
  find_first_range_ending_at_or_after ranges point = search_first (λ r. point ≤? r.end) ranges

  pub find_first_range_ending_after : List (Range T) → T → ℕ
  find_first_range_ending_after ranges point = search_first (λ r. point <? r.end) ranges

  -- The body of the loop of `mergeSetRanges`.
  abbrev pub widen : Range T → Range T → Range T
  widen merged current = record {
    start = if current.start <? merged.start then current.start else merged.start;
    end = if merged.end <? current.end then current.end else merged.end;
  }

  -- The loop over `ranges[end:]`, with `merged` and `end`.
  pub merge_loop : List (Range T) → Range T → ℕ → Range T × ℕ
  merge_loop [] merged end = (merged, end)
  merge_loop (current ∷ rest) merged end =
      let next = merge_loop rest (widen merged current) (suc end) in
      if merged.end <? current.start then (merged, end) else next

  pub merge_set_ranges : List (Range T) → ℕ → Range T → Range T × ℕ
  merge_set_ranges ranges first merged = merge_loop (drop first ranges) merged first

  -- What follows the search in `addRangeToSet`; `none` would be a read out of range.
  pub add_range_at : ℕ → List (Range T) → Range T → List (Range T)
  add_range_at first ranges input =
      if nat_eqb first (length ranges)
      then ranges ++ input ∷ []
      else elim (get_elem? ranges first) [
        | none ↦ ranges
        | some current ↦
            if input.end <? current.start
            then splice_ranges ranges first first (input ∷ [])
            else let (merged, end) = merge_set_ranges ranges first input in
              splice_ranges ranges first end (merged ∷ [])
      ]

  pub add_range_to_set : List (Range T) → Range T → List (Range T)
  add_range_to_set ranges input =
      if is_nil ranges
      then ranges ++ input ∷ []
      else add_range_at (find_first_range_ending_at_or_after ranges input.start) ranges input

  -- The fragments that are left of a range, and whether the loop stops at it.
  pub trim_set_range : Range T → Range T → List (Range T) × Bool
  trim_set_range current cut =
      let left : List (Range T) =
        if current.start <? cut.start
        then record { start = current.start; end = cut.start } ∷ []
        else [] in
      if cut.end <? current.end
      then (left ++ record { start = cut.end; end = current.end } ∷ [], true)
      else (left, false)

  -- The loop over `ranges[index:]`, with `next` and `changed`.
  pub remove_loop : List (Range T) → Range T → List (Range T) → Bool → List (Range T) × Bool
  remove_loop [] cut next changed = (next, changed)
  remove_loop (current ∷ rest) cut next changed =
      let fragments = (trim_set_range current cut).0 in
      let more = remove_loop rest cut (next ++ fragments) true in
      if cut.end ≤? current.start
      then (next ++ current ∷ rest, changed)
      else if (trim_set_range current cut).1
      then ((next ++ fragments) ++ rest, true)
      else more

  pub remove_range_from_set : List (Range T) → Range T → List (Range T) × Bool
  remove_range_from_set ranges cut =
      let first = find_first_range_ending_after ranges cut.start in
      if nat_eqb first (length ranges)
      then (ranges, false)
      else remove_loop (drop first ranges) cut (take first ranges) false

  pub add_range : RangeSet T → Range T → RangeSet T × Bool
  add_range s r =
      if not (is_valid r)
      then (s, false)
      else (invalidate_derived_caches (record s { ranges = add_range_to_set s.ranges r }), true)

  pub add : RangeSet T → T → T → RangeSet T × Bool
  add s start end = add_range s (record { start = start; end = end })

  pub remove : RangeSet T → T → T → RangeSet T × Bool
  remove s start end =
      let cut : Range T = record { start = start; end = end } in
      if is_nil s.ranges
      then (s, false)
      else if not (is_valid cut)
      then (s, false)
      else let (next, changed) = remove_range_from_set s.ranges cut in
        if changed
        then (invalidate_derived_caches (record s { ranges = next }), changed)
        else (s, changed)

  pub contains : RangeSet T → T → Bool
  contains s value =
      if is_nil s.ranges
      then false
      else elim (get_elem? s.ranges (find_first_range_ending_after s.ranges value)) [
        | none ↦ false
        | some r ↦ Range.contains r value
      ]

  pub overlaps : RangeSet T → T → T → Bool
  overlaps s start end =
      let input : Range T = record { start = start; end = end } in
      if is_nil s.ranges
      then false
      else if not (is_valid input)
      then false
      else elim (get_elem? s.ranges (find_first_range_ending_after s.ranges input.start)) [
        | none ↦ false
        | some r ↦ r.start <? input.end
      ]
