-- ===== src/Interval/RangeMap.antt =====
-- collectionx/interval/range_map.go and the RangeMap part of json.go: values on sorted ranges that
-- do not overlap. The methods take and return the state; a nil receiver, for which they do
-- nothing, is left out. A nil slice is an empty list.
pub mod Spec
pub mod Points
pub mod Cuts
pub mod Report
pub mod Methods
mod Tests
use arcgo.Prelude.{
  ℕ, suc, Bool, true, false, not, ◌&&◌, List, [], ◌∷◌, ◌++◌, Option, none, some, if◌then◌else◌,
  length, get_elem?, take, drop, nat_eqb, is_nil,
}
use arcgo.Prelude.Cache.{JsonCache, no_cache, invalidated}
use arcgo.Prelude.Classes.{Ordered, ◌<?◌, ◌≤?◌}
use arcgo.Interval.Range
use arcgo.Interval.Range.{Range, is_valid}
use arcgo.Interval.Search.{search_first}

pub record RangeEntry {ℓ κ} (T : Type ℓ) (V : Type κ) : Type (ℓ ⊔ κ) where
  pub range : Range T
  pub value : V

pub record RangeMap {ℓ κ} (T : Type ℓ) (V : Type κ) : Type (ℓ ⊔ κ) where
  pub entries : List (RangeEntry T V)
  pub entries_cache : List (RangeEntry T V)
  pub entries_dirty : Bool
  pub json : JsonCache

pub new_range_map {ℓ κ} : {T : Type ℓ} {V : Type κ} → RangeMap T V
new_range_map = record { entries = []; entries_cache = []; entries_dirty = false; json = no_cache }

module _ {ℓ κ} {T : Type ℓ} {V : Type κ} where
  abbrev invalidate_derived_caches : RangeMap T V → RangeMap T V
  invalidate_derived_caches m = record m {
    entries_cache = [];
    entries_dirty = true;
    json = invalidated;
  }

  pub splice_range_entries :
      List (RangeEntry T V) → ℕ → ℕ → List (RangeEntry T V) → List (RangeEntry T V)
  splice_range_entries entries start end replacement =
      take start entries ++ (replacement ++ drop end entries)

  -- `Entries`: the copy, and the state with its cache filled.
  pub get_entries : RangeMap T V → List (RangeEntry T V) × RangeMap T V
  get_entries m =
      if is_nil m.entries
      then ([], m)
      else if not m.entries_dirty && not (is_nil m.entries_cache)
      then (m.entries_cache, m)
      else (m.entries, record m { entries_cache = m.entries; entries_dirty = false })

  pub len : RangeMap T V → ℕ
  len m = length m.entries

  pub is_empty : RangeMap T V → Bool
  is_empty m = nat_eqb (len m) 0

  pub clear : RangeMap T V → RangeMap T V
  clear m = record { entries = []; entries_cache = []; entries_dirty = false; json = no_cache }

  -- `Range`: the entries handed to `fn`, up to the first that it refuses.
  pub range_loop : (RangeEntry T V → Bool) → List (RangeEntry T V) → List (RangeEntry T V)
  range_loop fn [] = []
  range_loop fn (e ∷ es) = let rest = range_loop fn es in e ∷ (if fn e then rest else [])

  pub range : (RangeEntry T V → Bool) → RangeMap T V → List (RangeEntry T V)
  range fn m = range_loop fn m.entries

module _ {ℓ κ} {T : Type ℓ} {V : Type κ} ⦃o : Ordered T⦄ where
  -- `none` is the zero entry with `false`.
  pub new_range_entry : T → T → V → Option (RangeEntry T V)
  new_range_entry start end value =
      let input : Range T = record { start = start; end = end } in
      if not (is_valid input) then none else some (record { range = input; value = value })

  pub find_first_range_entry_ending_after : List (RangeEntry T V) → T → ℕ
  find_first_range_entry_ending_after entries point =
      search_first (λ e. point <? e.range.end) entries

  unfoldable pub split_left_range_entry : RangeEntry T V → T → Option (RangeEntry T V)
  split_left_range_entry entry split_at =
      if split_at ≤? entry.range.start
      then none
      else some (record {
        range = record { start = entry.range.start; end = split_at };
        value = entry.value;
      })

  -- The loop over `entries[index:]`; the entry is `none` where the code returns `false`.
  pub split_right_loop : List (RangeEntry T V) → ℕ → T → ℕ × Option (RangeEntry T V)
  split_right_loop [] index end = (index, none)
  split_right_loop (entry ∷ rest) index end =
      let more = split_right_loop rest (suc index) end in
      if end ≤? entry.range.start
      then (index, none)
      else if end <? entry.range.end
      then (
        suc index,
        some
            (record { range = record { start = end; end = entry.range.end }; value = entry.value }),
      )
      else more

  pub split_right_range_entry : List (RangeEntry T V) → ℕ → T → ℕ × Option (RangeEntry T V)
  split_right_range_entry entries first end = split_right_loop (drop first entries) first end

  -- An optional entry, appended to a slice.
  abbrev pub optional : Option (RangeEntry T V) → List (RangeEntry T V)
  optional none = []
  optional (some e) = e ∷ []

  -- `current` is `entries[first]`.
  pub build_put_range_entries :
      List (RangeEntry T V) → ℕ → RangeEntry T V → RangeEntry T V → List (RangeEntry T V) × ℕ
  build_put_range_entries entries first current input =
      let left = optional (split_left_range_entry current input.range.start) in
      let (end, right) = split_right_range_entry entries first input.range.end in
      (left ++ (input ∷ optional right), end)

  -- What follows the search in `putRangeEntry`; `none` would be a read out of range.
  pub put_range_entry_at : ℕ → List (RangeEntry T V) → RangeEntry T V → List (RangeEntry T V)
  put_range_entry_at first entries input =
      if nat_eqb first (length entries)
      then entries ++ input ∷ []
      else elim (get_elem? entries first) [
        | none ↦ entries
        | some current ↦
            if input.range.end ≤? current.range.start
            then splice_range_entries entries first first (input ∷ [])
            else let (replacement, end) = build_put_range_entries entries first current input in
              splice_range_entries entries first end replacement
      ]

  pub put_range_entry : List (RangeEntry T V) → RangeEntry T V → List (RangeEntry T V)
  put_range_entry entries input =
      if is_nil entries
      then entries ++ input ∷ []
      else put_range_entry_at (find_first_range_entry_ending_after entries input.range.start)
          entries input

  -- The fragments that are left of an entry, and whether the loop stops at it.
  pub trim_range_entry : RangeEntry T V → Range T → List (RangeEntry T V) × Bool
  trim_range_entry entry cut =
      let left : List (RangeEntry T V) =
        if entry.range.start <? cut.start
        then record {
          range = record { start = entry.range.start; end = cut.start };
          value = entry.value;
        }
          ∷ []
        else [] in
      let right : RangeEntry T V = record {
        range = record { start = cut.end; end = entry.range.end };
        value = entry.value;
      } in
      if cut.end <? entry.range.end then (left ++ right ∷ [], true) else (left, false)

  -- The loop over `entries[index:]`, with `next` and `changed`.
  pub delete_loop :
      List (RangeEntry T V) → Range T → List (RangeEntry T V) → Bool → List (RangeEntry T V) × Bool
  delete_loop [] cut next changed = (next, changed)
  delete_loop (entry ∷ rest) cut next changed =
      let fragments = (trim_range_entry entry cut).0 in
      let more = delete_loop rest cut (next ++ fragments) true in
      if cut.end ≤? entry.range.start
      then (next ++ entry ∷ rest, changed)
      else if (trim_range_entry entry cut).1
      then ((next ++ fragments) ++ rest, true)
      else more

  pub delete_range_entries : List (RangeEntry T V) → Range T → List (RangeEntry T V) × Bool
  delete_range_entries entries cut =
      let first = find_first_range_entry_ending_after entries cut.start in
      if nat_eqb first (length entries)
      then (entries, false)
      else delete_loop (drop first entries) cut (take first entries) false

  pub put : RangeMap T V → T → T → V → RangeMap T V × Bool
  unfolding new_range_entry
  put m start end value = elim (new_range_entry start end value) [
    | none ↦ (m, false)
    | some input ↦
        (invalidate_derived_caches (record m { entries = put_range_entry m.entries input }), true)
  ]

  pub get : RangeMap T V → T → Option V
  get m point =
      if is_nil m.entries
      then none
      else elim (get_elem? m.entries (find_first_range_entry_ending_after m.entries point)) [
        | none ↦ none
        | some e ↦ if Range.contains e.range point then some e.value else none
      ]

  pub delete_range : RangeMap T V → T → T → RangeMap T V × Bool
  delete_range m start end =
      let input : Range T = record { start = start; end = end } in
      if is_nil m.entries
      then (m, false)
      else if not (is_valid input)
      then (m, false)
      else let (next, changed) = delete_range_entries m.entries input in
        if changed
        then (invalidate_derived_caches (record m { entries = next }), changed)
        else (m, changed)
