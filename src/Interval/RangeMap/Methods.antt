-- ===== src/Interval/RangeMap/Methods.antt =====
-- collectionx/interval/range_map.go: Get, Put and DeleteRange in terms of the partial function that
-- the map stands for.
use arcgo.Prelude.{
  ◌≡◌, refl, sym, ◌∙◌, ◌&&◌, List, [], ◌∷◌, Option, none, some, arith, if◌then◌else◌, get_elem?,
  is_nil, is_nil→nil, Bool-cases, inl, inr,
}
use arcgo.Prelude.Classes.{Ordered, ◌<?◌}
use arcgo.Interval.Range
use arcgo.Interval.Range.{Range}
use arcgo.Interval.Search.{find_index, search_first-eq-find_index}
use arcgo.Interval.RangeMap.{
  RangeEntry, RangeMap, put, get, delete_range, find_first_range_entry_ending_after,
}
use arcgo.Interval.RangeMap.Spec.{
  IsNormal, IsNormal-IsMonotone, put_entry, put_range_entry-eq-put_entry, cut_entries,
  delete_range_entries-eq-cut_entries,
}
use arcgo.Interval.RangeMap.Points.{
  value_at, value_at_below, put_entry-IsNormal, value_at-put_entry,
}
use arcgo.Interval.RangeMap.Cuts.{cut_entries-IsNormal, value_at-cut_entries}
use arcgo.Interval.RangeMap.Report.{meets, cut_entries-changed, cut_entries-kept}

module _ {ℓ κ} {T : Type ℓ} {V : Type κ} ⦃o : Ordered T⦄ where
  found_value :
      (l : List (RangeEntry T V)) (x : T)
      → IsNormal l
      → elim (get_elem? l (find_index (λ e. x <? e.range.end) l)) as (λ _. Option V) [
        | none ↦ none
        | some e ↦ if Range.contains e.range x then some e.value else none
      ]
        ≡ value_at l x
  unfolding find_index
  found_value [] x n = refl
  found_value (c ∷ cs) x n = elim (Bool-cases (x <? c.range.end)) [
    | inl h ↦ rw h (grind (arith, value_at_below c.range.end x cs n.1 n.2))
    | inr h ↦ rw h (ground (arith, found_value cs x n.2))
  ]

  -- Get answers by binary search what a walk over the entries answers.
  pub get-eq-value_at :
      (m : RangeMap T V) (x : T) → IsNormal m.entries → get m x ≡ value_at m.entries x
  unfolding get find_first_range_entry_ending_after
  get-eq-value_at m x n = elim (Bool-cases (is_nil m.entries)) [
    | inl e ↦ rw (is_nil→nil m.entries e)
    | inr e ↦
        rw (e, search_first-eq-find_index _ m.entries (IsNormal-IsMonotone x m.entries n))
          (found_value m.entries x n)
  ]

  module _ (m : RangeMap T V) (start end : T) (n : IsNormal m.entries) where
    abbrev input : Range T
    input = record { start = start; end = end }

    module _ (v : V) where
      abbrev entry : RangeEntry T V
      entry = record { range = input; value = v }

      put_entries :
          (put m start end v).0.entries
          ≡ (if start <? end then put_entry entry m.entries else m.entries)
      unfolding put
      put_entries = ground (arith, put_range_entry-eq-put_entry m.entries entry n)

      put_entries-IsNormal : IsNormal (put m start end v).0.entries
      put_entries-IsNormal = rw put_entries (elim (Bool-cases (start <? end)) [
        | inl k ↦ rw k (put_entry-IsNormal entry m.entries k n)
        | inr k ↦ rw k n
      ])

      -- On normal entries, Put succeeds exactly on a valid range; it keeps the entries normal, and
      -- Get then answers the value in the range and what it did before elsewhere.
      pub put_lem :
          (x : T)
          → ((put m start end v).1 ≡ (start <? end))
            × IsNormal (put m start end v).0.entries
            × (get (put m start end v).0 x ≡ (if Range.contains input x then some v else get m x))
      put_lem x = (
        unfold put in ground arith,
        put_entries-IsNormal,
        get-eq-value_at (put m start end v).0 x put_entries-IsNormal
            ∙ ground (
              arith,
              put_entries,
              get-eq-value_at m x n,
              value_at-put_entry entry m.entries x,
              o.lt_trans start x end,
              o.lt_total start x,
            ),
      )

    deleted_entries :
        ((delete_range m start end).1 ≡ ((start <? end) && meets input m.entries))
        × ((delete_range m start end).0.entries
            ≡ (if start <? end then (cut_entries input m.entries).0 else m.entries))
    unfolding delete_range
    deleted_entries = elim (Bool-cases (is_nil m.entries)) [
      | inl e ↦
          let none_left : m.entries ≡ [] = is_nil→nil m.entries e in
          rw none_left (elim (Bool-cases (start <? end)) [
            | inl v ↦ unfold cut_entries in rw v (refl, refl)
            | inr v ↦ rw v (refl, refl)
          ])
      | inr e ↦
          rw
            (
              e,
              delete_range_entries-eq-cut_entries m.entries input n,
              cut_entries-changed input m.entries n,
            )
            (elim (Bool-cases (start <? end)) [
              | inr v ↦ rw v (refl, refl)
              | inl v ↦ elim (Bool-cases (meets input m.entries)) [
                | inl k ↦ rw (v, k) (refl, refl)
                | inr k ↦ rw (v, k) (refl, sym (cut_entries-kept input m.entries k))
              ]
            ])
    ]

    deleted_entries-IsNormal : IsNormal (delete_range m start end).0.entries
    deleted_entries-IsNormal = rw (deleted_entries.1) (elim (Bool-cases (start <? end)) [
      | inl v ↦ rw v (cut_entries-IsNormal input m.entries v n)
      | inr v ↦ rw v n
    ])

    -- On normal entries, DeleteRange reports a change exactly when the range is valid and overlaps
    -- an entry; it keeps the entries normal, and Get then finds nothing in the range and what it
    -- did before elsewhere.
    pub delete_range_lem :
        (x : T)
        → ((delete_range m start end).1 ≡ ((start <? end) && meets input m.entries))
          × IsNormal (delete_range m start end).0.entries
          × (get (delete_range m start end).0 x
              ≡ (if Range.contains input x then none else get m x))
    delete_range_lem x = (
      deleted_entries.0,
      deleted_entries-IsNormal,
      get-eq-value_at (delete_range m start end).0 x deleted_entries-IsNormal
          ∙ ground (
            arith,
            deleted_entries.1,
            get-eq-value_at m x n,
            value_at-cut_entries input m.entries x,
            o.lt_trans start x end,
            o.lt_total start x,
          ),
    )
