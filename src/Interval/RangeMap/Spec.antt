-- ===== src/Interval/RangeMap/Spec.antt =====
-- collectionx/interval/range_map.go: Put and DeleteRange as walks over the entries, which the
-- searches and splices of the code are proved equal to.
use mathlib.Core.List.{append_assoc, append-nil}
use arcgo.Prelude.{
  ℕ, suc, ◌≡◌, refl, ap, ◌∙◌, Bool, true, false, not, ◌||◌, List, [], ◌∷◌, ◌++◌, arith,
  if◌then◌else◌, length, take, drop, nat_eqb, All, Bool-cases, inl, inr,
}
use arcgo.Prelude.Classes.{Ordered, ◌<?◌, ◌≤?◌}
use arcgo.Interval.Range.{Range, is_valid}
use arcgo.Interval.Search.{find_index, IsMonotone, search_first-eq-find_index}
use arcgo.Interval.RangeMap.{
  RangeEntry, optional, split_left_range_entry, split_right_loop, split_right_range_entry,
  build_put_range_entries, splice_range_entries, put_range_entry_at, put_range_entry,
  find_first_range_entry_ending_after, trim_range_entry, delete_loop, delete_range_entries,
}

module _ {ℓ κ} {T : Type ℓ} {V : Type κ} ⦃o : Ordered T⦄ where
  -- The first of the entries does not start before `e`.
  abbrev pub IsAbove : T → List (RangeEntry T V) → Type 0
  IsAbove e [] = Unit
  IsAbove e (c ∷ cs) = (e ≤? c.range.start) ≡ true

  -- The ranges are valid and sorted, and do not overlap.
  abbrev pub IsNormal : List (RangeEntry T V) → Type 0
  IsNormal [] = Unit
  IsNormal (r ∷ rs) = (is_valid r.range ≡ true) × IsAbove r.range.end rs × IsNormal rs

  -- What is left behind `e`.
  unfoldable pub after : T → List (RangeEntry T V) → List (RangeEntry T V)
  after e [] = []
  after e (c ∷ cs) =
      let rest = after e cs in
      if e ≤? c.range.start
      then c ∷ cs
      else if e <? c.range.end
      then record { range = record { start = e; end = c.range.end }; value = c.value } ∷ cs
      else rest

  unfoldable pub put_entry : RangeEntry T V → List (RangeEntry T V) → List (RangeEntry T V)
  put_entry input [] = input ∷ []
  put_entry input (c ∷ cs) =
      let rest = c ∷ put_entry input cs in
      if input.range.start <? c.range.end
      then (if input.range.end ≤? c.range.start
          then input ∷ c ∷ cs
          else optional (split_left_range_entry c input.range.start)
            ++ (input ∷ after input.range.end (c ∷ cs)))
      else rest

  unfoldable pub cut_from : Range T → List (RangeEntry T V) → List (RangeEntry T V)
  cut_from cut [] = []
  cut_from cut (c ∷ cs) =
      let fragments = (trim_range_entry c cut).0 in
      let rest = fragments ++ cut_from cut cs in
      if cut.end ≤? c.range.start
      then c ∷ cs
      else if (trim_range_entry c cut).1
      then fragments ++ cs
      else rest

  abbrev pub is_hit : Range T → List (RangeEntry T V) → Bool
  is_hit cut [] = false
  is_hit cut (c ∷ cs) = not (cut.end ≤? c.range.start)

  unfoldable pub cut_entries : Range T → List (RangeEntry T V) → List (RangeEntry T V) × Bool
  cut_entries cut [] = ([], false)
  cut_entries cut (c ∷ cs) =
      let (rest, changed) = cut_entries cut cs in
      if cut.start <? c.range.end
      then (cut_from cut (c ∷ cs), is_hit cut (c ∷ cs))
      else (c ∷ rest, changed)

  IsMonotone-after :
      (p e : T) (l : List (RangeEntry T V))
      → (p <? e) ≡ true
      → IsAbove e l
      → IsNormal l
      → All (λ r. (p <? r.range.end) ≡ true) l
  IsMonotone-after p e [] h a n = tt
  IsMonotone-after p e (c ∷ cs) h a n =
      let k : (p <? c.range.end) ≡ true = grind (
        arith,
        o.lt_trans p e c.range.end h,
        o.lt_trans e c.range.start c.range.end,
        o.lt_total e c.range.start,
      ) in
      (k, IsMonotone-after p c.range.end cs k n.1 n.2)

  pub IsNormal-IsMonotone :
      (p : T) (l : List (RangeEntry T V)) → IsNormal l → IsMonotone (λ r. p <? r.range.end) l
  IsNormal-IsMonotone p [] n = tt
  IsNormal-IsMonotone p (c ∷ cs) n =
      (λ h. IsMonotone-after p c.range.end cs h n.1 n.2, IsNormal-IsMonotone p cs n.2)

  split_right_loop_shift :
      (l : List (RangeEntry T V)) (i : ℕ) (e : T)
      → split_right_loop l (suc i) e ≡ (suc (split_right_loop l i e).0, (split_right_loop l i e).1)
  unfolding split_right_loop
  split_right_loop_shift [] i e = refl
  split_right_loop_shift (c ∷ cs) i e = ground (arith, split_right_loop_shift cs (suc i) e)

  split_right_loop-eq-after :
      (l : List (RangeEntry T V)) (e : T)
      → optional (split_right_loop l 0 e).1 ++ drop (split_right_loop l 0 e).0 l ≡ after e l
  unfolding split_right_loop after
  split_right_loop-eq-after [] e = refl
  split_right_loop-eq-after (c ∷ cs) e = elim (Bool-cases (c.range.start <? e)) [
    | inr far ↦ rw far
    | inl near ↦ elim (Bool-cases (e <? c.range.end)) [
      | inl within ↦ rw (near, within)
      | inr past ↦ rw (near, past, split_right_loop_shift cs 0 e) (split_right_loop-eq-after cs e)
    ]
  ]

  put_range_entry_at-zero :
      (c : RangeEntry T V) (cs : List (RangeEntry T V)) (input : RangeEntry T V)
      → put_range_entry_at 0 (c ∷ cs) input ≡ (
          if input.range.end ≤? c.range.start
          then input ∷ c ∷ cs
          else optional (split_left_range_entry c input.range.start)
            ++ (input ∷ after input.range.end (c ∷ cs)))
  unfolding put_range_entry_at splice_range_entries build_put_range_entries split_right_range_entry
  put_range_entry_at-zero c cs input = ground (
    arith,
    split_right_loop-eq-after (c ∷ cs) input.range.end,
    append_assoc (optional (split_left_range_entry c input.range.start))
        (input ∷ optional (split_right_loop (c ∷ cs) 0 input.range.end).1)
        (drop (split_right_loop (c ∷ cs) 0 input.range.end).0 (c ∷ cs)),
  )

  put_range_entry_at-suc :
      (n : ℕ) (c : RangeEntry T V) (cs : List (RangeEntry T V)) (input : RangeEntry T V)
      → put_range_entry_at (suc n) (c ∷ cs) input ≡ c ∷ put_range_entry_at n cs input
  unfolding put_range_entry_at splice_range_entries build_put_range_entries split_right_range_entry
  put_range_entry_at-suc n c cs input =
      ground (arith, split_right_loop_shift (drop n cs) n input.range.end)

  put_range_entry_at-find_index :
      (l : List (RangeEntry T V)) (input : RangeEntry T V)
      → put_range_entry_at (find_index (λ c. input.range.start <? c.range.end) l) l input
        ≡ put_entry input l
  unfolding find_index put_entry
  put_range_entry_at-find_index [] input = unfold put_range_entry_at in refl
  put_range_entry_at-find_index (c ∷ cs) input =
      elim (Bool-cases (input.range.start <? c.range.end)) [
        | inl h ↦ rw h (put_range_entry_at-zero c cs input)
        | inr h ↦ rw h (
            put_range_entry_at-suc _ c cs input
            ∙ ap (◌∷◌ c) (put_range_entry_at-find_index cs input))
      ]

  -- On normal entries, the search and the splices of `putRangeEntry` make the walk.
  pub put_range_entry-eq-put_entry :
      (l : List (RangeEntry T V)) (input : RangeEntry T V)
      → IsNormal l
      → put_range_entry l input ≡ put_entry input l
  unfolding put_range_entry find_first_range_entry_ending_after
  put_range_entry-eq-put_entry [] input n = unfold put_entry in refl
  put_range_entry-eq-put_entry (c ∷ cs) input n =
      rw (search_first-eq-find_index _ (c ∷ cs) (IsNormal-IsMonotone input.range.start (c ∷ cs) n))
        (put_range_entry_at-find_index (c ∷ cs) input)

  delete_loop-eq-cut_from :
      (l : List (RangeEntry T V)) (cut : Range T) (next : List (RangeEntry T V)) (changed : Bool)
      → delete_loop l cut next changed ≡ (next ++ cut_from cut l, changed || is_hit cut l)
  unfolding delete_loop cut_from
  delete_loop-eq-cut_from [] cut next changed = ground (arith, append-nil next)
  delete_loop-eq-cut_from (c ∷ cs) cut next changed =
      let fragments = (trim_range_entry c cut).0 in
      ground (
        arith,
        append_assoc next fragments cs,
        append_assoc next fragments (cut_from cut cs),
        delete_loop-eq-cut_from cs cut (next ++ fragments) true,
      )

  delete_at :
      (l : List (RangeEntry T V)) (cut : Range T) (front : List (RangeEntry T V))
      → let n = find_index (λ c. cut.start <? c.range.end) l in
        (if nat_eqb n (length l)
          then (front ++ l, false)
          else delete_loop (drop n l) cut (front ++ take n l) false)
        ≡ (front ++ (cut_entries cut l).0, (cut_entries cut l).1)
  unfolding find_index cut_entries
  delete_at [] cut front = refl
  delete_at (c ∷ cs) cut front = elim (Bool-cases (cut.start <? c.range.end)) [
    | inl h ↦
        rw h (
          ground
            (arith, append-nil front, delete_loop-eq-cut_from (c ∷ cs) cut (front ++ []) false))
    | inr h ↦ rw h (
        ground (
          arith,
          append_assoc front (c ∷ []) cs,
          append_assoc front (c ∷ []) (take (find_index (λ d. cut.start <? d.range.end) cs) cs),
          append_assoc front (c ∷ []) (cut_entries cut cs).0,
          delete_at cs cut (front ++ c ∷ []),
        ))
  ]

  -- On normal entries, the search and the loop of `deleteRangeEntries` make the walk.
  pub delete_range_entries-eq-cut_entries :
      (l : List (RangeEntry T V)) (cut : Range T)
      → IsNormal l
      → delete_range_entries l cut ≡ cut_entries cut l
  unfolding delete_range_entries find_first_range_entry_ending_after
  delete_range_entries-eq-cut_entries l cut n =
      rw (search_first-eq-find_index _ l (IsNormal-IsMonotone cut.start l n)) (delete_at l cut [])
