-- ===== src/Interval/RangeMap/Report.antt =====
-- collectionx/interval/range_map.go: what DeleteRange reports.
use arcgo.Prelude.{◌≡◌, refl, Bool, true, false, ◌||◌, List, [], ◌∷◌, arith, Bool-cases, inl, inr}
use arcgo.Prelude.Classes.{Ordered, ◌<?◌, ◌≤?◌}
use arcgo.Interval.Range
use arcgo.Interval.Range.{Range, is_valid}
use arcgo.Interval.RangeMap.{RangeEntry}
use arcgo.Interval.RangeMap.Spec.{IsAbove, IsNormal, cut_from, cut_entries}

module _ {ℓ κ} {T : Type ℓ} {V : Type κ} ⦃o : Ordered T⦄ where
  -- Some entry overlaps the cut.
  abbrev pub meets : Range T → List (RangeEntry T V) → Bool
  meets cut [] = false
  meets cut (c ∷ cs) = Range.overlaps c.range cut || meets cut cs

  meets_above :
      (cut : Range T) (e : T) (l : List (RangeEntry T V))
      → (cut.end ≤? e) ≡ true
      → IsAbove e l
      → IsNormal l
      → meets cut l ≡ false
  meets_above cut e [] h a n = refl
  meets_above cut e (c ∷ cs) h a n =
      let far : (cut.end ≤? c.range.end) ≡ true = grind (
        arith,
        o.lt_trans e c.range.start c.range.end,
        o.lt_trans c.range.start c.range.end cut.end,
        o.lt_total e c.range.start,
        o.lt_trans e c.range.start cut.end,
      ) in
      grind (
        arith,
        meets_above cut c.range.end cs far n.1 n.2,
        o.lt_trans e c.range.start cut.end,
        o.lt_total e c.range.start,
      )

  pub cut_entries-changed :
      (cut : Range T) (l : List (RangeEntry T V)) → IsNormal l → (cut_entries cut l).1 ≡ meets cut l
  unfolding cut_entries
  cut_entries-changed cut [] n = refl
  cut_entries-changed cut (c ∷ cs) n = elim (Bool-cases (cut.start <? c.range.end)) [
    | inl h ↦ rw h (
        grind
          (arith, meets_above cut c.range.end cs, o.lt_trans c.range.start c.range.end cut.end n.0))
    | inr h ↦ rw h (ground (arith, cut_entries-changed cut cs n.2))
  ]

  -- A cut that meets no entry changes nothing.
  pub cut_entries-kept :
      (cut : Range T) (l : List (RangeEntry T V)) → meets cut l ≡ false → (cut_entries cut l).0 ≡ l
  unfolding cut_entries cut_from
  cut_entries-kept cut [] h = refl
  cut_entries-kept cut (c ∷ cs) h = ground (arith, cut_entries-kept cut cs)
