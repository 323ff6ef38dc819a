-- ===== src/Interval/RangeMap/Cuts.antt =====
-- collectionx/interval/range_map.go: the values that DeleteRange takes away, and its report.
use arcgo.Prelude.{
  ◌≡◌, true, false, List, [], ◌∷◌, Option, none, arith, if◌then◌else◌, Bool-cases, inl, inr,
}
use arcgo.Prelude.Classes.{Ordered, ◌<?◌, ◌≤?◌}
use arcgo.Interval.Range
use arcgo.Interval.Range.{Range, is_valid}
use arcgo.Interval.RangeMap.{RangeEntry, trim_range_entry}
use arcgo.Interval.RangeMap.Spec.{IsAbove, IsNormal, cut_from, cut_entries}
use arcgo.Interval.RangeMap.Points.{value_at, value_at_below, IsAbove-tail}

module _ {ℓ κ} {T : Type ℓ} {V : Type κ} ⦃o : Ordered T⦄ where
  -- The entries, with the points of the cut left out.
  abbrev pub value_outside : Range T → List (RangeEntry T V) → T → Option V
  value_outside cut l x = if Range.contains cut x then none else value_at l x

  cut_from-IsAbove :
      (e : T) (cut : Range T) (l : List (RangeEntry T V))
      → is_valid cut ≡ true
      → IsAbove e l
      → IsNormal l
      → IsAbove e (cut_from cut l)
  unfolding cut_from trim_range_entry
  cut_from-IsAbove e cut [] v a n = tt
  cut_from-IsAbove e cut (c ∷ cs) v a n =
      let past : (e ≤? c.range.end) ≡ true =
        grind (arith, o.lt_trans c.range.start c.range.end e, n.0) in
      grind (
        arith,
        cut_from-IsAbove e cut cs v (IsAbove-tail e c cs past n.1) n.2,
        IsAbove-tail e c cs past n.1,
        o.lt_trans c.range.start cut.end e,
        o.lt_total c.range.start e,
        o.lt_trans cut.end e c.range.start,
      )

  -- The cut starts before the first of the entries ends.
  abbrev IsReaching : Range T → List (RangeEntry T V) → Type 0
  IsReaching cut [] = Unit
  IsReaching cut (c ∷ cs) = (cut.start <? c.range.end) ≡ true

  IsReaching-tail :
      (cut : Range T) (c : RangeEntry T V) (cs : List (RangeEntry T V))
      → (cut.start <? c.range.end) ≡ true
      → IsAbove c.range.end cs
      → IsNormal cs
      → IsReaching cut cs
  IsReaching-tail cut c [] h a n = tt
  IsReaching-tail cut c (d ∷ ds) h a n = grind (
    arith,
    o.lt_trans cut.start c.range.end d.range.start h,
    o.lt_total c.range.end d.range.start,
    o.lt_trans cut.start d.range.start d.range.end,
  )

  cut_from-IsNormal :
      (cut : Range T) (l : List (RangeEntry T V))
      → is_valid cut ≡ true
      → IsReaching cut l
      → IsNormal l
      → IsNormal (cut_from cut l)
  unfolding cut_from trim_range_entry
  cut_from-IsNormal cut [] v r n = tt
  cut_from-IsNormal cut (c ∷ cs) v r n =
      let rest = cut_from-IsNormal cut cs v (IsReaching-tail cut c cs r n.1 n.2) n.2 in
      let low : (cut.start ≤? c.range.end) ≡ true =
        grind (arith, o.lt_trans cut.start c.range.end cut.start, o.lt_irrefl cut.start, r) in
      let above = cut_from-IsAbove cut.start cut cs v (IsAbove-tail cut.start c cs low n.1) n.2 in
      let gap : (cut.start ≤? cut.end) ≡ true =
        grind (arith, o.lt_trans cut.start cut.end cut.start, o.lt_irrefl cut.start) in
      elim (Bool-cases (c.range.start <? cut.end)) [
        | inr far ↦ rw far n
        | inl hit ↦ elim (Bool-cases (c.range.start <? cut.start)) [
          | inl left ↦ elim (Bool-cases (cut.end <? c.range.end)) [
            | inl more ↦ rw (hit, left, more) (left, gap, (more, n.1, n.2))
            | inr done ↦ rw (hit, left, done) (left, above, rest)
          ]
          | inr none_left ↦ elim (Bool-cases (cut.end <? c.range.end)) [
            | inl more ↦ rw (hit, none_left, more) (more, n.1, n.2)
            | inr done ↦ rw (hit, none_left, done) rest
          ]
        ]
      ]

  -- Points of the cut lie below what follows an entry that ends behind the cut.
  value_at_beyond :
      (c : RangeEntry T V) (cut : Range T) (cs : List (RangeEntry T V)) (x : T)
      → IsAbove c.range.end cs
      → IsNormal cs
      → (c.range.end <? cut.end) ≡ false
      → Range.contains cut x ≡ true
      → value_at cs x ≡ none
  value_at_beyond c cut cs x a n h k =
      let low : (x <? c.range.end) ≡ true =
        grind (arith, o.lt_trans x cut.end c.range.end, o.lt_total c.range.end cut.end) in
      value_at_below c.range.end x cs a n low

  value_at-cut_from :
      (cut : Range T) (l : List (RangeEntry T V)) (x : T)
      → is_valid cut ≡ true
      → IsReaching cut l
      → IsNormal l
      → value_at (cut_from cut l) x ≡ value_outside cut l x
  unfolding cut_from trim_range_entry
  value_at-cut_from cut [] x v r n = ground arith
  value_at-cut_from cut (c ∷ cs) x v r n =
      let rest = value_at-cut_from cut cs x v (IsReaching-tail cut c cs r n.1 n.2) n.2 in
      let beyond = value_at_beyond c cut cs x n.1 n.2 in
      let below = value_at_below c.range.end x cs n.1 n.2 in
      elim (Bool-cases (c.range.start <? cut.end)) [
        | inr far ↦ rw far (grind (arith, beyond, o.lt_trans, o.lt_total))
        | inl hit ↦ rw hit (grind (arith, rest, beyond, below, o.lt_trans, o.lt_total))
      ]

  cut_entries-IsAbove :
      (e : T) (cut : Range T) (l : List (RangeEntry T V))
      → is_valid cut ≡ true
      → IsAbove e l
      → IsNormal l
      → IsAbove e (cut_entries cut l).0
  unfolding cut_entries
  cut_entries-IsAbove e cut [] v a n = tt
  cut_entries-IsAbove e cut (c ∷ cs) v a n = elim (Bool-cases (cut.start <? c.range.end)) [
    | inl r ↦ rw r (cut_from-IsAbove e cut (c ∷ cs) v a n)
    | inr r ↦ rw r a
  ]

  pub cut_entries-IsNormal :
      (cut : Range T) (l : List (RangeEntry T V))
      → is_valid cut ≡ true
      → IsNormal l
      → IsNormal (cut_entries cut l).0
  unfolding cut_entries
  cut_entries-IsNormal cut [] v n = tt
  cut_entries-IsNormal cut (c ∷ cs) v n = elim (Bool-cases (cut.start <? c.range.end)) [
    | inl r ↦ rw r (cut_from-IsNormal cut (c ∷ cs) v r n)
    | inr r ↦
        rw r
          (n.0, cut_entries-IsAbove c.range.end cut cs v n.1 n.2, cut_entries-IsNormal cut cs v n.2)
  ]

  pub value_at-cut_entries :
      (cut : Range T) (l : List (RangeEntry T V)) (x : T)
      → is_valid cut ≡ true
      → IsNormal l
      → value_at (cut_entries cut l).0 x ≡ value_outside cut l x
  unfolding cut_entries
  value_at-cut_entries cut [] x v n = ground arith
  value_at-cut_entries cut (c ∷ cs) x v n = elim (Bool-cases (cut.start <? c.range.end)) [
    | inl r ↦ rw r (value_at-cut_from cut (c ∷ cs) x v r n)
    | inr r ↦ rw r (
        grind (
          arith,
          value_at-cut_entries cut cs x v n.2,
          o.lt_trans cut.start x c.range.end,
          o.lt_total cut.start x,
        ))
  ]
