-- ===== src/Interval/RangeSet/Cuts.antt =====
-- collectionx/interval/range_set.go: the points that Remove takes away, and its report.
use arcgo.Prelude.{
  ◌≡◌, refl, true, false, not, ◌||◌, ◌&&◌, List, [], ◌∷◌, ◌++◌, arith, Bool-cases, inl, inr,
}
use arcgo.Prelude.Classes.{Ordered, ◌<?◌, ◌≤?◌}
use arcgo.Interval.Range
use arcgo.Interval.Range.{Range, is_valid}
use arcgo.Interval.RangeSet.{trim_set_range}
use arcgo.Interval.RangeSet.Spec.{IsAbove, IsNormal, cut_from, cut_range}
use arcgo.Interval.RangeSet.Points.{covers, covers_below, IsAbove-tail}

module _ {ℓ} {T : Type ℓ} ⦃o : Ordered T⦄ where
  cut_from-IsAbove :
      (e : T) (cut : Range T) (l : List (Range T))
      → is_valid cut ≡ true
      → IsAbove e l
      → IsNormal l
      → IsAbove e (cut_from cut l)
  unfolding cut_from trim_set_range
  cut_from-IsAbove e cut [] v a n = tt
  cut_from-IsAbove e cut (c ∷ cs) v a n =
      let past : (e <? c.end) ≡ true = o.lt_trans e c.start c.end a n.0 in
      grind (
        arith,
        cut_from-IsAbove e cut cs v (IsAbove-tail e c cs past n.1) n.2,
        IsAbove-tail e c cs past n.1,
        o.lt_trans e c.start cut.end,
      )

  -- The cut starts before the first of the ranges ends.
  abbrev IsReaching : Range T → List (Range T) → Type 0
  IsReaching cut [] = Unit
  IsReaching cut (c ∷ cs) = (cut.start <? c.end) ≡ true

  IsReaching-tail :
      (cut c : Range T) (cs : List (Range T))
      → (cut.start <? c.end) ≡ true
      → IsAbove c.end cs
      → IsNormal cs
      → IsReaching cut cs
  IsReaching-tail cut c [] h a n = tt
  IsReaching-tail cut c (d ∷ ds) h a n =
      o.lt_trans cut.start d.start d.end (o.lt_trans cut.start c.end d.start h a) n.0

  cut_from-IsNormal :
      (cut : Range T) (l : List (Range T))
      → is_valid cut ≡ true
      → IsReaching cut l
      → IsNormal l
      → IsNormal (cut_from cut l)
  unfolding cut_from trim_set_range
  cut_from-IsNormal cut [] v r n = tt
  cut_from-IsNormal cut (c ∷ cs) v r n =
      let rest = cut_from-IsNormal cut cs v (IsReaching-tail cut c cs r n.1 n.2) n.2 in
      let above = cut_from-IsAbove cut.start cut cs v (IsAbove-tail cut.start c cs r n.1) n.2 in
      elim (Bool-cases (c.start <? cut.end)) [
        | inr far ↦ rw far n
        | inl hit ↦ elim (Bool-cases (c.start <? cut.start)) [
          | inl left ↦ elim (Bool-cases (cut.end <? c.end)) [
            | inl more ↦ rw (hit, left, more) (left, v, (more, n.1, n.2))
            | inr done ↦ rw (hit, left, done) (left, above, rest)
          ]
          | inr none_left ↦ elim (Bool-cases (cut.end <? c.end)) [
            | inl more ↦ rw (hit, none_left, more) (more, n.1, n.2)
            | inr done ↦ rw (hit, none_left, done) rest
          ]
        ]
      ]

  -- What is left of one range.
  contains-trim :
      (c cut : Range T) (x : T)
      → is_valid cut ≡ true
      → is_valid c ≡ true
      → (cut.start <? c.end) ≡ true
      → (c.start <? cut.end) ≡ true
      → covers (trim_set_range c cut).0 x ≡ (Range.contains c x && not (Range.contains cut x))
  unfolding trim_set_range
  contains-trim c cut x v w r h = grind (arith, o.lt_trans, o.lt_total)

  -- Points that the cut contains lie below what follows a range that ends behind the cut.
  covers_beyond :
      (c cut : Range T) (cs : List (Range T)) (x : T)
      → IsAbove c.end cs
      → IsNormal cs
      → (c.end <? cut.end) ≡ false
      → Range.contains cut x ≡ true
      → covers cs x ≡ false
  covers_beyond c cut cs x a n h k =
      let low : (x ≤? c.end) ≡ true = grind (arith, o.lt_trans c.end x cut.end) in
      covers_below c.end x cs a n low

  trim-stops : (c cut : Range T) → (trim_set_range c cut).1 ≡ (cut.end <? c.end)
  unfolding trim_set_range
  trim-stops c cut = ground arith

  covers-append :
      (xs ys : List (Range T)) (x : T) → covers (xs ++ ys) x ≡ (covers xs x || covers ys x)
  covers-append [] ys x = refl
  covers-append (r ∷ xs) ys x = ground (arith, covers-append xs ys x)

  covers-cut_from :
      (cut : Range T) (l : List (Range T)) (x : T)
      → is_valid cut ≡ true
      → IsReaching cut l
      → IsNormal l
      → covers (cut_from cut l) x ≡ (covers l x && not (Range.contains cut x))
  unfolding cut_from
  covers-cut_from cut [] x v r n = refl
  covers-cut_from cut (c ∷ cs) x v r n = elim (Bool-cases (c.start <? cut.end)) [
    | inr far ↦ rw far (
        grind (
          arith,
          covers_beyond c cut cs x n.1 n.2,
          o.lt_trans c.start c.end cut.end n.0,
          o.lt_trans x cut.end c.start,
          o.lt_total cut.end c.start,
        ))
    | inl hit ↦
        let kept = contains-trim c cut x v n.0 r hit in
        let rest = covers-cut_from cut cs x v (IsReaching-tail cut c cs r n.1 n.2) n.2 in
        rw (hit, trim-stops c cut)
          (grind (
            arith,
            kept,
            rest,
            covers-append (trim_set_range c cut).0 cs x,
            covers-append (trim_set_range c cut).0 (cut_from cut cs) x,
            covers_beyond c cut cs x n.1 n.2,
            o.lt_trans c.end cut.end c.end,
            o.lt_irrefl c.end,
          ))
  ]

  cut_range-IsAbove :
      (e : T) (cut : Range T) (l : List (Range T))
      → is_valid cut ≡ true
      → IsAbove e l
      → IsNormal l
      → IsAbove e (cut_range cut l).0
  unfolding cut_range
  cut_range-IsAbove e cut [] v a n = tt
  cut_range-IsAbove e cut (c ∷ cs) v a n = elim (Bool-cases (cut.start <? c.end)) [
    | inl r ↦ rw r (cut_from-IsAbove e cut (c ∷ cs) v a n)
    | inr r ↦ rw r a
  ]

  -- Remove keeps the ranges normal.
  pub cut_range-IsNormal :
      (cut : Range T) (l : List (Range T))
      → is_valid cut ≡ true
      → IsNormal l
      → IsNormal (cut_range cut l).0
  unfolding cut_range
  cut_range-IsNormal cut [] v n = tt
  cut_range-IsNormal cut (c ∷ cs) v n = elim (Bool-cases (cut.start <? c.end)) [
    | inl r ↦ rw r (cut_from-IsNormal cut (c ∷ cs) v r n)
    | inr r ↦ rw r (n.0, cut_range-IsAbove c.end cut cs v n.1 n.2, cut_range-IsNormal cut cs v n.2)
  ]

  -- Remove takes away exactly the points of the cut.
  pub covers-cut_range :
      (cut : Range T) (l : List (Range T)) (x : T)
      → is_valid cut ≡ true
      → IsNormal l
      → covers (cut_range cut l).0 x ≡ (covers l x && not (Range.contains cut x))
  unfolding cut_range
  covers-cut_range cut [] x v n = refl
  covers-cut_range cut (c ∷ cs) x v n = elim (Bool-cases (cut.start <? c.end)) [
    | inl r ↦ rw r (covers-cut_from cut (c ∷ cs) x v r n)
    | inr r ↦ rw r (
        grind (
          arith,
          covers-cut_range cut cs x v n.2,
          o.lt_trans cut.start x c.end,
          o.lt_total cut.start x,
        ))
  ]
