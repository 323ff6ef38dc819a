-- ===== src/Interval/RangeMap/Points.antt =====
-- collectionx/interval/range_map.go: the value at a point, before and after Put, and that the
-- entries stay normal.
use arcgo.Prelude.{
  ◌≡◌, refl, ap, true, not, List, [], ◌∷◌, Option, none, some, arith, if◌then◌else◌, Bool-cases,
  inl, inr,
}
use arcgo.Prelude.Classes.{Ordered, ◌<?◌, ◌≤?◌}
use arcgo.Interval.Range
use arcgo.Interval.Range.{Range, is_valid}
use arcgo.Interval.RangeMap.{RangeEntry, split_left_range_entry}
use arcgo.Interval.RangeMap.Spec.{IsAbove, IsNormal, after, put_entry}

module _ {ℓ κ} {T : Type ℓ} {V : Type κ} ⦃o : Ordered T⦄ where
  -- The partial function that the entries stand for.
  abbrev pub value_at : List (RangeEntry T V) → T → Option V
  value_at [] x = none
  value_at (r ∷ rs) x = if Range.contains r.range x then some r.value else value_at rs x

  -- No value lies below a lower bound of normal entries.
  pub value_at_below :
      (e x : T) (l : List (RangeEntry T V))
      → IsAbove e l
      → IsNormal l
      → (x <? e) ≡ true
      → value_at l x ≡ none
  value_at_below e x [] a n h = refl
  value_at_below e x (c ∷ cs) a n h = grind (
    arith,
    value_at_below c.range.end x cs n.1 n.2,
    o.lt_trans x e c.range.start,
    o.lt_total e c.range.start,
    o.lt_trans x c.range.start c.range.end,
  )

  pub IsAbove-tail :
      (e : T) (c : RangeEntry T V) (l : List (RangeEntry T V))
      → (e ≤? c.range.end) ≡ true
      → IsAbove c.range.end l
      → IsAbove e l
  IsAbove-tail e c [] h a = tt
  IsAbove-tail e c (d ∷ ds) h a = grind (
    arith,
    o.lt_trans d.range.start e c.range.end,
    o.lt_total e c.range.end,
    o.lt_total c.range.end d.range.start,
  )

  after-IsAbove : (e : T) (l : List (RangeEntry T V)) → IsNormal l → IsAbove e (after e l)
  unfolding after
  after-IsAbove e [] n = tt
  after-IsAbove e (c ∷ cs) n = grind (arith, after-IsAbove e cs n.2, o.lt_irrefl e)

  after-IsNormal : (e : T) (l : List (RangeEntry T V)) → IsNormal l → IsNormal (after e l)
  unfolding after
  after-IsNormal e [] n = tt
  after-IsNormal e (c ∷ cs) n = elim (Bool-cases (c.range.start <? e)) [
    | inr far ↦ rw far n
    | inl near ↦ elim (Bool-cases (e <? c.range.end)) [
      | inl within ↦ rw (near, within) (within, n.1, n.2)
      | inr past ↦ rw (near, past) (after-IsNormal e cs n.2)
    ]
  ]

  -- Behind `e` nothing changes.
  value_at-after :
      (e x : T) (l : List (RangeEntry T V))
      → IsNormal l
      → value_at (after e l) x ≡ (if x <? e then none else value_at l x)
  unfolding after
  value_at-after e x [] n = ground arith
  value_at-after e x (c ∷ cs) n = grind (
    arith,
    value_at-after e x cs n.2,
    value_at_below c.range.end x cs n.1 n.2,
    o.lt_trans,
    o.lt_total,
  )

  put_entry-IsAbove :
      (e : T) (input : RangeEntry T V) (l : List (RangeEntry T V))
      → (e ≤? input.range.start) ≡ true
      → IsAbove e l
      → IsAbove e (put_entry input l)
  unfolding put_entry split_left_range_entry
  put_entry-IsAbove e input [] h a = h
  put_entry-IsAbove e input (c ∷ cs) h a = ground arith

  pub put_entry-IsNormal :
      (input : RangeEntry T V) (l : List (RangeEntry T V))
      → is_valid input.range ≡ true
      → IsNormal l
      → IsNormal (put_entry input l)
  unfolding put_entry split_left_range_entry
  put_entry-IsNormal input [] v n = (v, tt, tt)
  put_entry-IsNormal input (c ∷ cs) v n = elim (Bool-cases (input.range.start <? c.range.end)) [
    | inr h ↦
        let above = put_entry-IsAbove c.range.end input cs (ap not h) n.1 in
        rw h (n.0, above, put_entry-IsNormal input cs v n.2)
    | inl h ↦ elim (Bool-cases (c.range.start <? input.range.end)) [
      | inr far ↦ rw (h, far) (v, ap not far, n)
      | inl near ↦
          let above = after-IsAbove input.range.end (c ∷ cs) n in
          let rest = after-IsNormal input.range.end (c ∷ cs) n in
          elim (Bool-cases (c.range.start <? input.range.start)) [
            | inl left ↦ rw (h, near, left) (left, ap not (o.lt_irrefl _), (v, above, rest))
            | inr start ↦ rw (h, near, start) (v, above, rest)
          ]
    ]
  ]

  pub value_at-put_entry :
      (input : RangeEntry T V) (l : List (RangeEntry T V)) (x : T)
      → is_valid input.range ≡ true
      → IsNormal l
      → value_at (put_entry input l) x
        ≡ (if Range.contains input.range x then some input.value else value_at l x)
  unfolding put_entry split_left_range_entry
  value_at-put_entry input [] x v n = refl
  value_at-put_entry input (c ∷ cs) x v n = elim (Bool-cases (input.range.start <? c.range.end)) [
    | inr h ↦ rw h (
        grind (
          arith,
          value_at-put_entry input cs x v n.2,
          o.lt_trans x c.range.end input.range.start,
          o.lt_total c.range.end input.range.start,
        ))
    | inl h ↦
        let cut = value_at-after input.range.end x (c ∷ cs) n in
        rw h (grind (arith, cut, value_at_below c.range.end x cs n.1 n.2, o.lt_trans, o.lt_total))
  ]
