-- ===== src/Interval/RangeSet/Points.antt =====
-- collectionx/interval/range_set.go: which points the ranges hold, before and after AddRange and
-- Remove, and that the ranges stay normal.
use arcgo.Prelude.{
  ◌≡◌, refl, ◌∙◌, Bool, true, false, ◌||◌, List, [], ◌∷◌, arith, Bool-cases, inl, inr,
}
use arcgo.Prelude.Classes.{Ordered, ◌<?◌, ◌≤?◌}
use arcgo.Interval.Range
use arcgo.Interval.Range.{Range, is_valid}
use arcgo.Interval.RangeSet.{widen}
use arcgo.Interval.RangeSet.Spec.{IsAbove, IsNormal, absorb, insert_range}

module _ {ℓ} {T : Type ℓ} ⦃o : Ordered T⦄ where
  -- The set of points that the ranges stand for.
  abbrev pub covers : List (Range T) → T → Bool
  covers [] x = false
  covers (r ∷ rs) x = Range.contains r x || covers rs x

  -- Points below a lower bound of normal ranges are not covered.
  pub covers_below :
      (e x : T) (l : List (Range T))
      → IsAbove e l
      → IsNormal l
      → (x ≤? e) ≡ true
      → covers l x ≡ false
  covers_below e x [] a n h = refl
  covers_below e x (c ∷ cs) a n h =
      let low : (x <? c.end) ≡ true =
        grind (arith, o.lt_trans e c.start c.end, o.lt_trans x e c.end, o.lt_total x e) in
      grind (
        arith,
        covers_below c.end x cs n.1 n.2,
        o.lt_trans c.end x c.end,
        o.lt_trans x c.end x,
        o.lt_irrefl,
        o.lt_trans x e c.start,
        o.lt_total x e,
        o.lt_trans x c.start x,
      )

  -- The first of the ranges does not end before `m` starts.
  abbrev IsReached : Range T → List (Range T) → Type 0
  IsReached m [] = Unit
  IsReached m (c ∷ cs) = (m.start ≤? c.end) ≡ true

  widen-is_valid :
      (m c : Range T) → is_valid m ≡ true → is_valid c ≡ true → is_valid (widen m c) ≡ true
  widen-is_valid m c v w = grind (arith, o.lt_trans, o.lt_total)

  widen-IsReached :
      (m c : Range T) (cs : List (Range T))
      → is_valid c ≡ true
      → IsAbove c.end cs
      → IsNormal cs
      → (m.start ≤? c.end) ≡ true
      → IsReached (widen m c) cs
  widen-IsReached m c [] v a n h = tt
  widen-IsReached m c (d ∷ ds) v a n h = grind (
    arith,
    o.lt_trans c.end d.start d.end,
    o.lt_trans c.end d.end m.start,
    o.lt_trans c.end d.end c.start,
    o.lt_trans c.start c.end c.start,
    o.lt_irrefl,
  )

  contains-widen :
      (m c : Range T) (x : T)
      → is_valid m ≡ true
      → is_valid c ≡ true
      → (m.start ≤? c.end) ≡ true
      → (c.start ≤? m.end) ≡ true
      → Range.contains (widen m c) x ≡ (Range.contains m x || Range.contains c x)
  contains-widen m c x v w h k = grind (arith, o.lt_trans, o.lt_total)

  pub IsAbove-tail :
      (e : T) (c : Range T) (l : List (Range T))
      → (e <? c.end) ≡ true
      → IsAbove c.end l
      → IsAbove e l
  IsAbove-tail e c [] h a = tt
  IsAbove-tail e c (d ∷ ds) h a = o.lt_trans e c.end d.start h a

  absorb-IsAbove :
      (e : T) (m : Range T) (l : List (Range T))
      → (e <? m.start) ≡ true
      → IsAbove e l
      → IsNormal l
      → IsAbove e (absorb m l)
  unfolding absorb
  absorb-IsAbove e m [] h a n = h
  absorb-IsAbove e m (c ∷ cs) h a n =
      let past : (e <? c.end) ≡ true = o.lt_trans e c.start c.end a n.0 in
      let rest = absorb-IsAbove e (widen m c) cs in
      ground (arith, rest, IsAbove-tail e c cs past n.1)

  absorb-IsNormal :
      (m : Range T) (l : List (Range T)) → is_valid m ≡ true → IsNormal l → IsNormal (absorb m l)
  unfolding absorb
  absorb-IsNormal m [] v n = (v, tt, tt)
  absorb-IsNormal m (c ∷ cs) v n =
      ground (arith, absorb-IsNormal (widen m c) cs (widen-is_valid m c v n.0) n.2)

  covers-absorb :
      (m : Range T) (l : List (Range T)) (x : T)
      → is_valid m ≡ true
      → IsNormal l
      → IsReached m l
      → covers (absorb m l) x ≡ (Range.contains m x || covers l x)
  unfolding absorb
  covers-absorb m [] x v n h = refl
  covers-absorb m (c ∷ cs) x v n h = elim (Bool-cases (m.end <? c.start)) [
    | inl far ↦ rw far
    | inr near ↦ rw near (
        covers-absorb (widen m c) cs x (widen-is_valid m c v n.0) n.2
          (widen-IsReached m c cs n.0 n.1 n.2 h)
        ∙ ground (arith, contains-widen m c x v n.0 h))
  ]

  insert_range-IsAbove :
      (e : T) (r : Range T) (l : List (Range T))
      → (e <? r.start) ≡ true
      → IsAbove e l
      → IsNormal l
      → IsAbove e (insert_range r l)
  unfolding insert_range
  insert_range-IsAbove e r [] h a n = h
  insert_range-IsAbove e r (c ∷ cs) h a n = ground (arith, absorb-IsAbove e r (c ∷ cs) h a n)

  -- AddRange keeps the ranges normal.
  pub insert_range-IsNormal :
      (r : Range T) (l : List (Range T))
      → is_valid r ≡ true
      → IsNormal l
      → IsNormal (insert_range r l)
  unfolding insert_range
  insert_range-IsNormal r [] v n = (v, tt, tt)
  insert_range-IsNormal r (c ∷ cs) v n = elim (Bool-cases (c.end <? r.start)) [
    | inl h ↦
        rw h (n.0, insert_range-IsAbove c.end r cs h n.1 n.2, insert_range-IsNormal r cs v n.2)
    | inr h ↦ rw h (absorb-IsNormal r (c ∷ cs) v n)
  ]

  -- AddRange adds exactly the points of the range.
  pub covers-insert_range :
      (r : Range T) (l : List (Range T)) (x : T)
      → is_valid r ≡ true
      → IsNormal l
      → covers (insert_range r l) x ≡ (Range.contains r x || covers l x)
  unfolding insert_range
  covers-insert_range r [] x v n = refl
  covers-insert_range r (c ∷ cs) x v n =
      ground (arith, covers-absorb r (c ∷ cs) x v n, covers-insert_range r cs x v n.2)
