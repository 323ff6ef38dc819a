-- ===== src/Interval/RangeSet/Canonical.antt =====
-- collectionx/interval/range_set.go: the normal ranges of a set of points are unique.
use mathlib.Core.Path.{subst, ap₂}
use arcgo.Prelude.{◌≡◌, refl, sym, ap, ◌∙◌, true, false, List, [], ◌∷◌, arith, Bool-cases, inl, inr}
use arcgo.Prelude.Classes.{Ordered, ◌<?◌}
use arcgo.Interval.Range.{Range}
use arcgo.Interval.RangeSet.{RangeSet, contains}
use arcgo.Interval.RangeSet.Contains.{contains-eq-covers}
use arcgo.Interval.RangeSet.Spec.{IsNormal}
use arcgo.Interval.RangeSet.Points.{covers, covers_below}

module _ {ℓ} {T : Type ℓ} ⦃o : Ordered T⦄ where
  covers_start :
      (c : Range T) (cs : List (Range T)) → IsNormal (c ∷ cs) → covers (c ∷ cs) c.start ≡ true
  covers_start c cs n = ground (arith, o.lt_irrefl c.start, n.0)

  covers_before :
      (x : T) (d : Range T) (ds : List (Range T))
      → IsNormal (d ∷ ds)
      → (x <? d.start) ≡ true
      → covers (d ∷ ds) x ≡ false
  covers_before x d ds n h = grind (
    arith,
    covers_below d.end x ds n.1 n.2,
    o.lt_trans x d.start d.end,
    o.lt_trans x d.end x,
    o.lt_irrefl x,
  )

  -- The start of the first range is the least point that both sets hold.
  start_unique :
      (c d : Range T) (cs ds : List (Range T))
      → IsNormal (c ∷ cs)
      → IsNormal (d ∷ ds)
      → ((x : T) → covers (c ∷ cs) x ≡ covers (d ∷ ds) x)
      → (c.start <? d.start) ≡ false
  start_unique c d cs ds n m h = elim (Bool-cases (c.start <? d.start)) [
    | inr k ↦ k
    | inl k ↦ cc (covers_start c cs n, covers_before c.start d ds m k, h c.start)
  ]

  -- The end of the first range is the next point that both sets leave out.
  end_unique :
      (c d : Range T) (cs ds : List (Range T))
      → IsNormal (c ∷ cs)
      → IsNormal (d ∷ ds)
      → ((x : T) → covers (c ∷ cs) x ≡ covers (d ∷ ds) x)
      → c.start ≡ d.start
      → (c.end <? d.end) ≡ false
  end_unique c d cs ds n m h e = elim (Bool-cases (c.end <? d.end)) [
    | inr k ↦ k
    | inl k ↦ ground (
      arith,
      h c.end,
      covers_below c.end c.end cs n.1 n.2,
      o.lt_irrefl c.end,
      o.lt_trans c.start c.end c.start n.0,
      o.lt_irrefl c.start,
      n.0,
    )
  ]

  tails-agree :
      (c : Range T) (cs ds : List (Range T))
      → IsNormal (c ∷ cs)
      → IsNormal (c ∷ ds)
      → ((x : T) → covers (c ∷ cs) x ≡ covers (c ∷ ds) x)
      → (x : T) → covers cs x ≡ covers ds x
  tails-agree c cs ds n m h x = ground (
    arith,
    h x,
    covers_below c.end x cs n.1 n.2,
    covers_below c.end x ds m.1 m.2,
    o.lt_trans x c.end x,
    o.lt_irrefl x,
  )

  -- Normal ranges with the same points are the same.
  pub canonical :
      (l m : List (Range T)) → IsNormal l → IsNormal m → ((x : T) → covers l x ≡ covers m x) → l ≡ m
  canonical [] [] n k h = refl
  canonical [] (d ∷ ds) n k h = cc (h d.start, covers_start d ds k)
  canonical (c ∷ cs) [] n k h = cc (h c.start, covers_start c cs n)
  canonical (c ∷ cs) (d ∷ ds) n k h =
      let start : c.start ≡ d.start =
        o.lt_total c.start d.start (start_unique c d cs ds n k h)
          (start_unique d c ds cs k n (λ x. sym (h x))) in
      let end : c.end ≡ d.end =
        o.lt_total c.end d.end (end_unique c d cs ds n k h start)
          (end_unique d c ds cs k n (λ x. sym (h x)) (sym start)) in
      let same : c ≡ d = λ i. record { start = start i; end = end i } in
      let k' : IsNormal (c ∷ ds) = subst (λ r. IsNormal (r ∷ ds)) (sym same) k in
      let agree = tails-agree c cs ds n k' (λ x. h x ∙ ap (λ r. covers (r ∷ ds) x) (sym same)) in
      ap₂ ◌∷◌ same (canonical cs ds n.2 k.2 agree)

  -- Two normal sets in which Contains accepts the same points keep the same ranges.
  pub ranges_unique :
      (s t : RangeSet T)
      → IsNormal s.ranges
      → IsNormal t.ranges
      → ((x : T) → contains s x ≡ contains t x)
      → s.ranges ≡ t.ranges
  ranges_unique s t n m h =
      canonical s.ranges t.ranges n m
        (λ x. sym (contains-eq-covers s x n) ∙ h x ∙ contains-eq-covers t x m)
