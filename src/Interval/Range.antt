-- ===== src/Interval/Range.antt =====
-- collectionx/interval/range.go: the half-open range [start, end).
use arcgo.Prelude.{
  ◌≡◌, Bool, true, not, ◌&&◌, ◌||◌, Option, none, some, arith, if◌then◌else◌, is_some,
}
use arcgo.Prelude.Classes.{Ordered, ◌<?◌, ◌≤?◌, ◌=?◌}

pub record Range {ℓ} (T : Type ℓ) : Type ℓ where
  pub start : T
  pub end : T

module _ {ℓ} {T : Type ℓ} ⦃o : Ordered T⦄ where
  abbrev pub is_valid : Range T → Bool
  is_valid r = r.start <? r.end

  abbrev pub new_range : T → T → Range T × Bool
  new_range start end = let r : Range T = record { start = start; end = end } in (r, is_valid r)

  abbrev pub contains : Range T → T → Bool
  contains r value = (r.start ≤? value) && (value <? r.end)

  abbrev pub overlaps : Range T → Range T → Bool
  overlaps r other = (r.start <? other.end) && (other.start <? r.end)

  abbrev pub is_adjacent : Range T → Range T → Bool
  is_adjacent r other = (r.end =? other.start) || (other.end =? r.start)

  -- `none` is the zero range with `false`.
  unfoldable pub merge : Range T → Range T → Option (Range T)
  merge r other =
      if not (is_valid r) || not (is_valid other)
      then none
      else if not (overlaps r other) && not (is_adjacent r other)
      then none
      else some (record {
        start = if other.start <? r.start then other.start else r.start;
        end = if r.end <? other.end then other.end else r.end;
      })

  -- Merge succeeds exactly when both ranges are valid and they overlap or touch.
  pub merge-succeeds :
      (r other : Range T)
      → is_some (merge r other)
        ≡ (is_valid r && is_valid other && (overlaps r other || is_adjacent r other))
  unfolding merge
  merge-succeeds r other = ground arith

  -- A range that Merge returns is valid, and contains exactly the points of either range.
  pub contains-merge :
      (r other : Range T) {m : Range T} (x : T)
      → merge r other ≡ some m
      → (is_valid m ≡ true) × (contains m x ≡ (contains r x || contains other x))
  unfolding merge
  contains-merge r other x h =
      (grind (arith, o.lt_trans, o.lt_total), grind (arith, o.lt_trans, o.lt_total))
