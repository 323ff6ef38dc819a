-- ===== src/Interval/RangeSet/Run.antt =====
-- collectionx/interval/range_set.go: what a client sees over any sequence of calls, caches
-- included.
use mathlib.Core.Path.{fun_ext}
use arcgo.Prelude.{◌≡◌, refl, ap, ◌∙◌, Bool, false, not, ◌&&◌, ◌||◌, List, [], ◌∷◌, Option}
use arcgo.Prelude.Cache.{Bytes}
use arcgo.Prelude.Classes.{Ordered}
use arcgo.Interval.Range
use arcgo.Interval.Range.{Range}
use arcgo.Interval.RangeSet
use arcgo.Interval.RangeSet.{RangeSet, new_range_set, contains, get_ranges}
use arcgo.Interval.RangeSet.Json.{to_json, string}
use arcgo.Interval.RangeSet.Methods.{add_lem, remove_lem}
use arcgo.Interval.RangeSet.Coherent.{
  IsCoherent, new_range_set-IsCoherent, clear-IsCoherent, add-IsCoherent, remove-IsCoherent,
  get_ranges_lem, to_json_lem, string_lem,
}

pub data Op {ℓ} (T : Type ℓ) : Type ℓ where
  add remove : T → T → Op T
  clear list_ranges marshal_json print : Op T

module _ {ℓ} {T : Type ℓ} ⦃o : Ordered T⦄ where
  -- The same call on a set of points.
  abbrev pub effect : Op T → (T → Bool) → T → Bool
  effect (Op.add a b) p x = p x || Range.contains (record { start = a; end = b }) x
  effect (Op.remove a b) p x = p x && not (Range.contains (record { start = a; end = b }) x)
  effect Op.clear p x = false
  effect _ p x = p x

  abbrev pub replay : List (Op T) → (T → Bool) → T → Bool
  replay [] p = p
  replay (op ∷ ops) p = replay ops (effect op p)

module _ {ℓ} {T : Type ℓ} ⦃o : Ordered T⦄ (marshal : List (Range T) → Option Bytes) where
  -- One call; what it answers is left to the theorems on each method.
  pub step : Bytes → Op T → RangeSet T → RangeSet T
  step fallback (Op.add a b) s = (RangeSet.add s a b).0
  step fallback (Op.remove a b) s = (RangeSet.remove s a b).0
  step fallback Op.clear s = RangeSet.clear s
  step fallback Op.list_ranges s = (get_ranges s).1
  step fallback Op.marshal_json s = (to_json marshal s).1
  step fallback Op.print s = (string marshal fallback s).1

  kept :
      (s t : RangeSet T)
      → t.ranges ≡ s.ranges
      → IsCoherent marshal t
      → IsCoherent marshal t × (contains t ≡ contains s)
  unfolding contains
  kept s t e c = (c, fun_ext (λ x. rw e))

  -- Every call keeps the set coherent, and acts on the points that Contains accepts as the
  -- abstract call does.
  pub step_refines :
      (fallback : Bytes) (op : Op T) (s : RangeSet T)
      → IsCoherent marshal s
      → IsCoherent marshal (step fallback op s)
        × (contains (step fallback op s) ≡ effect op (contains s))
  unfolding step
  step_refines fallback (Op.add a b) s c =
      (add-IsCoherent marshal s a b c, fun_ext (λ x. (add_lem s a b c.normal x).2))
  step_refines fallback (Op.remove a b) s c =
      (remove-IsCoherent marshal s a b c, fun_ext (λ x. (remove_lem s a b c.normal x).2))
  step_refines fallback Op.clear s c =
      (clear-IsCoherent marshal s, unfold contains RangeSet.clear in refl)
  step_refines fallback Op.list_ranges s c =
      let (r, e, c') = get_ranges_lem marshal s c in kept s (get_ranges s).1 e c'
  step_refines fallback Op.marshal_json s c =
      let (r, e, c') = to_json_lem marshal s c in kept s (to_json marshal s).1 e c'
  step_refines fallback Op.print s c =
      let (r, e, c') = string_lem marshal fallback s c in kept s (string marshal fallback s).1 e c'

  pub run : Bytes → List (Op T) → RangeSet T → RangeSet T
  run fallback [] s = s
  run fallback (op ∷ ops) s = run fallback ops (step fallback op s)

  run-IsCoherent :
      (fallback : Bytes) (ops : List (Op T)) (s : RangeSet T)
      → IsCoherent marshal s
      → IsCoherent marshal (run fallback ops s)
        × (contains (run fallback ops s) ≡ replay ops (contains s))
  unfolding run
  run-IsCoherent fallback [] s c = (c, refl)
  run-IsCoherent fallback (op ∷ ops) s c =
      let (c', acts) = step_refines fallback op s c in
      let (coherent, same) = run-IsCoherent fallback ops (step fallback op s) c' in
      (coherent, same ∙ ap (replay ops) acts)

  -- Over any sequence of calls on a new set, Contains answers as the abstract calls on the empty
  -- set of points do, and Ranges and ToJSON answer from the ranges as they are, whatever the
  -- caches hold.
  pub run_refines :
      (fallback : Bytes) (ops : List (Op T))
      → let s = run fallback ops new_range_set in
        (contains s ≡ replay ops (λ _. false))
        × ((get_ranges s).0 ≡ s.ranges)
        × ((to_json marshal s).0 ≡ marshal s.ranges)
  run_refines fallback ops =
      let (c, same) =
        run-IsCoherent fallback ops new_range_set (new_range_set-IsCoherent marshal) in
      let s = run fallback ops new_range_set in
      (
        same ∙ ap (replay ops) (unfold contains new_range_set in refl),
        (get_ranges_lem marshal s c).0,
        (to_json_lem marshal s c).0,
      )
