-- ===== src/Sequences/Deque/Run.antt =====
-- collectionx/list/deque.go: what a client sees over any sequence of calls.
use mathlib.Core.List.{reverse}
use mathlib.Core.Path.{ap₂}
use arcgo.Prelude.{◌≡◌, refl, ap, ◌∙◌, List, [], ◌∷◌, ◌++◌, Option, none, get_elem?}
use arcgo.Prelude.Classes.{Zero}
use arcgo.Prelude.Int.{ℤ, pos, negsuc}
use arcgo.Sequences.Ends.{oldest, rest, newest, but_newest}
use arcgo.Sequences.Deque
use arcgo.Sequences.Deque.{Deque}
use arcgo.Sequences.Deque.Grow.{IsValid, contents}
use arcgo.Sequences.Deque.Refine.{new_deque_lem, push_front_lem, push_back_lem}
use arcgo.Sequences.Deque.Reads.{pop_front_lem, pop_back_lem, get_lem, clear_deque_lem}

pub data Op {ℓ} (A : Type ℓ) : Type ℓ where
  push_front push_back : List A → Op A
  pop_front pop_back clear : Op A
  get : ℤ → Op A

abbrev pub lookup {ℓ} : {A : Type ℓ} → List A → ℤ → Option A
lookup xs (pos i) = get_elem? xs i
lookup xs (negsuc i) = none

-- The calls on a list, with what each returns.
pub replay {ℓ} : {A : Type ℓ} → List (Op A) → List A → List (Option A)
replay [] xs = []
replay (Op.push_front items ∷ ops) xs = none ∷ replay ops (reverse items ++ xs)
replay (Op.push_back items ∷ ops) xs = none ∷ replay ops (xs ++ items)
replay (Op.pop_front ∷ ops) xs = oldest xs ∷ replay ops (rest xs)
replay (Op.pop_back ∷ ops) xs = newest xs ∷ replay ops (but_newest xs)
replay (Op.clear ∷ ops) xs = none ∷ replay ops []
replay (Op.get i ∷ ops) xs = lookup xs i ∷ replay ops xs

module _ {ℓ} {A : Type ℓ} ⦃z : Zero A⦄ where
  unfoldable pub run : List (Op A) → Deque A → List (Option A)
  run [] d = []
  run (Op.push_front items ∷ ops) d = none ∷ run ops (Deque.push_front d items)
  run (Op.push_back items ∷ ops) d = none ∷ run ops (Deque.push_back d items)
  run (Op.pop_front ∷ ops) d = let (out, d') = Deque.pop_front d in out ∷ run ops d'
  run (Op.pop_back ∷ ops) d = let (out, d') = Deque.pop_back d in out ∷ run ops d'
  run (Op.clear ∷ ops) d = none ∷ run ops (Deque.clear d)
  run (Op.get i ∷ ops) d = Deque.get d i ∷ run ops d

  lookup_lem : (d : Deque A) (i : ℤ) → Deque.get d i ≡ lookup (contents d) i
  lookup_lem d (pos i) = (get_lem d i).0
  lookup_lem d (negsuc i) = (get_lem d i).1

  run_valid : (ops : List (Op A)) (d : Deque A) → IsValid d → run ops d ≡ replay ops (contents d)
  unfolding run replay
  run_valid [] d h = refl
  run_valid (Op.push_front items ∷ ops) d h =
      let (valid, now) = push_front_lem d items h in
      ap (◌∷◌ none) (run_valid ops (Deque.push_front d items) valid ∙ ap (replay ops) now)
  run_valid (Op.push_back items ∷ ops) d h =
      let (valid, now) = push_back_lem d items h in
      ap (◌∷◌ none) (run_valid ops (Deque.push_back d items) valid ∙ ap (replay ops) now)
  run_valid (Op.pop_front ∷ ops) d h =
      let (out, (valid, now)) = pop_front_lem d h in
      ap₂ ◌∷◌ out (run_valid ops (Deque.pop_front d).1 valid ∙ ap (replay ops) now)
  run_valid (Op.pop_back ∷ ops) d h =
      let (out, (valid, now)) = pop_back_lem d h in
      ap₂ ◌∷◌ out (run_valid ops (Deque.pop_back d).1 valid ∙ ap (replay ops) now)
  run_valid (Op.clear ∷ ops) d h =
      let ((valid, now), same) = clear_deque_lem d in
      ap (◌∷◌ none) (run_valid ops (Deque.clear d) valid ∙ ap (replay ops) now)
  run_valid (Op.get i ∷ ops) d h = ap₂ ◌∷◌ (lookup_lem d i) (run_valid ops d h)

  -- Over any sequence of calls, a new deque of some items returns what the list of these items
  -- returns, growth and the wrap of the indices included; PushFront puts its arguments before the
  -- list one by one, so in reverse of the argument order.
  pub deque_refines :
      (items : List A) (ops : List (Op A)) → run ops (Deque.new_deque items) ≡ replay ops items
  deque_refines items ops =
      let (valid, now) = new_deque_lem items in
      run_valid ops (Deque.new_deque items) valid ∙ ap (replay ops) now
