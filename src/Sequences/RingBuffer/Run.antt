-- ===== src/Sequences/RingBuffer/Run.antt =====
-- collectionx/list/ring_buffer.go: what a client sees over any sequence of calls.
use arcgo.Prelude.{ℕ, ◌≡◌, refl, ap, ◌∙◌, List, [], ◌∷◌, Option, none}
use mathlib.Core.Path.{ap₂}
use arcgo.Prelude.Classes.{Zero}
use arcgo.Prelude.Int.{ℤ, clamp}
use arcgo.Sequences.Circular.{window}
use arcgo.Sequences.Ends.{oldest, rest}
use arcgo.Sequences.RingBuffer
use arcgo.Sequences.RingBuffer.{RingBuffer, new_ring_buffer, capacity}
use arcgo.Sequences.RingBuffer.Refine.{
  enter, IsValid, contents, new_ring_buffer-IsValid, push-IsValid, pop-IsValid, capacity-new,
  capacity-push, capacity-pop, push_refines, pop_refines, reads_refine, clear_lem,
}

pub data Op {ℓ} (A : Type ℓ) : Type ℓ where
  push : A → Op A
  pop peek clear : Op A

-- The calls on a queue of at most `cap` items, with what each returns.
pub replay {ℓ} : {A : Type ℓ} → ℕ → List (Op A) → List A → List (Option A)
replay cap [] q = []
replay cap (Op.push v ∷ ops) q = let (out, q') = enter cap q v in out ∷ replay cap ops q'
replay cap (Op.pop ∷ ops) q = oldest q ∷ replay cap ops (rest q)
replay cap (Op.peek ∷ ops) q = oldest q ∷ replay cap ops q
replay cap (Op.clear ∷ ops) q = none ∷ replay cap ops []

module _ {ℓ} {A : Type ℓ} ⦃z : Zero A⦄ where
  unfoldable pub run : List (Op A) → RingBuffer A → List (Option A)
  run [] r = []
  run (Op.push v ∷ ops) r = let (out, r') = RingBuffer.push r v in out ∷ run ops r'
  run (Op.pop ∷ ops) r = let (out, r') = RingBuffer.pop r in out ∷ run ops r'
  run (Op.peek ∷ ops) r = RingBuffer.peek r ∷ run ops r
  run (Op.clear ∷ ops) r = none ∷ run ops (RingBuffer.clear r)

  run_valid :
      (ops : List (Op A)) (r : RingBuffer A)
      → IsValid r
      → run ops r ≡ replay (capacity r) ops (contents r)
  unfolding run replay
  run_valid [] r h = refl
  run_valid (Op.push v ∷ ops) r h =
      let (out, next) = push_refines r v h in
      ap₂ ◌∷◌ out (
        run_valid ops (RingBuffer.push r v).1 (push-IsValid r v h)
        ∙ ap₂ (λ c q. replay c ops q) (capacity-push r v) next)
  run_valid (Op.pop ∷ ops) r h =
      let (out, next) = pop_refines r h in
      ap₂ ◌∷◌ out (
        run_valid ops (RingBuffer.pop r).1 (pop-IsValid r h)
        ∙ ap₂ (λ c q. replay c ops q) (capacity-pop r) next)
  run_valid (Op.peek ∷ ops) r h = ap₂ ◌∷◌ (reads_refine r h).1 (run_valid ops r h)
  run_valid (Op.clear ∷ ops) r h =
      let (valid, empty, same) = clear_lem r in
      ap (◌∷◌ none)
        (run_valid ops (RingBuffer.clear r) valid ∙ ap₂ (λ c q. replay c ops q) same empty)

  -- Over any sequence of calls, a new ring buffer returns what a queue of at most its capacity
  -- returns that gives up its oldest item for a new one when it is full.
  pub ring_refines :
      (c : ℤ) (ops : List (Op A)) → run ops (new_ring_buffer c) ≡ replay (clamp c) ops []
  ring_refines c ops =
      run_valid ops (new_ring_buffer c) (new_ring_buffer-IsValid c)
      ∙ ap₂ (λ n q. replay n ops q) (capacity-new A c) (unfold new_ring_buffer window in refl)
