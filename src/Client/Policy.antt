-- ===== src/Client/Policy.antt =====
-- clientx/policy.go: calls under a chain of policies. The world that policies, calls and waits change
-- is a state that each of them takes and gives back; a context is an option, `none` for nil. The
-- operation is the same in all calls and left out. Time and randomness are the world's.
pub mod Chain
pub mod Retry
pub mod Bulkhead
mod Tests
use Prim.Native.Nat.{max}
use arcgo.Prelude.{
  ℕ, zero, suc, ◌+◌, Bool, true, false, List, [], ◌∷◌, ◌++◌, Option, none, some, if◌then◌else◌,
  nat_eqb,
}
use arcgo.Prelude.Int.{ℤ, clamp}

-- An error of the caller or of a policy, with what the code puts around it.
pub data Failure {ℓ} (E : Type ℓ) : Type ℓ where
  plain : E → Failure E
  policy_before policy_after joined_one : Failure E → Failure E
  joined : Failure E → Failure E → Failure E

-- A call into a policy, which may panic.
pub data Called {ℓ} (A : Type ℓ) : Type ℓ where
  returned : A → Called A
  panicked : Called A

module _ (S C E : Type 0) where
  pub record Policy : Type 0 where
    pub before : Option C → S → Called (Option C × Option (Failure E)) × S
    pub after : Option C → Option (Failure E) → S → Called (Option (Failure E)) × S
    -- `ShouldRetry`, of a policy that is a `RetryDecider`: the answer and the delay.
    pub should_retry : Option (Option C → ℕ → Failure E → S → Called (Bool × ℤ) × S)

module _ {E : Type 0} where
  abbrev pub wrapped : (Failure E → Failure E) → Option (Failure E) → Option (Failure E)
  wrapped wrap none = none
  wrapped wrap (some e) = some (wrap e)

  -- `errors.Join(a, b)`, where `b` is not nil
  abbrev pub join : Option (Failure E) → Failure E → Failure E
  join none b = joined_one b
  join (some a) b = joined a b

  -- The error that is kept, if any; a panic counts as none.
  abbrev pub after_result : Called (Option (Failure E)) → Option (Failure E)
  after_result panicked = none
  after_result (returned e) = wrapped policy_after e

  abbrev pub add_failure : Option (Failure E) → Option (Failure E) → Option (Failure E)
  add_failure e none = e
  add_failure e (some after) = some (join e after)

-- A decider that panics or declines leaves the decision as it is.
abbrev pub reduce_answer : Bool × ℕ → Called (Bool × ℤ) → Bool × ℕ
reduce_answer agg panicked = agg
reduce_answer agg (returned (false, delay)) = agg
reduce_answer (retry, wait) (returned (true, delay)) = (true, max wait (clamp delay))

-- The function's deferred `recover` runs as it returns: after a panic both results are nil.
abbrev pub before_result :
    {C E : Type 0}
    → Option C
    → Called (Option C × Option (Failure E))
    → Option C × Option (Failure E)
before_result ctx panicked = (none, none)
before_result ctx (returned (none, e)) = (ctx, wrapped policy_before e)
before_result ctx (returned (some c, e)) = (some c, wrapped policy_before e)

module _ (S C E : Type 0) where
  -- The context, the policies whose Before went through, and the error of one that did not.
  abbrev pub Prepared : Type 0
  Prepared = Option C × List (Policy S C E) × Option (Failure E) × S

  -- `ShouldRetry` of a policy, where it has one.
  abbrev pub Decider : Type 0
  Decider = Option C → ℕ → Failure E → S → Called (Bool × ℤ) × S

module _ {S C E : Type 0} where
  abbrev pub call_policy_before : Option C → Policy S C E → S → (Option C × Option (Failure E)) × S
  call_policy_before ctx p s = let (called, s') = p.before ctx s in (before_result ctx called, s')

  abbrev pub call_policy_after :
      Option C → Policy S C E → Option (Failure E) → S → Option (Failure E) × S
  call_policy_after ctx p e s = let (called, s') = p.after ctx e s in (after_result called, s')

  unfoldable pub apply_after_policies :
      Option C → List (Policy S C E) → Option (Failure E) → S → Option (Failure E) × S
  apply_after_policies ctx [] e s = (e, s)
  apply_after_policies ctx (p ∷ ps) e s =
      let (after, s') = call_policy_after ctx p e s in
      apply_after_policies ctx ps (add_failure e after) s'

  abbrev pub before_next :
      Option C
      → Policy S C E
      → (Option C × Option (Failure E)) × S
      → (Option C → S → Prepared S C E)
      → Prepared S C E
  before_next ctx p ((next, some e), s) go = (ctx, [], some e, s)
  before_next ctx p ((next, none), s) go =
      let (final, applied, e, s') = go next s in (final, p ∷ applied, e, s')

  unfoldable pub apply_before_policies : Option C → List (Policy S C E) → S → Prepared S C E
  apply_before_policies ctx [] s = (ctx, [], none, s)
  apply_before_policies ctx (p ∷ ps) s =
      before_next ctx p (call_policy_before ctx p s) (λ next s'. apply_before_policies next ps s')

  abbrev pub ask : Option (Decider S C E) → Option C → ℕ → Failure E → Bool × ℕ → S → (Bool × ℕ) × S
  ask none ctx attempt e agg s = (agg, s)
  ask (some decider) ctx attempt e agg s =
      let (called, s') = decider ctx attempt e s in (reduce_answer agg called, s')

  -- From (false, 0) on; the wait is not negative at any time.
  unfoldable pub decide_retry :
      Option C → List (Policy S C E) → ℕ → Failure E → Bool × ℕ → S → (Bool × ℕ) × S
  decide_retry ctx [] attempt e agg s = (agg, s)
  decide_retry ctx (p ∷ ps) attempt e agg s =
      let (agg', s') = ask p.should_retry ctx attempt e agg s in
      decide_retry ctx ps attempt e agg' s'

  abbrev pub filter_policies : List (Option (Policy S C E)) → List (Policy S C E)
  filter_policies [] = []
  filter_policies (none ∷ ps) = filter_policies ps
  filter_policies (some p ∷ ps) = p ∷ filter_policies ps

-- `stuck` is no Go value: the loop ran out of fuel. A nil function is refused before all this.
pub data Outcome (T E : Type 0) : Type 0 where
  finished : T → Option (Failure E) → Outcome T E
  stuck : Outcome T E

-- The call, its zero result, the background context, and the select on a timer and the context: an
-- error if the context is done first.
module _ {S C E T : Type 0} (zero_value : T) (background : C)
    (select_timer : C → ℕ → ℕ → S → Option (Failure E) × S)
    (fn : Option C → S → (T × Option (Failure E)) × S) where
  abbrev pub sleep_with_context : C → ℕ → ℕ → S → Option (Failure E) × S
  sleep_with_context ctx attempt d s =
      if nat_eqb d 0 then (none, s) else select_timer ctx attempt d s

  abbrev pub after_sleep :
      T → Failure E → Option (Failure E) × S → (S → Outcome T E × S) → Outcome T E × S
  after_sleep result e (none, s) go = go s
  after_sleep result e (some slept, s) go = (finished result (some (joined e slept)), s)

  abbrev pub after_decision :
      C → ℕ → T → Failure E → (Bool × ℕ) × S → (S → Outcome T E × S) → Outcome T E × S
  after_decision ctx attempt result e ((false, wait), s) go = (finished result (some e), s)
  after_decision ctx attempt result e ((true, wait), s) go =
      after_sleep result e (sleep_with_context ctx attempt wait s) go

  abbrev pub after_call :
      C
      → List (Policy S C E)
      → ℕ
      → T
      → Option (Failure E) × S
      → (S → Outcome T E × S)
      → Outcome T E × S
  after_call ctx ps attempt result (none, s) go = (finished result none, s)
  after_call ctx ps attempt result (some e, s) go =
      after_decision ctx attempt result e (decide_retry (some ctx) ps attempt e (false, 0) s) go

  abbrev pub attempt_once :
      C → List (Policy S C E) → ℕ → Prepared S C E → (S → Outcome T E × S) → Outcome T E × S
  attempt_once ctx ps attempt (final, applied, some e, s) go =
      let (err, s') = apply_after_policies final applied (some e) s in (finished zero_value err, s')
  attempt_once ctx ps attempt (final, applied, none, s) go =
      let ((result, e), s') = fn final s in
      after_call ctx ps attempt result (apply_after_policies final applied e s') go

  -- The loop on fuel, from attempt 1.
  unfoldable pub invoke_loop : ℕ → C → List (Policy S C E) → ℕ → S → Outcome T E × S
  invoke_loop zero ctx ps attempt s = (stuck, s)
  invoke_loop (suc fuel) ctx ps attempt s =
      attempt_once ctx ps attempt (apply_before_policies (some ctx) ps s)
        (invoke_loop fuel ctx ps (suc attempt))

  abbrev pub normalize_context : Option C → C
  normalize_context none = background
  normalize_context (some ctx) = ctx

  unfoldable pub invoke_with_policies :
      ℕ → Option C → List (Option (Policy S C E)) → S → Outcome T E × S
  invoke_with_policies fuel ctx policies s =
      invoke_loop fuel (normalize_context ctx) (filter_policies policies) 1 s
