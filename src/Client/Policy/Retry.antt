-- ===== src/Client/Policy/Retry.antt =====
-- clientx/policy_retry.go: the retry policy, and the end of the loop of InvokeWithPolicies. What the
-- code computes in floating point, a delay and a delay with jitter, is a parameter; durations are
-- whole numbers of nanoseconds.
use Prim.Native.Nat.{max}
use arcgo.Prelude.{
  ℕ, zero, suc, ◌+◌, ◌≤◌, ◌≡◌, refl, ap, ◌∙◌, inl, inr, Bool, true, false, ◌||◌, not, List, [], ◌∷◌,
  Option, none, some, if◌then◌else◌, leb, ltb, arith, All, Bool-cases,
}
use arcgo.Prelude.Int.{ℤ, pos, negsuc}
use arcgo.Client.Policy.{
  Failure, returned, Policy, Decider, reduce_answer, ask, decide_retry, Outcome, finished, stuck,
  Prepared, after_sleep, after_decision, after_call, attempt_once, invoke_loop,
  invoke_with_policies, filter_policies,
}

pub record RetryPolicyConfig : Type 0 where
  pub cfg_max_attempts : ℤ
  pub cfg_base_delay : ℤ
  pub cfg_max_delay : ℤ

-- The normalized numbers; the jitter is a parameter.
pub record RetryPolicy : Type 0 where
  pub max_attempts : ℕ
  pub base_delay : ℕ
  pub max_delay : ℕ

abbrev or_positive : ℤ → ℕ → ℕ
or_positive (negsuc n) fallback = fallback
or_positive (pos n) fallback = if leb n 0 then fallback else n

-- 3 attempts, 100 ms, and 2 s or the base delay
unfoldable pub new_retry_policy : RetryPolicyConfig → RetryPolicy
new_retry_policy cfg =
    let base_delay = or_positive cfg.cfg_base_delay 100000000 in
    record {
      max_attempts = or_positive cfg.cfg_max_attempts 3;
      base_delay = base_delay;
      max_delay = max (or_positive cfg.cfg_max_delay 2000000000) base_delay;
    }

pub new_retry_policy_lem :
    (cfg : RetryPolicyConfig)
    → let p = new_retry_policy cfg in
      (1 ≤ p.max_attempts) × (1 ≤ p.base_delay) × (p.base_delay ≤ p.max_delay)
unfolding new_retry_policy
new_retry_policy_lem cfg =
    ground (arith, at_least cfg.cfg_max_attempts 3, at_least cfg.cfg_base_delay 100000000)
  where
    at_least : (n : ℤ) (fallback : ℕ) → 1 ≤ fallback → 1 ≤ or_positive n fallback
    at_least (negsuc n) fallback h = h
    at_least (pos n) fallback h = ground arith

-- Jitter: none, or a delay from the range around the given one.
abbrev pub jittered : RetryPolicy → ℕ → Option ℕ → ℕ
jittered p delay none = delay
jittered p delay (some n) = if ltb p.max_delay n then p.max_delay else n

abbrev capped : RetryPolicy → ℤ → ℕ
capped p (negsuc n) = p.max_delay
capped p (pos n) = if ltb p.max_delay n then p.max_delay else n

unfoldable pub backoff_delay : RetryPolicy → ℤ → (ℕ → Option ℕ) → ℕ
backoff_delay p delay jitter = let d = capped p delay in jittered p d (jitter d)

-- `ShouldRetry` on a context that is done or not.
unfoldable pub should_retry :
    {E : Type 0} → RetryPolicy → (Failure E → Bool) → ℕ → Bool → Failure E → ℕ → Bool × ℤ
should_retry p retryable attempt done e delay =
    if leb p.max_attempts 1 || leb p.max_attempts attempt || done || not (retryable e)
    then (false, pos 0)
    else (true, pos delay)

capped_bounded : (p : RetryPolicy) (delay : ℤ) → capped p delay ≤ p.max_delay
capped_bounded p (negsuc n) = omega arith
capped_bounded p (pos n) = ground arith

jittered_bounded :
    (p : RetryPolicy) (delay : ℕ) (o : Option ℕ)
    → delay ≤ p.max_delay
    → jittered p delay o ≤ p.max_delay
jittered_bounded p delay none h = h
jittered_bounded p delay (some n) h = ground arith

should_retry_last :
    {E : Type 0} (p : RetryPolicy) (retryable : Failure E → Bool) (attempt : ℕ) (done : Bool)
    (e : Failure E) (delay : ℕ)
    → p.max_attempts ≤ attempt
    → should_retry p retryable attempt done e delay ≡ (false, pos 0)
unfolding should_retry
should_retry_last p retryable attempt done e delay h = grind (arith, h)

-- The back-off delay is not above the maximum delay of the policy, whatever the computation in
-- floating point gives.
pub backoff_delay_bounded :
    (p : RetryPolicy) (delay : ℤ) (jitter : ℕ → Option ℕ)
    → backoff_delay p delay jitter ≤ p.max_delay
unfolding backoff_delay
backoff_delay_bounded p delay jitter =
    jittered_bounded p (capped p delay) (jitter (capped p delay)) (capped_bounded p delay)

module _ {S C E : Type 0} where
  -- From attempt `n` on, the policy asks for no further one.
  abbrev pub Declines : ℕ → Option (Decider S C E) → Type 0
  Declines n none = Unit
  Declines n (some decider) =
      (ctx : Option C) (attempt : ℕ) (e : Failure E) (s : S)
      → n ≤ attempt
      → reduce_answer (false, 0) (decider ctx attempt e s).0 ≡ (false, 0)

  abbrev pub AllDecline : ℕ → List (Policy S C E) → Type 0
  AllDecline n ps = All (λ (p : Policy S C E). Declines n p.should_retry) ps

  ask-Declines :
      (n : ℕ) (o : Option (Decider S C E)) (ctx : Option C) (attempt : ℕ) (e : Failure E) (s : S)
      → Declines n o
      → n ≤ attempt
      → (ask o ctx attempt e (false, 0) s).0 ≡ (false, 0)
  ask-Declines n none ctx attempt e s h k = refl
  ask-Declines n (some decider) ctx attempt e s h k = h ctx attempt e s k

  decide_retry_declines :
      (n : ℕ) (ctx : Option C) (ps : List (Policy S C E)) (attempt : ℕ) (e : Failure E) (s : S)
      → AllDecline n ps
      → n ≤ attempt
      → (decide_retry ctx ps attempt e (false, 0) s).0 ≡ (false, 0)
  unfolding decide_retry
  decide_retry_declines n ctx [] attempt e s h k = refl
  decide_retry_declines n ctx (p ∷ ps) attempt e s (h, hs) k =
      let s' = (ask p.should_retry ctx attempt e (false, 0) s).1 in
      ap (λ (agg : Bool × ℕ). (decide_retry ctx ps attempt e agg s').0)
        (ask-Declines n p.should_retry ctx attempt e s h k)
      ∙ decide_retry_declines n ctx ps attempt e s' hs k

abbrev pub IsFinished : {T E : Type 0} → Outcome T E → Type 0
IsFinished (finished result e) = Unit
IsFinished stuck = ⊥

module _ {S C E T : Type 0} (zero_value : T) (background : C)
    (select_timer : C → ℕ → ℕ → S → Option (Failure E) × S)
    (fn : Option C → S → (T × Option (Failure E)) × S) where
  after_sleep-IsFinished :
      (result : T) (e : Failure E) (o : Option (Failure E) × S) (go : S → Outcome T E × S)
      → ((s : S) → IsFinished (go s).0)
      → IsFinished (after_sleep zero_value background select_timer fn result e o go).0
  after_sleep-IsFinished result e (none, s) go h = h s
  after_sleep-IsFinished result e (some f, s) go h = tt

  after_decision-IsFinished :
      (ctx : C) (attempt : ℕ) (result : T) (e : Failure E) (d : (Bool × ℕ) × S)
      (go : S → Outcome T E × S)
      → (d.0.0 ≡ true → (s : S) → IsFinished (go s).0)
      → IsFinished
          (after_decision zero_value background select_timer fn ctx attempt result e d go).0
  after_decision-IsFinished ctx attempt result e ((false, wait), s) go h = tt
  after_decision-IsFinished ctx attempt result e ((true, wait), s) go h =
      after_sleep-IsFinished result e _ go (h refl)

  after_call-IsFinished :
      (ctx : C) (ps : List (Policy S C E)) (attempt : ℕ) (result : T) (o : Option (Failure E) × S)
      (go : S → Outcome T E × S)
      → ((e : Failure E) (s : S)
          → (decide_retry (some ctx) ps attempt e (false, 0) s).0.0 ≡ true
          → (s' : S) → IsFinished (go s').0)
      → IsFinished (after_call zero_value background select_timer fn ctx ps attempt result o go).0
  after_call-IsFinished ctx ps attempt result (none, s) go h = tt
  after_call-IsFinished ctx ps attempt result (some e, s) go h =
      after_decision-IsFinished ctx attempt result e _ go (h e s)

  attempt-IsFinished :
      (ctx : C) (ps : List (Policy S C E)) (attempt : ℕ) (r : Prepared S C E)
      (go : S → Outcome T E × S)
      → ((e : Failure E) (s : S)
          → (decide_retry (some ctx) ps attempt e (false, 0) s).0.0 ≡ true
          → (s' : S) → IsFinished (go s').0)
      → IsFinished (attempt_once zero_value background select_timer fn ctx ps attempt r go).0
  attempt-IsFinished ctx ps attempt (final, applied, some e, s) go h = tt
  attempt-IsFinished ctx ps attempt (final, applied, none, s) go h =
      after_call-IsFinished ctx ps attempt _ _ go h

  invoke_loop-IsFinished :
      (n fuel : ℕ) (ctx : C) (ps : List (Policy S C E)) (attempt : ℕ) (s : S)
      → AllDecline n ps
      → 1 ≤ fuel
      → suc n ≤ attempt + fuel
      → IsFinished (invoke_loop zero_value background select_timer fn fuel ctx ps attempt s).0
  unfolding invoke_loop
  invoke_loop-IsFinished n zero ctx ps attempt s h k l = absurd (omega arith)
  invoke_loop-IsFinished n (suc fuel) ctx ps attempt s h k l =
      attempt-IsFinished ctx ps attempt _
        (invoke_loop zero_value background select_timer fn fuel ctx ps (suc attempt))
        (λ e s' retry s''. elim (Bool-cases (leb n attempt)) [
          | inl stop ↦
              cc
                (decide_retry_declines n (some ctx) ps attempt e s' h (ground (arith, stop)), retry)
          | inr more ↦
              invoke_loop-IsFinished n fuel ctx ps (suc attempt) s'' h (ground (arith, more, l))
                (ground (arith, l))
        ])

  -- When no policy asks for an attempt after the n-th, n at least 1, InvokeWithPolicies returns
  -- after n attempts at most.
  pub invoke_with_policies_ends :
      (n : ℕ) (ctx : Option C) (policies : List (Option (Policy S C E))) (s : S)
      → AllDecline n (filter_policies policies)
      → 1 ≤ n
      → IsFinished (invoke_with_policies zero_value background select_timer fn n ctx policies s).0
  unfolding invoke_with_policies
  invoke_with_policies_ends n ctx policies s h k =
      invoke_loop-IsFinished n n _ (filter_policies policies) 1 s h k (omega arith)

-- The policy as one of a chain: `world` tells whether the context is done and what the delay is.
module _ {S C E : Type 0} (world : Option C → ℕ → S → (Bool × ℕ) × S)
    (retryable : Failure E → Bool) where
  abbrev pub retry_decider : RetryPolicy → Decider S C E
  retry_decider p ctx attempt e s =
      let ((done, delay), s') = world ctx attempt s in
      (returned (should_retry p retryable attempt done e delay), s')

  abbrev pub retry_policy : RetryPolicy → Policy S C E
  retry_policy p = record {
    before = λ ctx s. (returned (ctx, none), s);
    after = λ ctx e s. (returned none, s);
    should_retry = some (retry_decider p);
  }

  pub retry_policy-Declines :
      (p : RetryPolicy) → Declines p.max_attempts (retry_policy p).should_retry
  retry_policy-Declines p ctx attempt e s h =
      ap (λ (answer : Bool × ℤ). reduce_answer (false, 0) (returned answer))
        (should_retry_last p retryable attempt (world ctx attempt s).0.0 e (world ctx attempt s).0.1
          h)
