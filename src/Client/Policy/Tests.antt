-- ===== src/Client/Policy/Tests.antt =====
-- A call that always fails under the retry policy, a policy that panics, and a limit of one. The
-- world counts the calls; there is one context.
use arcgo.Prelude.{
  ℕ, suc, ◌≤◌, ◌≡◌, ◌⊎◌, ◌<◌, refl, true, false, List, [], ◌∷◌, Option, none, some, arith,
}
use arcgo.Prelude.Int.{pos, negsuc}
use arcgo.Client.Policy.{
  Failure, plain, returned, panicked, Policy, before_result, apply_after_policies,
  apply_before_policies, decide_retry, finished, invoke_loop, invoke_with_policies,
}
use arcgo.Client.Policy.Chain.{here, Carries, apply_after-Carries}
use arcgo.Client.Policy.Retry.{
  RetryPolicyConfig, RetryPolicy, should_retry, IsFinished, invoke_with_policies_ends, retry_policy,
  retry_policy-Declines,
}
use arcgo.Client.Policy.Bulkhead.{
  before, after, acquired, full, enter, stray, Steps, stay, move, idle, bulkhead_limits,
}

abbrev config : RetryPolicyConfig
config = record { cfg_max_attempts = negsuc 0; cfg_base_delay = pos 0; cfg_max_delay = pos 5 }

abbrev three : RetryPolicy
three = record { max_attempts = 3; base_delay = 100; max_delay = 2000 }

abbrev chain : List (Option (Policy ℕ Unit ℕ))
chain = none ∷ some (retry_policy (λ ctx attempt s. ((false, attempt), s)) (λ e. true) three) ∷ []

abbrev count_call : Option (Unit {0}) → ℕ → (ℕ × Option (Failure ℕ)) × ℕ
count_call ctx s = ((s, some (plain 9)), suc s)

abbrev timer_fires : Unit {0} → ℕ → ℕ → ℕ → Option (Failure ℕ) × ℕ
timer_fires ctx attempt d s = (none, s)

three_calls :
    invoke_with_policies 0 tt timer_fires count_call 3 none chain 0
    ≡ (finished 2 (some (plain 9)), 3)
unfolding invoke_with_policies invoke_loop apply_before_policies apply_after_policies decide_retry
    should_retry
three_calls = refl

-- A panic in Before is swallowed, and the context that goes on is nil.
context_lost : before_result {C = Unit} {E = ℕ} (some tt) panicked ≡ (none, none)
context_lost = refl

invoke_with_policies_ends_example :
    IsFinished (invoke_with_policies 0 tt timer_fires count_call 3 none chain 0).0
invoke_with_policies_ends_example =
    invoke_with_policies_ends 0 tt timer_fires count_call 3 none chain 0
      (retry_policy-Declines (λ ctx attempt s. ((false, attempt), s)) (λ e. true) three, tt)
      (omega arith)

abbrev stubborn : Policy ℕ Unit ℕ
stubborn = record {
  before = λ ctx s. (returned (none, some (plain 4)), s);
  after = λ ctx e s. (returned (some (plain 5)), s);
  should_retry = none;
}

apply_after-Carries_example :
    Carries
      (plain 9)
      (apply_after_policies (some tt) (stubborn ∷ stubborn ∷ []) (some (plain 9)) 0).0
apply_after-Carries_example =
    apply_after-Carries (some tt) (stubborn ∷ stubborn ∷ []) (plain 9) (some (plain 9)) 0 here

-- A call of After on the empty channel, a call that enters, and one that takes its token.
one_taken :
    Steps (idle (pos 1) 2) (record {
      policy = record { capacity = 1; tokens = 0 };
      inside = true ∷ false ∷ [];
      taken = 1;
    })
unfolding before after
one_taken = move stray (move (enter 0 (omega arith) refl refl) (move stray stay))

bulkhead_limits_example :
    (1 ≤ 2)
    × (((before (record { capacity = 1; tokens = 0 }) ≡ full) × (1 ≤ 1))
        ⊎ ((before (record { capacity = 1; tokens = 0 })
              ≡ acquired (record { capacity = 1; tokens = 1 }))
            × (1 < 2)))
bulkhead_limits_example = bulkhead_limits (pos 1) 2 one_taken
