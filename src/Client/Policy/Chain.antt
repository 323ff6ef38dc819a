-- ===== src/Client/Policy/Chain.antt =====
-- clientx/policy.go: which policies are applied, and what becomes of an error.
use arcgo.Prelude.{◌≡◌, refl, ap, List, [], ◌∷◌, ◌++◌, Option, none, some}
use arcgo.Client.Policy.{
  Failure, policy_before, policy_after, joined_one, joined, Called, returned, panicked, Policy,
  add_failure, call_policy_after, apply_after_policies, before_result, Prepared, before_next,
  apply_before_policies,
}

module _ {E : Type 0} where
  -- `errors.Is`: an error is found within those that wrap it or are joined to it.
  pub data Within : Failure E → Failure E → Type 0 where
    here : {e : Failure E} → Within e e
    in_before : {e e' : Failure E} → Within e e' → Within e (policy_before e')
    in_after : {e e' : Failure E} → Within e e' → Within e (policy_after e')
    in_one : {e e' : Failure E} → Within e e' → Within e (joined_one e')
    in_left : {e e' : Failure E} (f : Failure E) → Within e e' → Within e (joined e' f)
    in_right : {e e' : Failure E} (f : Failure E) → Within e e' → Within e (joined f e')

  -- An option holds an error that has this one in it.
  abbrev pub Carries : Failure E → Option (Failure E) → Type 0
  Carries e none = ⊥
  Carries e (some e') = Within e e'

  add_failure-Carries :
      (e : Failure E) (o after : Option (Failure E)) → Carries e o → Carries e (add_failure o after)
  add_failure-Carries e o none h = h
  add_failure-Carries e none (some f) h = absurd h
  add_failure-Carries e (some e') (some f) h = in_left f h

  -- The error of After itself.
  add_failure-after :
      (e : Failure E) (o after : Option (Failure E))
      → Carries e after
      → Carries e (add_failure o after)
  add_failure-after e o none h = absurd h
  add_failure-after e none (some f) h = in_one h
  add_failure-after e (some e') (some f) h = in_right e' h

module _ {S C E : Type 0} where
  -- An error that the call returned stays within the error that applyAfterPolicies returns,
  -- whatever the policies return or panic with.
  pub apply_after-Carries :
      (ctx : Option C) (ps : List (Policy S C E)) (e : Failure E) (o : Option (Failure E)) (s : S)
      → Carries e o
      → Carries e (apply_after_policies ctx ps o s).0
  unfolding apply_after_policies
  apply_after-Carries ctx [] e o s h = h
  apply_after-Carries ctx (p ∷ ps) e o s h =
      apply_after-Carries ctx ps e _ _ (add_failure-Carries e o (call_policy_after ctx p o s).0 h)

  -- The policies that were applied are the first ones, up to the one that failed.
  abbrev pub AppliedFirst : List (Policy S C E) → Prepared S C E → Type 0
  AppliedFirst ps (final, applied, none, s) = applied ≡ ps
  AppliedFirst ps (final, applied, some e, s) =
      (p : Policy S C E) × (rest : List (Policy S C E)) × (cause : Failure E) × (ps
        ≡ applied ++ (p ∷ rest))
      × (e ≡ policy_before cause)

  applied_next :
      (p : Policy S C E) (ps : List (Policy S C E)) (r : Prepared S C E)
      → AppliedFirst ps r
      → AppliedFirst (p ∷ ps) (let (final, applied, e, s) = r in (final, p ∷ applied, e, s))
  applied_next p ps (final, applied, none, s) h = ap (λ (t : List (Policy S C E)). p ∷ t) h
  applied_next p ps (final, applied, some e, s) (q, rest, cause, h, k) =
      (q, rest, cause, ap (λ (t : List (Policy S C E)). p ∷ t) h, k)

  before_first :
      (ctx : Option C) (p : Policy S C E) (ps : List (Policy S C E))
      (called : Called (Option C × Option (Failure E))) (s : S) (go : Option C → S → Prepared S C E)
      → ((next : Option C) (s' : S) → AppliedFirst ps (go next s'))
      → AppliedFirst (p ∷ ps) (before_next ctx p (before_result ctx called, s) go)
  before_first ctx p ps panicked s go h = applied_next p ps (go none s) (h none s)
  before_first ctx p ps (returned (none, none)) s go h = applied_next p ps (go ctx s) (h ctx s)
  before_first ctx p ps (returned (some c, none)) s go h =
      applied_next p ps (go (some c) s) (h (some c) s)
  before_first ctx p ps (returned (none, some e)) s go h = (p, ps, e, refl, refl)
  before_first ctx p ps (returned (some c, some e)) s go h = (p, ps, e, refl, refl)

  pub apply_before_lem :
      (ctx : Option C) (ps : List (Policy S C E)) (s : S)
      → AppliedFirst ps (apply_before_policies ctx ps s)
  unfolding apply_before_policies
  apply_before_lem ctx [] s = refl
  apply_before_lem ctx (p ∷ ps) s =
      before_first ctx p ps (p.before ctx s).0 (p.before ctx s).1
        (λ next s'. apply_before_policies next ps s') (λ next s'. apply_before_lem next ps s')
