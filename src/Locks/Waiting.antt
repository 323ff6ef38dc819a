-- ===== src/Locks/Waiting.antt =====
-- kvx/module/lock/lock.go: TryAcquire ends in time, and a success is one of the service.
use mathlib.Core.Path.{subst₂}
use arcgo.Prelude.{
  ℕ, zero, suc, ◌+◌, ◌-◌, ◌*◌, ◌/◌, ◌≤◌, ◌<◌, ◌≡◌, ◌⊎◌, refl, ◌∙◌, false, Option, none, some, arith,
  ltb, Bool-cases, inl, inr,
}
use arcgo.Locks.{
  Client, Answer, success, not_acquired, not_held, closed_twice, ticker_panic, client_error,
  cancelled, Lock, acquire, after_wait, after_try, try_loop, try_acquire,
}
use arcgo.Locks.Service.{IsLockService}
use arcgo.Locks.Calls.{is_success, acquired-world, acquire_lem}

-- An answer, which is no success or comes with the lock.
abbrev pub Answered :
    {S E : Type 0} → (S → ℕ → Option ℕ) → ℕ → ℕ → Option (Answer E × Lock × S) → Type 0
Answered holder key token none = ⊥
Answered holder key token (some (answer, l, s)) =
    (is_success answer ≡ false) ⊎ (holder s key ≡ some token)

module _ {S E : Type 0} (client : Client S E) (holder : S → ℕ → Option ℕ) (now : S → ℕ)
    (wait : S → Option E × S) (service : IsLockService client holder)
    (call_time : (s : S) (key token ttl : ℕ)
      → now s ≤ now (client.client_acquire s key token ttl).1)
    (wait_time : (s : S) → (wait s).0 ≡ none → now s + 100 ≤ now (wait s).1) where
  acquire_time : (l : Lock) (s : S) → now s ≤ now (acquire client l s).2
  unfolding acquire
  acquire_time l s =
      rw (acquired-world client holder l (client.client_acquire s l.key l.identifier l.ttl))
        (call_time s l.key l.identifier l.ttl)

  wait-Answered :
      (l : Lock) (key token : ℕ) (r : Option E × S) (go : Lock → S → Option (Answer E × Lock × S))
      → (r.0 ≡ none → Answered holder key token (go l r.1))
      → Answered holder key token (after_wait client now wait l r go)
  wait-Answered l key token (none, s) go h = h refl
  wait-Answered l key token (some e, s) go h = inl refl

  try-Answered :
      (key token : ℕ) (r : Answer E × Lock × S) (go : Lock → S → Option (Answer E × Lock × S))
      → (is_success r.0 ≡ false) ⊎ (holder r.2 key ≡ some token)
      → ((wait r.2).0 ≡ none → Answered holder key token (go r.1 (wait r.2).1))
      → Answered holder key token (after_try client now wait r go)
  try-Answered key token (success, l, s) go h k = h
  try-Answered key token (not_acquired, l, s) go h k = wait-Answered l key token (wait s) go k
  try-Answered key token (not_held, l, s) go h k = h
  try-Answered key token (closed_twice, l, s) go h k = h
  try-Answered key token (ticker_panic, l, s) go h k = h
  try-Answered key token (client_error e, l, s) go h k = h
  try-Answered key token (cancelled e, l, s) go h k = h

  try_loop-Answered :
      (fuel deadline key token : ℕ) (l : Lock) (s : S)
      → l.key ≡ key
      → l.identifier ≡ token
      → 1 ≤ fuel
      → deadline < now s + 100 * (fuel - 1)
      → Answered holder key token (try_loop client now wait fuel deadline l s)
  unfolding try_loop
  try_loop-Answered zero deadline key token l s k t h d = absurd (omega arith)
  try_loop-Answered (suc fuel) deadline key token l s k t h d =
      elim (Bool-cases (ltb deadline (now s))) [
        | inl e ↦ rw e (inl refl)
        | inr e ↦
            let ((key', id), kept, got, own) = acquire_lem client holder l s service in
            rw e (
              try-Answered key token (acquire client l s) (try_loop client now wait fuel deadline)
                (elim (Bool-cases (is_success (acquire client l s).0)) [
                  | inl q ↦
                      inr (subst₂ (λ n m. holder (acquire client l s).2 n ≡ some m) k t (got q))
                  | inr q ↦ inl q
                ])
                (λ waited.
                  try_loop-Answered fuel deadline key token _ _ (key' ∙ k) (id ∙ t)
                    (ground (arith, e, d))
                    (ground
                      (arith, e, d, wait_time (acquire client l s).2 waited, acquire_time l s))))
      ]

  -- Where calls take no negative time and a wait that is not cancelled takes 100 ms at least,
  -- TryAcquire answers within as many rounds as 100 ms fit into the timeout, and two more; when it
  -- succeeds, the service has given the lock to its identifier.
  pub try_acquire_lem :
      (timeout : ℕ) (l : Lock) (s : S)
      → Answered holder l.key l.identifier
          (try_acquire client now wait (timeout / 100 + 2) timeout l s)
  unfolding try_acquire
  try_acquire_lem timeout l s =
      try_loop-Answered (timeout / 100 + 2) (now s + timeout) l.key l.identifier l s refl refl
        (omega arith) (omega arith)
