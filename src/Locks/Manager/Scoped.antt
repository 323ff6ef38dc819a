-- ===== src/Locks/Manager/Scoped.antt =====
-- kvx/module/lock/lock.go: what WithLock does with the lock.
use arcgo.Prelude.{ℕ, ◌≡◌, ◌≢◌, ◌⊎◌, refl, true, false, Option, Bool-cases, inl, inr}
use arcgo.Locks.{
  Reply, said, failed, Client, Answer, not_acquired, client_error, ticker_panic, ticker_panics,
  Lock, Options, resolve_options, new_lock, acquired, acquire, held_answer, release,
}
use arcgo.Locks.Manager.{Ran, Exit, refused, left_with, guarded, release_on_exit, with_lock}

-- What Acquire makes of a reply that is not `true`.
abbrev pub refusal : {E : Type 0} → Reply E → Answer E
refusal (failed e) = client_error e
refusal (said b) = not_acquired

module _ {S E : Type 0} (client : Client S E) where
  -- The function's outcome, with the answer of the one call that gives the lock back.
  abbrev pub given_back : ℕ → ℕ → Ran E × S → Exit E × S
  given_back key identifier (ran, s) =
      let (reply, s') = client.client_release s key identifier in
      (left_with ran (held_answer client reply), s')

  -- A lock on the key with the identifier, whose channel is open.
  abbrev pub Fresh : ℕ → ℕ → Lock → Type 0
  Fresh key token l = (l.key ≡ key) × (l.identifier ≡ token) × (l.stop_closed ≡ false)

  pub acquired-Fresh :
      (key token : ℕ) (l : Lock) (r : Reply E × S)
      → Fresh key token l
      → Fresh key token (acquired client l r).1
  acquired-Fresh key token l (failed e, s) h = h
  acquired-Fresh key token l (said false, s) h = h
  acquired-Fresh key token l (said true, s) h = elim (Bool-cases (ticker_panics l)) [
    | inl p ↦ rw p h
    | inr p ↦ elim (Bool-cases l.auto_extend) [ inl e ↦ rw p (rw e h) | inr e ↦ rw p (rw e h) ]
  ]

  pub Fresh-given_back :
      (key token : ℕ) (l : Lock) (r : Ran E × S)
      → Fresh key token l
      → release_on_exit client l r ≡ given_back key token r
  unfolding release
  Fresh-given_back key token l (ran, s) (k, i, o) = elim (Bool-cases l.auto_extend) [
    | inl e ↦ rw (e, o, k, i) refl
    | inr e ↦ rw (e, k, i) refl
  ]

  -- No lock; a lock whose ticker panics; or the function under the lock.
  abbrev pub Scoped : ℕ → ℕ → Option Options → (S → Ran E × S) → Reply E × S → Exit E × S → Type 0
  Scoped key identifier opts fn r exit =
      let panics = ticker_panics (new_lock key identifier opts) in
      ((r.0 ≢ said true) × (exit ≡ (refused (refusal r.0), r.1)))
      ⊎ ((r.0 ≡ said true) × (panics ≡ true) × (exit ≡ (refused ticker_panic, r.1)))
      ⊎ ((r.0 ≡ said true) × (panics ≡ false) × (exit ≡ given_back key identifier (fn r.1)))

  guarded-Scoped :
      (key identifier : ℕ) (opts : Option Options) (fn : S → Ran E × S) (r : Reply E × S)
      → Scoped key identifier opts fn r
          (guarded client fn (acquired client (new_lock key identifier opts) r))
  guarded-Scoped key identifier opts fn (failed e, s) = inl (λ h. cc, refl)
  guarded-Scoped key identifier opts fn (said false, s) = inl (λ h. cc, refl)
  guarded-Scoped key identifier opts fn (said true, s) =
      let l = new_lock key identifier opts in
      let kept = acquired-Fresh key identifier l (said true, s) (refl, refl, refl) in
      elim (Bool-cases (ticker_panics l)) [
        | inl p ↦ rw p (inr (inl (refl, refl, refl)))
        | inr p ↦
            rw p (inr (inr (refl, refl, Fresh-given_back key identifier _ (fn s) (rw p at kept))))
      ]

  -- WithLock has a reply that is not true and returns its error without calling the function; or
  -- it has the lock, with auto-extension and a TTL of less than 3 ns, and the ticker panics; or it
  -- has the lock, calls the function once, and then gives the lock back by one Release of its key
  -- and identifier, whatever the function returns and after its panic too.
  pub with_lock_lem :
      (key identifier : ℕ) (opts : Option Options) (fn : S → Ran E × S) (s : S)
      → Scoped key identifier opts fn
          (client.client_acquire s key identifier (resolve_options opts).option_ttl)
          (with_lock client key identifier opts fn s)
  unfolding with_lock acquire
  with_lock_lem key identifier opts fn s =
      guarded-Scoped key identifier opts fn
        (client.client_acquire s key identifier (resolve_options opts).option_ttl)
