-- ===== src/Locks/Once.antt =====
-- kvx/module/lock/lock.go: a lock that extends itself can be released once.
use arcgo.Prelude.{◌≡◌, refl, true, false, Bool-cases, inl, inr}
use arcgo.Locks.{
  Reply, said, failed, Client, closed_twice, Lock, ticker_panics, acquired, acquire, release,
}

module _ {S E : Type 0} (client : Client S E) where
  -- Closed for good.
  abbrev Stopped : Lock → Type 0
  Stopped l = (l.auto_extend ≡ true) × (l.stop_closed ≡ true)

  release-Stopped : (l : Lock) (s : S) → l.auto_extend ≡ true → Stopped (release client l s).1
  unfolding release
  release-Stopped l s h = elim (Bool-cases l.stop_closed) [
    | inl e ↦ rw (h, e) (refl, refl)
    | inr e ↦ rw (h, e) (refl, refl)
  ]

  acquired-Stopped : (l : Lock) (r : Reply E × S) → Stopped l → Stopped (acquired client l r).1
  acquired-Stopped l (failed e, s) h = h
  acquired-Stopped l (said false, s) h = h
  acquired-Stopped l (said true, s) (a, c) = elim (Bool-cases (ticker_panics l)) [
    | inl p ↦ rw p (a, c)
    | inr p ↦ rw p (rw a (refl, c))
  ]

  panics : (l : Lock) (s : S) → Stopped l → (release client l s).0 ≡ closed_twice
  unfolding release
  panics l s (a, c) = rw (a, c) refl

  -- After Release of a lock with auto-extension, a second Release panics on its closed channel,
  -- and so does one after another Acquire.
  pub release_once :
      (l : Lock) (s t u : S)
      → l.auto_extend ≡ true
      → let l' = (release client l s).1 in
        (release client l' u).0 ≡ closed_twice
        × (release client (acquire client l' t).1 u).0 ≡ closed_twice
  unfolding acquire
  release_once l s t u h =
      let stopped = release-Stopped l s h in
      (panics _ u stopped, panics _ u (acquired-Stopped _ (client.client_acquire t _ _ _) stopped))
