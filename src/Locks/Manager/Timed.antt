-- ===== src/Locks/Manager/Timed.antt =====
-- kvx/module/lock/lock.go: what WithTryLock does with the lock.
use arcgo.Prelude.{ℕ, ◌≡◌, ◌⊎◌, false, Option, none, some}
use arcgo.Locks.{Client, Answer, Lock}
use arcgo.Locks.Calls.{is_success}
use arcgo.Locks.Manager.{Ran, Exit, refused}
use arcgo.Locks.Manager.Scoped.{given_back, Fresh}

module _ {S E : Type 0} (client : Client S E) where
  abbrev FreshIf : ℕ → ℕ → Option (Answer E × Lock × S) → Type 0
  FreshIf key token none = Unit
  FreshIf key token (some (answer, l, s)) = Fresh client key token l

module _ {S E : Type 0} (client : Client S E) (holder : S → ℕ → Option ℕ) where
  -- No lock and no call of the function, or the call under the lock that is then given back.
  abbrev pub Guarded : ℕ → ℕ → (S → Ran E × S) → Option (Exit E × S) → Type 0
  Guarded key token fn r =
      ((answer : Answer E) × (t : S) × (is_success answer ≡ false) × (r ≡ some (refused answer, t)))
      ⊎ ((t : S) × (holder t key ≡ some token) × (r ≡ some (given_back client key token (fn t))))
