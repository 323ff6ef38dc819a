-- ===== src/Locks/Manager.antt =====
-- kvx/module/lock/lock.go: Manager, WithLock and WithTryLock. The map of the manager is that of
-- collectionx/mapping; its locks are released through the manager only.
pub mod Open
pub mod Scoped
pub mod Timed
mod Tests
use arcgo.Prelude.{ℕ, false, List, [], ◌∷◌, Option, none, some}
use arcgo.Prelude.Classes.{nat_comparable}
use arcgo.Mapping.GoMap.{keys_of, lookup, store, erase}
use arcgo.Locks.{
  Reply, said, Client, Answer, success, not_held, closed_twice, Lock, Options, new_lock, acquire,
  release, is_held, try_acquire,
}

pub record Manager : Type 0 where
  pub locks : List (ℕ × Lock)

abbrev pub new_manager : Manager
new_manager = record { locks = [] }

-- How the function under a lock ends.
pub data Ran (E : Type 0) : Type 0 where
  returned : Option E → Ran E
  panicked : Ran E

-- No lock, or the function's error with the answer of Release, or its panic after that.
pub data Exit (E : Type 0) : Type 0 where
  refused : Answer E → Exit E
  joined : Option E → Answer E → Exit E
  raised : Answer E → Exit E

abbrev pub left_with : {E : Type 0} → Ran E → Answer E → Exit E
left_with (returned e) answer = joined e answer
left_with panicked answer = raised answer

module _ {S E : Type 0} (client : Client S E) where
  abbrev pub managed : Manager → ℕ → Answer E × Lock × S → Answer E × Manager × S
  managed m key (success, l, s) = (success, record { locks = store m.locks key l }, s)
  managed m key (answer, l, s) = (answer, m, s)

  unfoldable pub manager_acquire : Manager → ℕ → ℕ → Option Options → S → Answer E × Manager × S
  manager_acquire m key identifier opts s =
      managed m key (acquire client (new_lock key identifier opts) s)

  -- The lock is out of the map whatever Release answers.
  abbrev pub released_key : Manager → ℕ → Option Lock → S → Answer E × Manager × S
  released_key m key none s = (not_held, m, s)
  released_key m key (some l) s =
      let (answer, l', s') = release client l s in
      (answer, record { locks = erase m.locks key }, s')

  unfoldable pub manager_release : Manager → ℕ → S → Answer E × Manager × S
  manager_release m key s = released_key m key (lookup m.locks key) s

  -- The errors are collected; a panic ends the loop.
  abbrev pub collected :
      Answer E × Manager × S
      → (Manager → S → List (Answer E) × Manager × S)
      → List (Answer E) × Manager × S
  collected (success, m, s) go = go m s
  collected (closed_twice, m, s) go = (closed_twice ∷ [], m, s)
  collected (answer, m, s) go = let (errs, m', s') = go m s in (answer ∷ errs, m', s')

  abbrev pub release_next :
      Manager
      → ℕ
      → Option Lock
      → S
      → (Manager → S → List (Answer E) × Manager × S)
      → List (Answer E) × Manager × S
  release_next m key none s go = go m s
  release_next m key (some l) s go = collected (released_key m key (some l) s) go

  unfoldable pub release_keys : List ℕ → Manager → S → List (Answer E) × Manager × S
  release_keys [] m s = ([], m, s)
  release_keys (key ∷ keys) m s = release_next m key (lookup m.locks key) s (release_keys keys)

  unfoldable pub manager_release_all : Manager → S → List (Answer E) × Manager × S
  manager_release_all m s = release_keys (keys_of m.locks) m s

  abbrev pub held_key : Option Lock → S → Reply E × S
  held_key none s = (said false, s)
  held_key (some l) s = is_held client l s

  unfoldable pub manager_is_held : Manager → ℕ → S → Reply E × S
  manager_is_held m key s = held_key (lookup m.locks key) s

  -- `releaseLockOnExit`, in the deferred call: after a panic too.
  abbrev pub release_on_exit : Lock → Ran E × S → Exit E × S
  release_on_exit l (ran, s) =
      let (answer, l', s') = release client l s in (left_with ran answer, s')

  abbrev pub guarded : (S → Ran E × S) → Answer E × Lock × S → Exit E × S
  guarded fn (success, l, s) = release_on_exit l (fn s)
  guarded fn (answer, l, s) = (refused answer, s)

  -- What goes on while `fn` runs, the ticks of the auto-extension too, is in the state it leaves.
  unfoldable pub with_lock : ℕ → ℕ → Option Options → (S → Ran E × S) → S → Exit E × S
  with_lock key identifier opts fn s = guarded fn (acquire client (new_lock key identifier opts) s)

module _ {S E : Type 0} (client : Client S E) (now : S → ℕ) (wait : S → Option E × S) where
  abbrev managed_try : Manager → ℕ → Option (Answer E × Lock × S) → Option (Answer E × Manager × S)
  managed_try m key none = none
  managed_try m key (some r) = some (managed client m key r)

  -- `none` where the fuel of TryAcquire runs out.
  unfoldable pub manager_try_acquire :
      ℕ → Manager → ℕ → ℕ → ℕ → Option Options → S → Option (Answer E × Manager × S)
  manager_try_acquire fuel m key identifier timeout opts s =
      managed_try m key (try_acquire client now wait fuel timeout (new_lock key identifier opts) s)

  abbrev pub guarded_try : (S → Ran E × S) → Option (Answer E × Lock × S) → Option (Exit E × S)
  guarded_try fn none = none
  guarded_try fn (some r) = some (guarded client fn r)

  unfoldable pub with_try_lock :
      ℕ → ℕ → ℕ → ℕ → Option Options → (S → Ran E × S) → S → Option (Exit E × S)
  with_try_lock fuel key identifier timeout opts fn s =
      guarded_try fn (try_acquire client now wait fuel timeout (new_lock key identifier opts) s)
