-- ===== src/Locks/Manager/Tests.antt =====
-- The memory of the locks, under a manager and around a function.
use arcgo.Prelude.{ℕ, ◌≡◌, refl, true, List, [], ◌∷◌, none, some}
use arcgo.Locks.{success, not_held, ticker_panic, acquire, release}
use arcgo.Locks.Tests.{Store, service, empty_store}
use arcgo.Locks.Manager.{
  Ran, panicked, refused, raised, new_manager, manager_acquire, manager_release,
  manager_release_all, release_keys, with_lock,
}
use arcgo.Locks.Manager.Scoped.{Scoped, with_lock_lem}
use arcgo.Locks.Manager.Open.{
  Call, acquire_call, release_call, release_all_call, Answers, run_calls, manager_calm,
}

abbrev panics : Store → Ran ℕ × Store
panics s = (panicked, s)

panic_releases : (with_lock service 5 1 none panics empty_store).0 ≡ raised success
unfolding with_lock acquire release
panic_releases = refl

with_lock_lem_example :
    Scoped service 5 1 none panics
      (service.client_acquire empty_store 5 1 30000000000)
      (with_lock service 5 1 none panics empty_store)
with_lock_lem_example = with_lock_lem service 5 1 none panics empty_store

-- A TTL of 2 ns with auto-extension.
too_short :
    (with_lock service 5 1
      (some (record { option_ttl = 2; option_auto_extend = true }))
      panics
      empty_store).0
    ≡ refused ticker_panic
unfolding with_lock acquire
too_short = refl

-- Two locks, one of them released twice.
abbrev some_calls : List Call
some_calls =
    acquire_call 5 1 none
    ∷ acquire_call 6 2 none
    ∷ release_call 5
    ∷ release_call 5
    ∷ release_all_call
    ∷ []

second_not_held :
    run_calls service some_calls new_manager empty_store
    ≡ success ∷ success ∷ success ∷ not_held ∷ []
unfolding manager_acquire manager_release manager_release_all release_keys acquire release
    arcgo.Mapping.GoMap.store arcgo.Mapping.GoMap.lookup arcgo.Mapping.GoMap.erase
    arcgo.Mapping.GoMap.keys_of
second_not_held = refl

manager_calm_example : Answers (run_calls service some_calls new_manager empty_store)
manager_calm_example =
    manager_calm service some_calls empty_store (refl, (refl, (tt, (tt, (tt, tt)))))
