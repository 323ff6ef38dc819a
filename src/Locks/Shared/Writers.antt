-- ===== src/Locks/Shared/Writers.antt =====
-- kvx/module/lock/rwlock.go: write locks of two callers.
use arcgo.Prelude.{ℕ, ◌≡◌, ap, Option, none, some}
use arcgo.Prelude.Cache.{Bytes}
use arcgo.Locks.Shared.{Kv, success, set_answer, new_rw_lock, w_lock, w_unlock}

-- A client that sets and deletes the values of a key, and does not fail.
pub record IsStore {S E : Type 0} (kv : Kv S E) (content : S → Bytes → Option Bytes) : Type 0 where
  pub set_done : (s : S) (key v : Bytes) (ttl : ℕ) → (kv.kv_set s key v ttl).0 ≡ none
  pub set_content :
      (s : S) (key v : Bytes) (ttl : ℕ) → content (kv.kv_set s key v ttl).1 key ≡ some v
  pub delete_done : (s : S) (key : Bytes) → (kv.kv_delete s key).0 ≡ none
  pub delete_content : (s : S) (key : Bytes) → content (kv.kv_delete s key).1 key ≡ none

module _ {S E : Type 0} (kv : Kv S E) (content : S → Bytes → Option Bytes)
    (is_store : IsStore kv content) where
  -- Over a client that does not fail, Lock of one writer and then Lock of another on the same key
  -- both succeed, and Unlock of the first removes the lock of the second.
  pub writers_lem :
      (key mine yours : Bytes) (ttl : ℕ) (s : S)
      → let a = new_rw_lock key mine in
        let b = new_rw_lock key yours in
        let (first, s1) = w_lock kv a ttl s in
        let (second, s2) = w_lock kv b ttl s1 in
        let (third, s3) = w_unlock kv a s2 in
        (first ≡ success)
        × (second ≡ success)
        × (content s2 b.write_key ≡ some yours)
        × (third ≡ success)
        × (content s3 b.write_key ≡ none)
  unfolding w_lock w_unlock
  writers_lem key mine yours ttl s = (
    ap set_answer (is_store.set_done s _ mine ttl),
    ap set_answer (is_store.set_done _ _ yours ttl),
    is_store.set_content _ _ yours ttl,
    ap set_answer (is_store.delete_done _ _),
    is_store.delete_content _ _,
  )
