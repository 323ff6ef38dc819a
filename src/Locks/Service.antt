-- ===== src/Locks/Service.antt =====
-- kvx/core.go: what a lock client promises, as far as kvx/module/lock relies on it.
use arcgo.Prelude.{ℕ, ◌≡◌, ◌≢◌, true, Option, some}
use arcgo.Locks.{said, Client}

-- `holder s key` is the token that has the lock of the key. A call, even one that fails, changes
-- nothing for other keys and takes no lock away from another token.
pub record IsKept {S : Type 0} (holder : S → ℕ → Option ℕ) (s : S) (key token : ℕ) (s' : S)
    : Type 0 where
  pub other_key : (k : ℕ) → k ≢ key → holder s' k ≡ holder s k
  pub other_token : (t : ℕ) → t ≢ token → holder s key ≡ some t → holder s' key ≡ some t

pub record IsLockService {S E : Type 0} (client : Client S E) (holder : S → ℕ → Option ℕ)
    : Type 0 where
  pub acquire_kept :
      (s : S) (key token ttl : ℕ)
      → IsKept holder s key token (client.client_acquire s key token ttl).1
  pub release_kept :
      (s : S) (key token : ℕ) → IsKept holder s key token (client.client_release s key token).1
  pub extend_kept :
      (s : S) (key token ttl : ℕ)
      → IsKept holder s key token (client.client_extend s key token ttl).1
  -- An acquired lock is that of the token; acquiring or extending does not give up its own.
  pub acquire_said :
      (s : S) (key token ttl : ℕ)
      → (client.client_acquire s key token ttl).0 ≡ said true
      → holder (client.client_acquire s key token ttl).1 key ≡ some token
  pub acquire_own :
      (s : S) (key token ttl : ℕ)
      → holder s key ≡ some token
      → holder (client.client_acquire s key token ttl).1 key ≡ some token
  pub extend_own :
      (s : S) (key token ttl : ℕ)
      → holder s key ≡ some token
      → holder (client.client_extend s key token ttl).1 key ≡ some token
