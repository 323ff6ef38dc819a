-- ===== src/Locks/Shared.antt =====
-- kvx/module/lock/semaphore.go and rwlock.go: a counter and a write lock kept under plain keys. The
-- client is a parameter, and so are `strconv.Itoa` and `strconv.Atoi`; a string is a list of bytes.
pub mod Counting
pub mod Writers
mod Tests
use arcgo.Prelude.{
  ℕ, zero, suc, ◌+◌, ◌-◌, ◌≡◌, ◌≢◌, Bool, true, false, ◌&&◌, List, [], ◌∷◌, ◌++◌, Option, none,
  some, if◌then◌else◌, leb, is_nil,
}
use arcgo.Prelude.Int.{ℤ, pos, negsuc}
use arcgo.Prelude.Cache.{Bytes}
use arcgo.Paging.{int_lt}

-- What `Get` gives: a value, `kvx.ErrNil`, or another error.
pub data Got (E : Type 0) : Type 0 where
  value : Bytes → Got E
  missing : Got E
  get_failed : E → Got E

-- `none` for success.
pub record Kv (S E : Type 0) : Type 0 where
  pub kv_get : S → Bytes → Got E × S
  pub kv_set : S → Bytes → Bytes → ℕ → Option E × S
  pub kv_delete : S → Bytes → Option E × S
  pub kv_exists : S → Bytes → (Bool × Option E) × S

pub data Answer (E : Type 0) : Type 0 where
  success not_acquired bad_count no_count : Answer E
  client_error : E → Answer E

-- The count, or the error that ends the call.
pub data Loaded (E : Type 0) : Type 0 where
  count : ℤ → Loaded E
  refused : Answer E → Loaded E

abbrev pub set_answer : {E : Type 0} → Option E → Answer E
set_answer none = success
set_answer (some e) = client_error e

abbrev plus_one : ℤ → ℤ
plus_one (pos n) = pos (suc n)
plus_one (negsuc zero) = pos 0
plus_one (negsuc (suc n)) = negsuc n

-- `if count > 0 { count-- }`
abbrev less_one : ℤ → ℤ
less_one (pos (suc n)) = pos n
less_one n = n

pub record Semaphore : Type 0 where
  pub key : Bytes
  pub limit : ℤ

module _ {E : Type 0} (atoi : Bytes → Option ℤ) where
  abbrev parsed : Option ℤ → Loaded E
  parsed none = refused bad_count
  parsed (some n) = count n

  abbrev got_count : Bool → Got E → Loaded E
  got_count allow_missing (get_failed e) = refused (client_error e)
  got_count true missing = count (pos 0)
  got_count false missing = refused no_count
  got_count allow_missing (value bytes) =
      if is_nil bytes then count (pos 0) else parsed (atoi bytes)

module _ {S E : Type 0} (kv : Kv S E) (itoa : ℤ → Bytes) (atoi : Bytes → Option ℤ) where
  unfoldable pub load_count : Semaphore → Bool → S → Loaded E × S
  load_count sem allow_missing s =
      let (got, s') = kv.kv_get s sem.key in (got_count atoi allow_missing got, s')

  unfoldable pub store_count : Semaphore → ℤ → ℕ → S → Answer E × S
  store_count sem n ttl s = let (e, s') = kv.kv_set s sem.key (itoa n) ttl in (set_answer e, s')

  -- The second half of Acquire, on the count that was loaded.
  abbrev pub acquire_counted : Semaphore → ℕ → Loaded E → S → Answer E × S
  acquire_counted sem ttl (refused answer) s = (answer, s)
  acquire_counted sem ttl (count n) s =
      if int_lt n sem.limit then store_count sem (plus_one n) ttl s else (not_acquired, s)

  unfoldable pub acquire_permit : Semaphore → ℕ → S → Answer E × S
  acquire_permit sem ttl s =
      let (loaded, s') = load_count sem true s in acquire_counted sem ttl loaded s'

  abbrev release_counted : Semaphore → Loaded E → S → Answer E × S
  release_counted sem (refused answer) s = (answer, s)
  release_counted sem (count n) s = store_count sem (less_one n) 0 s

  unfoldable pub release_permit : Semaphore → S → Answer E × S
  release_permit sem s = let (loaded, s') = load_count sem false s in release_counted sem loaded s'

-- `:read` and `:write`
abbrev read_suffix : Bytes
read_suffix = 58 ∷ 114 ∷ 101 ∷ 97 ∷ 100 ∷ []

abbrev write_suffix : Bytes
write_suffix = 58 ∷ 119 ∷ 114 ∷ 105 ∷ 116 ∷ 101 ∷ []

pub record RwLock : Type 0 where
  pub read_key : Bytes
  pub write_key : Bytes
  pub identifier : Bytes

abbrev pub new_rw_lock : Bytes → Bytes → RwLock
new_rw_lock key identifier = record {
  read_key = key ++ read_suffix;
  write_key = key ++ write_suffix;
  identifier = identifier;
}

abbrev pub reader_key : RwLock → Bytes
reader_key rw = rw.read_key ++ (58 ∷ rw.identifier)

module _ {S E : Type 0} (kv : Kv S E) where
  abbrev answered : Option E × S → Answer E × S
  answered (e, s) = (set_answer e, s)

  abbrev read_checked : RwLock → ℕ → (Bool × Option E) × S → Answer E × S
  read_checked rw ttl ((there, some e), s) = (client_error e, s)
  read_checked rw ttl ((true, none), s) = (not_acquired, s)
  read_checked rw ttl ((false, none), s) = answered (kv.kv_set s (reader_key rw) (49 ∷ []) ttl)

  unfoldable pub r_lock : RwLock → ℕ → S → Answer E × S
  r_lock rw ttl s = read_checked rw ttl (kv.kv_exists s rw.write_key)

  unfoldable pub r_unlock : RwLock → S → Answer E × S
  r_unlock rw s = answered (kv.kv_delete s (reader_key rw))

  unfoldable pub w_lock : RwLock → ℕ → S → Answer E × S
  w_lock rw ttl s = answered (kv.kv_set s rw.write_key rw.identifier ttl)

  unfoldable pub w_unlock : RwLock → S → Answer E × S
  w_unlock rw s = answered (kv.kv_delete s rw.write_key)
