-- ===== src/Locks/Shared/Tests.antt =====
-- A store in memory: the bytes under each key. Numbers are written as a sign and one digit of any size.
use arcgo.Prelude.{
  ℕ, zero, suc, ◌≡◌, refl, Bool, true, false, [], ◌∷◌, Option, none, some, if◌then◌else◌, arith,
  is_some, nat_eqb, is_nil, inl, inr,
}
use arcgo.Prelude.Int.{ℤ, pos, negsuc}
use arcgo.Prelude.Cache.{Bytes}
use arcgo.Locks.Shared.{
  Kv, success, Semaphore, new_rw_lock, load_count, acquire_counted, w_lock, w_unlock,
}
use arcgo.Locks.Shared.Counting.{found, IsReliable, permit_race}
use arcgo.Locks.Shared.Writers.{IsStore, writers_lem}

abbrev Store : Type 0
Store = Bytes → Option Bytes

abbrev same_key : Bytes → Bytes → Bool
same_key [] [] = true
same_key [] (b ∷ bs) = false
same_key (a ∷ as_) [] = false
same_key (a ∷ as_) (b ∷ bs) = if nat_eqb a b then same_key as_ bs else false

same_key_refl : (bs : Bytes) → same_key bs bs ≡ true
same_key_refl [] = refl
same_key_refl (b ∷ bs) =
    let same : nat_eqb b b ≡ true = ground arith in rw (same, same_key_refl bs) refl

abbrev put : Store → Bytes → Option Bytes → Store
put s key o k = if same_key k key then o else s k

put_same : (s : Store) (key : Bytes) (o : Option Bytes) → put s key o key ≡ o
put_same s key o = rw (same_key_refl key) refl

abbrev memory : Kv Store ℕ
memory = record {
  kv_get = λ s key. (found (s key), s);
  kv_set = λ s key v ttl. (none, put s key (some v));
  kv_delete = λ s key. (none, put s key none);
  kv_exists = λ s key. ((is_some (s key), none), s);
}

abbrev itoa : ℤ → Bytes
itoa (pos n) = zero ∷ n ∷ []
itoa (negsuc n) = suc zero ∷ n ∷ []

abbrev atoi : Bytes → Option ℤ
atoi (zero ∷ n ∷ []) = some (pos n)
atoi (suc zero ∷ n ∷ []) = some (negsuc n)
atoi bytes = none

itoa_written : (n : ℤ) → is_nil (itoa n) ≡ false
itoa_written (pos n) = refl
itoa_written (negsuc n) = refl

atoi-itoa : (n : ℤ) → atoi (itoa n) ≡ some n
atoi-itoa (pos n) = refl
atoi-itoa (negsuc n) = refl

memory-IsReliable : (key : Bytes) → IsReliable memory itoa atoi key (λ s. s key)
memory-IsReliable key = record {
  get_found = λ s. refl;
  get_kept = λ s. refl;
  set_done = λ s v ttl. refl;
  set_content = λ s v ttl. put_same s key (some v);
  written = itoa_written;
  read_back = atoi-itoa;
}

memory-IsStore : IsStore memory (λ s key. s key)
memory-IsStore = record {
  set_done = λ s key v ttl. refl;
  set_content = λ s key v ttl. put_same s key (some v);
  delete_done = λ s key. refl;
  delete_content = λ s key. put_same s key none;
}

abbrev jobs : Bytes
jobs = 106 ∷ 111 ∷ 98 ∷ 115 ∷ []

abbrev jobs_semaphore : Semaphore
jobs_semaphore = record { key = jobs; limit = pos 1 }

-- No permit was given yet.
abbrev empty_store : Store
empty_store key = none

permit_race_example :
    let (first, s1) = load_count memory itoa atoi jobs_semaphore true empty_store in
    let (second, s2) = load_count memory itoa atoi jobs_semaphore true s1 in
    let (a, s3) = acquire_counted memory itoa atoi jobs_semaphore 5 first s2 in
    let (b, s4) = acquire_counted memory itoa atoi jobs_semaphore 5 second s3 in
    (a ≡ success) × (b ≡ success) × (s4 jobs ≡ some (itoa (pos 1)))
permit_race_example =
    permit_race memory itoa atoi 1 jobs (λ s. s jobs) (memory-IsReliable jobs) 0 5 empty_store
      (inr (refl, inl refl)) (omega arith)

writers_lem_example :
    let a = new_rw_lock jobs (1 ∷ []) in
    let b = new_rw_lock jobs (2 ∷ []) in
    let (first, s1) = w_lock memory a 5 empty_store in
    let (second, s2) = w_lock memory b 5 s1 in
    let (third, s3) = w_unlock memory a s2 in
    (first ≡ success)
    × (second ≡ success)
    × (s2 b.write_key ≡ some (2 ∷ []))
    × (third ≡ success)
    × (s3 b.write_key ≡ none)
writers_lem_example =
    writers_lem memory (λ s key. s key) memory-IsStore jobs (1 ∷ []) (2 ∷ []) 5 empty_store
