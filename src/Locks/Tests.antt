-- ===== src/Locks/Tests.antt =====
-- A service in memory: the token of each key, and a clock of milliseconds.
use arcgo.Prelude.{
  ℕ, ◌+◌, ◌≡◌, ◌≢◌, refl, ◌∙◌, true, false, Bool, Option, none, some, arith, if◌then◌else◌, not,
  Bool-cases, inl, inr, nat_eqb, is_some, ==_iff,
}
use arcgo.Locks.{
  Reply, said, Client, not_acquired, closed_twice, Lock, new_lock, acquire, release, try_acquire,
}
use arcgo.Locks.Service.{IsKept, IsLockService}
use arcgo.Locks.Calls.{System, after_acquire, acquire_step, stay, move}
use arcgo.Locks.Exclusion.{mutual_exclusion}
use arcgo.Locks.Waiting.{Answered, try_acquire_lem}
use arcgo.Locks.Once.{release_once}

pub record Store : Type 0 where
  pub owner : ℕ → Option ℕ
  pub clock : ℕ

abbrev put : (ℕ → Option ℕ) → ℕ → Option ℕ → ℕ → Option ℕ
put f key o k = if nat_eqb k key then o else f k

abbrev has : Option ℕ → ℕ → Bool
has none token = false
has (some t) token = nat_eqb t token

abbrev take_free : Option ℕ → ℕ → Option ℕ
take_free none token = some token
take_free (some t) token = some t

abbrev give_up : Option ℕ → ℕ → Option ℕ
give_up none token = none
give_up (some t) token = if nat_eqb t token then none else some t

abbrev pub service : Client Store ℕ
service = record {
  client_acquire = λ s key token ttl. (
    said (not (is_some (s.owner key))),
    record s { owner = put s.owner key (take_free (s.owner key) token) },
  );
  client_release = λ s key token. (
    said (has (s.owner key) token),
    record s { owner = put s.owner key (give_up (s.owner key) token) },
  );
  client_extend = λ s key token ttl. (said (has (s.owner key) token), s);
}

put_self : (f : ℕ → Option ℕ) (key : ℕ) (o : Option ℕ) → put f key o key ≡ o
put_self f key o = ground arith

put_other : (f : ℕ → Option ℕ) (key : ℕ) (o : Option ℕ) (k : ℕ) → k ≢ key → put f key o k ≡ f k
put_other f key o k h = elim (Bool-cases (nat_eqb k key)) [
  | inl e ↦ absurd (h ((==_iff k key).0 e))
  | inr e ↦ rw e refl
]

put-IsKept :
    (s : Store) (key token : ℕ) (o : Option ℕ)
    → ((t : ℕ) → t ≢ token → s.owner key ≡ some t → o ≡ some t)
    → IsKept (λ (s : Store). s.owner) s key token (record s { owner = put s.owner key o })
put-IsKept s key token o h = record {
  other_key = λ k ne. put_other s.owner key o k ne;
  other_token = λ t ne e. put_self s.owner key o ∙ h t ne e;
}

take_free_kept : (o : Option ℕ) (token t : ℕ) → o ≡ some t → take_free o token ≡ some t
take_free_kept none token t e = cc
take_free_kept (some u) token t e = e

give_up_kept : (o : Option ℕ) (token t : ℕ) → t ≢ token → o ≡ some t → give_up o token ≡ some t
give_up_kept none token t ne e = cc
give_up_kept (some u) token t ne e = grind (arith, ne, e)

take_free_said :
    (o : Option ℕ) (token : ℕ)
    → ◌≡◌ {A = Reply ℕ} (said (not (is_some o))) (said true)
    → take_free o token ≡ some token
take_free_said none token e = refl
take_free_said (some u) token e = cc

pub in_memory : IsLockService service (λ (s : Store). s.owner)
in_memory = record {
  acquire_kept = λ s key token ttl.
      put-IsKept s key token _ (λ t ne e. take_free_kept (s.owner key) token t e);
  release_kept =
      λ s key token. put-IsKept s key token _ (λ t ne e. give_up_kept (s.owner key) token t ne e);
  extend_kept = λ s key token ttl. record { other_key = λ k ne. refl; other_token = λ t ne e. e };
  acquire_said = λ s key token ttl e. put_self s.owner key _ ∙ take_free_said (s.owner key) token e;
  acquire_own =
      λ s key token ttl e. put_self s.owner key _ ∙ take_free_kept (s.owner key) token token e;
  extend_own = λ s key token ttl e. e;
}

-- Lock `i` has the identifier `i`, and all are on key 5.
abbrev lock_of : ℕ → Lock
lock_of i = new_lock 5 i none

abbrev pub empty_store : Store
empty_store = record { owner = λ key. none; clock = 0 }

abbrev after_first : System Store
after_first =
    after_acquire service (λ (s : Store). s.owner)
      (record { locks = lock_of; held = λ i. false; world = empty_store }) 1

first_has : after_first.held 1 ≡ true
unfolding acquire
first_has = refl

second_refused : (acquire service (lock_of 2) after_first.world).0 ≡ not_acquired
unfolding acquire
second_refused = refl

mutual_exclusion_example : after_first.held 2 ≡ false
mutual_exclusion_example =
    mutual_exclusion service (λ (s : Store). s.owner) lock_of in_memory (λ i j ne. ne) empty_store
      (move (acquire_step 1) stay) 1 2 (omega arith) refl first_has

abbrev pub sleep : Store → Option ℕ × Store
sleep s = (none, record s { clock = s.clock + 100 })

try_acquire_example :
    Answered
      (λ (s : Store). s.owner)
      5
      2
      (try_acquire service (λ s. s.clock) sleep 4 250 (lock_of 2) after_first.world)
try_acquire_example =
    try_acquire_lem service (λ (s : Store). s.owner) (λ s. s.clock) sleep in_memory
      (λ s key token ttl. omega arith) (λ s e. omega arith) 250 (lock_of 2) after_first.world

release_once_example :
    let l = (release service (lock_of 1) after_first.world).1 in
    (release service l empty_store).0 ≡ closed_twice
    × (release service (acquire service l empty_store).1 empty_store).0 ≡ closed_twice
release_once_example =
    release_once service (lock_of 1) after_first.world empty_store empty_store refl
