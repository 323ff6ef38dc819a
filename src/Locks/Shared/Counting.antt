-- ===== src/Locks/Shared/Counting.antt =====
-- kvx/module/lock/semaphore.go: permits counted one call after another, and by two callers at once.
use arcgo.Prelude.{
  ℕ, zero, suc, ◌⊎◌, [], ◌-◌, ◌<◌, ◌≡◌, refl, ap, ◌∙◌, Bool, true, false, Option, none, some,
  if◌then◌else◌, arith, is_nil, ltb, Bool-cases, inl, inr,
}
use arcgo.Prelude.Int.{ℤ, pos}
use arcgo.Prelude.Cache.{Bytes}
use arcgo.Paging.{int_lt}
use arcgo.Locks.Shared.{
  Got, value, missing, Kv, success, not_acquired, set_answer, count, Semaphore, load_count,
  store_count, acquire_counted, acquire_permit, release_permit,
}

-- A client that does not fail, with the bytes under the semaphore's key, and numbers that read back
-- as they were written.
abbrev pub found : {E : Type 0} → Option Bytes → Got E
found none = missing
found (some bytes) = value bytes

pub record IsReliable {S E : Type 0} (kv : Kv S E) (itoa : ℤ → Bytes) (atoi : Bytes → Option ℤ)
    (key : Bytes) (content : S → Option Bytes) : Type 0 where
  pub get_found : (s : S) → (kv.kv_get s key).0 ≡ found (content s)
  pub get_kept : (s : S) → content (kv.kv_get s key).1 ≡ content s
  pub set_done : (s : S) (v : Bytes) (ttl : ℕ) → (kv.kv_set s key v ttl).0 ≡ none
  pub set_content : (s : S) (v : Bytes) (ttl : ℕ) → content (kv.kv_set s key v ttl).1 ≡ some v
  pub written : (n : ℤ) → is_nil (itoa n) ≡ false
  pub read_back : (n : ℤ) → atoi (itoa n) ≡ some n

module _ {S E : Type 0} (kv : Kv S E) (itoa : ℤ → Bytes) (atoi : Bytes → Option ℤ) (limit : ℕ)
    (key : Bytes) (content : S → Option Bytes)
    (reliable : IsReliable kv itoa atoi key content) where
  abbrev sem : Semaphore
  sem = record { key = key; limit = pos limit }

  -- `n` is stored, in decimal.
  abbrev pub Stored : ℕ → S → Type 0
  Stored n s = content s ≡ some (itoa (pos n))

  -- The count that a call of Acquire loads: one that is stored, or 0 for a key that is missing or
  -- empty.
  abbrev pub Holds : ℕ → S → Type 0
  Holds n s = Stored n s ⊎ ((n ≡ 0) × ((content s ≡ none) ⊎ (content s ≡ some [])))

  load-Stored :
      (n : ℕ) (b : Bool) (s : S) → Stored n s → (load_count kv itoa atoi sem b s).0 ≡ count (pos n)
  unfolding load_count
  load-Stored n true s h =
      rw (reliable.get_found s ∙ ap found h, reliable.written (pos n), reliable.read_back (pos n))
        refl
  load-Stored n false s h =
      rw (reliable.get_found s ∙ ap found h, reliable.written (pos n), reliable.read_back (pos n))
        refl

  load_lem : (n : ℕ) (s : S) → Holds n s → (load_count kv itoa atoi sem true s).0 ≡ count (pos n)
  unfolding load_count
  load_lem n s (inl h) = load-Stored n true s h
  load_lem n s (inr (z, inl h)) = rw (reliable.get_found s ∙ ap found h, z) refl
  load_lem n s (inr (z, inr h)) = rw (reliable.get_found s ∙ ap found h, z) refl

  load_kept : (n : ℕ) (b : Bool) (s : S) → Holds n s → Holds n (load_count kv itoa atoi sem b s).1
  unfolding load_count
  load_kept n b s (inl h) = inl (reliable.get_kept s ∙ h)
  load_kept n b s (inr (z, inl h)) = inr (z, inl (reliable.get_kept s ∙ h))
  load_kept n b s (inr (z, inr h)) = inr (z, inr (reliable.get_kept s ∙ h))

  store_lem :
      (n ttl : ℕ) (s : S)
      → ((store_count kv itoa atoi sem (pos n) ttl s).0 ≡ success)
        × Stored n (store_count kv itoa atoi sem (pos n) ttl s).1
  unfolding store_count
  store_lem n ttl s = (ap set_answer (reliable.set_done s _ ttl), reliable.set_content s _ ttl)

  -- The second half of Acquire, whatever the count is by then.
  counted_lem :
      (n m ttl : ℕ) (s : S)
      → Holds m s
      → ((acquire_counted kv itoa atoi sem ttl (count (pos n)) s).0
          ≡ (if ltb n limit then success else not_acquired))
        × Holds
            (if ltb n limit then suc n else m)
            (acquire_counted kv itoa atoi sem ttl (count (pos n)) s).1
  unfolding int_lt
  counted_lem n m ttl s h = elim (Bool-cases (ltb n limit)) [
    | inl e ↦ let (done, stored) = store_lem (suc n) ttl s in rw e (done, inl stored)
    | inr e ↦ rw e (refl, h)
  ]

  pub acquire_permit_lem :
      (n ttl : ℕ) (s : S)
      → Holds n s
      → ((acquire_permit kv itoa atoi sem ttl s).0
          ≡ (if ltb n limit then success else not_acquired))
        × Holds (if ltb n limit then suc n else n) (acquire_permit kv itoa atoi sem ttl s).1
  unfolding acquire_permit
  acquire_permit_lem n ttl s h =
      rw (load_lem n s h)
        (counted_lem n n ttl (load_count kv itoa atoi sem true s).1 (load_kept n true s h))

  pub release_permit_lem :
      (n : ℕ) (s : S)
      → Stored n s
      → ((release_permit kv itoa atoi sem s).0 ≡ success)
        × Stored (n - 1) (release_permit kv itoa atoi sem s).1
  unfolding release_permit
  release_permit_lem zero s h = rw (load-Stored zero false s h) (store_lem zero 0 _)
  release_permit_lem (suc n) s h =
      let less : suc n - 1 ≡ n = omega arith in
      rw (load-Stored (suc n) false s h, less) (store_lem n 0 _)

  stored_lem :
      (n ttl : ℕ) (s : S)
      → n < limit
      → ((acquire_counted kv itoa atoi sem ttl (count (pos n)) s).0 ≡ success)
        × Stored (suc n) (acquire_counted kv itoa atoi sem ttl (count (pos n)) s).1
  unfolding int_lt
  stored_lem n ttl s below =
      let room : ltb n limit ≡ true = ground arith in rw room (store_lem (suc n) ttl s)

  -- Over a client that does not fail, where the count of a semaphore is below its limit, stored or
  -- 0 for a key that is missing or empty, two callers that both load it before either stores it
  -- both get a permit, though one may be left, and the count that is stored is one more than
  -- before.
  pub permit_race :
      (n ttl : ℕ) (s : S)
      → Holds n s
      → n < limit
      → let (first, s1) = load_count kv itoa atoi sem true s in
        let (second, s2) = load_count kv itoa atoi sem true s1 in
        let (a, s3) = acquire_counted kv itoa atoi sem ttl first s2 in
        let (b, s4) = acquire_counted kv itoa atoi sem ttl second s3 in
        (a ≡ success) × (b ≡ success) × Stored (suc n) s4
  permit_race n ttl s h below =
      let h1 = load_kept n true s h in
      let (first, _) = stored_lem n ttl _ below in
      let (second, held) = stored_lem n ttl _ below in
      rw (load_lem n s h, load_lem n (load_count kv itoa atoi sem true s).1 h1)
        (first, second, held)
