-- ===== src/Locks/Calls.antt =====
-- kvx/module/lock/lock.go: locks with identifiers of their own on a common service, in any order of
-- calls and ticks, and with leases that run out; what each call does to the store.
use arcgo.Prelude.{
  ℕ, ◌≡◌, ◌≢◌, refl, Bool, true, false, ◌&&◌, ◌||◌, not, Option, none, some, if◌then◌else◌, nat_eqb,
  ltb, arith, Bool-cases, inl, inr,
}
use arcgo.Locks.{
  Reply, said, failed, Client, Answer, success, Lock, acquired, acquire, release, released,
  stop_auto_extend, ticker_panics, context_done, extend, tick, ticked,
}
use arcgo.Locks.Service.{IsKept, IsLockService}

abbrev pub update : {A : Type 0} → (ℕ → A) → ℕ → A → ℕ → A
update f i a j = if nat_eqb i j then a else f j

-- The locks by number, and which of them were acquired and not released since, with a lease that
-- has not run out.
pub record System (S : Type 0) : Type 0 where
  pub locks : ℕ → Lock
  pub held : ℕ → Bool
  pub world : S

abbrev pub is_success : {E : Type 0} → Answer E → Bool
is_success success = true
is_success answer = false

module _ {S E : Type 0} (client : Client S E) (holder : S → ℕ → Option ℕ) where
  abbrev pub after_acquire : System S → ℕ → System S
  after_acquire s i =
      let (answer, l, w) = acquire client (s.locks i) s.world in
      record {
        locks = update s.locks i l;
        held = update s.held i (is_success answer || s.held i);
        world = w;
      }

  abbrev pub after_release : System S → ℕ → System S
  after_release s i =
      let (answer, l, w) = release client (s.locks i) s.world in
      record { locks = update s.locks i l; held = update s.held i false; world = w }

  abbrev pub after_extend : System S → ℕ → ℕ → System S
  after_extend s i ttl = record s { world = (extend client (s.locks i) ttl s.world).1 }

  abbrev pub after_tick : System S → ℕ → System S
  after_tick s i =
      let (l, w) = tick client (s.locks i) s.world in
      record s { locks = update s.locks i l; world = w }

  abbrev pub after_done : System S → ℕ → System S
  after_done s i = record s { locks = update s.locks i (context_done (s.locks i)) }

  -- The leases on a key run out.
  abbrev pub after_expiry : System S → ℕ → S → System S
  after_expiry s key w = record s {
    held = λ i. s.held i && not (nat_eqb (s.locks i).key key);
    world = w;
  }

  pub data Step : System S → System S → Type 0 where
    acquire_step : {s : System S} (i : ℕ) → Step s (after_acquire s i)
    release_step : {s : System S} (i : ℕ) → Step s (after_release s i)
    extend_step : {s : System S} (i ttl : ℕ) → Step s (after_extend s i ttl)
    tick_step : {s : System S} (i : ℕ) → Step s (after_tick s i)
    done_step : {s : System S} (i : ℕ) → Step s (after_done s i)
    expire_step :
        {s : System S} (key : ℕ) (w : S)
        → ((k : ℕ) → k ≢ key → holder w k ≡ holder s.world k)
        → Step s (after_expiry s key w)

  pub data Steps : System S → System S → Type 0 where
    stay : {s : System S} → Steps s s
    move : {s t u : System S} → Step s t → Steps t u → Steps s u

  -- A lock keeps its key and identifier, and one that is held has the token of its key.
  pub record Inv (start : ℕ → Lock) (s : System S) : Type 0 where
    pub keys : (i : ℕ) → (s.locks i).key ≡ (start i).key
    pub identifiers : (i : ℕ) → (s.locks i).identifier ≡ (start i).identifier
    pub owned : (i : ℕ) → s.held i ≡ true → holder s.world (start i).key ≡ some (start i).identifier

  -- What a call leaves of a lock.
  abbrev pub Same : Lock → Lock → Type 0
  Same l l' = (l'.key ≡ l.key) × (l'.identifier ≡ l.identifier)

  acquired-Same : (l : Lock) (r : Reply E × S) → Same l (acquired client l r).1
  acquired-Same l (failed e, s) = (refl, refl)
  acquired-Same l (said false, s) = (refl, refl)
  acquired-Same l (said true, s) = elim (Bool-cases (ticker_panics l)) [
    | inl p ↦ rw p (refl, refl)
    | inr p ↦ elim (Bool-cases l.auto_extend) [
      | inl e ↦ rw p (rw e (refl, refl))
      | inr e ↦ rw p (rw e (refl, refl))
    ]
  ]

  acquired-said :
      (l : Lock) (r : Reply E × S) → is_success (acquired client l r).0 ≡ true → r.0 ≡ said true
  acquired-said l (failed e, s) h = cc
  acquired-said l (said false, s) h = cc
  acquired-said l (said true, s) h = refl

  pub acquired-world : (l : Lock) (r : Reply E × S) → (acquired client l r).2 ≡ r.1
  acquired-world l (failed e, s) = refl
  acquired-world l (said false, s) = refl
  acquired-world l (said true, s) = elim (Bool-cases (ticker_panics l)) [
    | inl p ↦ rw p refl
    | inr p ↦ rw p refl
  ]

  -- The three calls that a lock makes, as one: what it becomes, and that the service keeps to its word.
  pub acquire_lem :
      (l : Lock) (w : S)
      → IsLockService client holder
      → Same l (acquire client l w).1
        × IsKept holder w l.key l.identifier (acquire client l w).2
        × (is_success (acquire client l w).0 ≡ true
            → holder (acquire client l w).2 l.key ≡ some l.identifier)
        × (holder w l.key ≡ some l.identifier
            → holder (acquire client l w).2 l.key ≡ some l.identifier)
  unfolding acquire
  acquire_lem l w h =
      let r = client.client_acquire w l.key l.identifier l.ttl in
      rw (acquired-world l r) (
        acquired-Same l r,
        h.acquire_kept w l.key l.identifier l.ttl,
        λ e. h.acquire_said w l.key l.identifier l.ttl (acquired-said l r e),
        h.acquire_own w l.key l.identifier l.ttl,
      )

  IsKept-refl : (w : S) (key token : ℕ) → IsKept holder w key token w
  IsKept-refl w key token = record { other_key = λ k e. refl; other_token = λ t e h. h }

  released_lem :
      (l : Lock) (o : Option Lock) (w : S)
      → IsLockService client holder
      → ((l' : Lock) → o ≡ some l' → Same l l')
      → Same l (released client l o w).1
        × IsKept holder w l.key l.identifier (released client l o w).2
  released_lem l none w h k = ((refl, refl), IsKept-refl w l.key l.identifier)
  released_lem l (some l') w h k =
      let (key, id) = k l' refl in ((key, id), rw (key, id) (h.release_kept w l.key l.identifier))

  stopped-Same : (l l' : Lock) → stop_auto_extend client l ≡ some l' → Same l l'
  stopped-Same l l' e = grind (arith, e)

  pub release_lem :
      (l : Lock) (w : S)
      → IsLockService client holder
      → Same l (release client l w).1 × IsKept holder w l.key l.identifier (release client l w).2
  unfolding release
  release_lem l w h = released_lem l (stop_auto_extend client l) w h (λ l' e. stopped-Same l l' e)

  ticked_lem :
      (l : Lock) (r : Reply E × S) → Same l (ticked client l r).0 × ((ticked client l r).1 ≡ r.1)
  ticked_lem l (failed e, s) = ((refl, refl), refl)
  ticked_lem l (said b, s) = ((refl, refl), refl)

  tick_if :
      (b : Bool) (l : Lock) (w : S) (r : Reply E × S)
      → IsKept holder w l.key l.identifier r.1
      → (holder w l.key ≡ some l.identifier → holder r.1 l.key ≡ some l.identifier)
      → let t = if b then ticked client l r else (l, w) in
        Same l t.0
        × IsKept holder w l.key l.identifier t.1
        × (holder w l.key ≡ some l.identifier → holder t.1 l.key ≡ some l.identifier)
  tick_if false l w r h k = ((refl, refl), IsKept-refl w l.key l.identifier, λ e. e)
  tick_if true l w (failed e, s) h k = ((refl, refl), h, k)
  tick_if true l w (said b, s) h k = ((refl, refl), h, k)

  pub tick_lem :
      (l : Lock) (w : S)
      → IsLockService client holder
      → Same l (tick client l w).0
        × IsKept holder w l.key l.identifier (tick client l w).1
        × (holder w l.key ≡ some l.identifier
            → holder (tick client l w).1 l.key ≡ some l.identifier)
  unfolding tick
  tick_lem l w h =
      tick_if (ltb 0 l.extending) l w (client.client_extend w l.key l.identifier l.ttl)
        (h.extend_kept w l.key l.identifier l.ttl) (h.extend_own w l.key l.identifier l.ttl)
