-- ===== src/Locks/Exclusion.antt =====
-- kvx/module/lock/lock.go: no two locks on one key are held at a time.
use mathlib.Core.Path.{subst}
use arcgo.Prelude.{
  ℕ, ◌≡◌, ◌≢◌, refl, sym, ap, ◌∙◌, Bool, true, false, ◌&&◌, ◌||◌, not, Option, some, nat_eqb,
  ==_iff, Bool-cases, inl, inr,
}
use arcgo.Locks.{Client, Lock, acquire, release, extend}
use arcgo.Locks.Service.{IsKept, IsLockService}
use arcgo.Locks.Calls.{
  update, System, after_acquire, after_release, Step, acquire_step, release_step, extend_step,
  tick_step, done_step, expire_step, Steps, stay, move, Inv, acquire_lem, release_lem, tick_lem,
}

some_inj : {a b : ℕ} → some a ≡ some b → a ≡ b
some_inj e = cc

-- Entry by entry, what holds of the new one and of the others.
update_all :
    {A : Type 0} (P : ℕ → A → Type 0) (f : ℕ → A) (i : ℕ) (a : A)
    → P i a
    → ((j : ℕ) → i ≢ j → P j (f j))
    → (j : ℕ) → P j (update f i a j)
update_all P f i a h k j = elim (Bool-cases (nat_eqb i j)) [
  | inl e ↦ rw e (subst (λ n. P n a) ((==_iff i j).0 e) h)
  | inr e ↦ rw e (k j (λ same. cc (e, (==_iff i j).1 same)))
]

module _ {S E : Type 0} (client : Client S E) (holder : S → ℕ → Option ℕ) (start : ℕ → Lock)
    (service : IsLockService client holder)
    (distinct : (i j : ℕ) → i ≢ j → (start i).identifier ≢ (start j).identifier) where
  -- A call of one lock leaves the others theirs.
  others_owned :
      (s : System S) (i : ℕ) (w : S)
      → Inv client holder start s
      → IsKept holder s.world (s.locks i).key (s.locks i).identifier w
      → (j : ℕ) → i ≢ j
      → s.held j ≡ true
      → holder w (start j).key ≡ some (start j).identifier
  others_owned s i w v k j ne h = elim (Bool-cases (nat_eqb (start j).key (s.locks i).key)) [
    | inl e ↦
        let same = (==_iff (start j).key (s.locks i).key).0 e in
        rw same (
          k.other_token (start j).identifier (λ q. distinct i j ne (sym (v.identifiers i) ∙ sym q))
            (rw same at (v.owned j h)))
    | inr e ↦
        k.other_key (start j).key (λ same. cc (e, (==_iff (start j).key (s.locks i).key).1 same))
        ∙ v.owned j h
  ]

  as_started :
      (s : System S) (i : ℕ) (w : S)
      → Inv client holder start s
      → holder w (s.locks i).key ≡ some (s.locks i).identifier
      → holder w (start i).key ≡ some (start i).identifier
  as_started s i w v e = rw (v.keys i, v.identifiers i) at e

  still_owned :
      (s : System S) (i : ℕ) (w : S)
      → Inv client holder start s
      → (holder s.world (s.locks i).key ≡ some (s.locks i).identifier
          → holder w (s.locks i).key ≡ some (s.locks i).identifier)
      → s.held i ≡ true
      → holder w (start i).key ≡ some (start i).identifier
  still_owned s i w v own h =
      as_started s i w v (own (rw (v.keys i, v.identifiers i) (v.owned i h)))

  acquired_owned :
      (s : System S) (i : ℕ) {w : S} {b : Bool}
      → Inv client holder start s
      → (b ≡ true → holder w (s.locks i).key ≡ some (s.locks i).identifier)
      → (holder s.world (s.locks i).key ≡ some (s.locks i).identifier
          → holder w (s.locks i).key ≡ some (s.locks i).identifier)
      → (b || s.held i) ≡ true
      → holder w (start i).key ≡ some (start i).identifier
  acquired_owned s i {w} {b = true} v got own h = as_started s i w v (got refl)
  acquired_owned s i {w} {b = false} v got own h = still_owned s i w v own h

  acquire-Inv :
      (s : System S) (i : ℕ)
      → Inv client holder start s
      → Inv client holder start (after_acquire client holder s i)
  acquire-Inv s i v =
      let ((key, id), kept, got, own) = acquire_lem client holder (s.locks i) s.world service in
      record {
        keys =
            update_all (λ j l. l.key ≡ (start j).key) s.locks i _ (key ∙ v.keys i)
              (λ j ne. v.keys j);
        identifiers =
            update_all (λ j l. l.identifier ≡ (start j).identifier) s.locks i _
              (id ∙ v.identifiers i) (λ j ne. v.identifiers j);
        owned =
            update_all
              (λ j b.
                b ≡ true
                → holder (acquire client (s.locks i) s.world).2 (start j).key
                  ≡ some (start j).identifier)
              s.held i _ (λ h. acquired_owned s i v got own h)
              (λ j ne h. others_owned s i _ v kept j ne h);
      }

  release-Inv :
      (s : System S) (i : ℕ)
      → Inv client holder start s
      → Inv client holder start (after_release client holder s i)
  release-Inv s i v =
      let ((key, id), kept) = release_lem client holder (s.locks i) s.world service in
      record {
        keys =
            update_all (λ j l. l.key ≡ (start j).key) s.locks i _ (key ∙ v.keys i)
              (λ j ne. v.keys j);
        identifiers =
            update_all (λ j l. l.identifier ≡ (start j).identifier) s.locks i _
              (id ∙ v.identifiers i) (λ j ne. v.identifiers j);
        owned =
            update_all
              (λ j b.
                b ≡ true
                → holder (release client (s.locks i) s.world).2 (start j).key
                  ≡ some (start j).identifier)
              s.held i false (λ h. cc) (λ j ne h. others_owned s i _ v kept j ne h);
      }

  -- A call that leaves all that is held as it is.
  owned_kept :
      (s : System S) (i : ℕ) (w : S)
      → Inv client holder start s
      → IsKept holder s.world (s.locks i).key (s.locks i).identifier w
      → (holder s.world (s.locks i).key ≡ some (s.locks i).identifier
          → holder w (s.locks i).key ≡ some (s.locks i).identifier)
      → (j : ℕ) → s.held j ≡ true
      → holder w (start j).key ≡ some (start j).identifier
  owned_kept s i w v kept own j h = elim (Bool-cases (nat_eqb i j)) [
    | inl e ↦
        let same = (==_iff i j).0 e in
        subst (λ n. holder w (start n).key ≡ some (start n).identifier) same
          (still_owned s i w v own (subst (λ n. s.held n ≡ true) (sym same) h))
    | inr e ↦ others_owned s i w v kept j (λ same. cc (e, (==_iff i j).1 same)) h
  ]

  expired_owned :
      (s : System S) (key : ℕ) (w : S)
      → Inv client holder start s
      → ((k : ℕ) → k ≢ key → holder w k ≡ holder s.world k)
      → (j : ℕ) → (s.held j && not (nat_eqb (s.locks j).key key)) ≡ true
      → holder w (start j).key ≡ some (start j).identifier
  expired_owned s key w v kept j h = elim (Bool-cases (s.held j)) [
    | inl e ↦
        kept (start j).key
          (λ same. cc (rw e at h, (==_iff (s.locks j).key key).1 (v.keys j ∙ same)))
        ∙ v.owned j e
    | inr e ↦ cc (rw e at h)
  ]

  Step-Inv :
      {s t : System S}
      → Step client holder s t
      → Inv client holder start s
      → Inv client holder start t
  unfolding extend
  Step-Inv (acquire_step {s} i) v = acquire-Inv s i v
  Step-Inv (release_step {s} i) v = release-Inv s i v
  Step-Inv (extend_step {s} i ttl) v = record {
    keys = v.keys;
    identifiers = v.identifiers;
    owned =
        owned_kept s i _ v (service.extend_kept s.world (s.locks i).key (s.locks i).identifier ttl)
          (service.extend_own s.world (s.locks i).key (s.locks i).identifier ttl);
  }
  Step-Inv (tick_step {s} i) v =
      let ((key, id), kept, own) = tick_lem client holder (s.locks i) s.world service in
      record {
        keys =
            update_all (λ j l. l.key ≡ (start j).key) s.locks i _ (key ∙ v.keys i)
              (λ j ne. v.keys j);
        identifiers =
            update_all (λ j l. l.identifier ≡ (start j).identifier) s.locks i _
              (id ∙ v.identifiers i) (λ j ne. v.identifiers j);
        owned = owned_kept s i _ v kept own;
      }
  Step-Inv (done_step {s} i) v = record {
    keys = update_all (λ j l. l.key ≡ (start j).key) s.locks i _ (v.keys i) (λ j ne. v.keys j);
    identifiers =
        update_all (λ j l. l.identifier ≡ (start j).identifier) s.locks i _ (v.identifiers i)
          (λ j ne. v.identifiers j);
    owned = v.owned;
  }
  Step-Inv (expire_step {s} key w kept) v = record {
    keys = v.keys;
    identifiers = v.identifiers;
    owned = λ j h. expired_owned s key w v kept j h;
  }

  Steps-Inv :
      {s t : System S}
      → Steps client holder s t
      → Inv client holder start s
      → Inv client holder start t
  Steps-Inv stay v = v
  Steps-Inv (move m r) v = Steps-Inv r (Step-Inv m v)

  -- After any sequence of calls of locks with distinct identifiers, of ticks and ends of contexts
  -- of their auto-extension, and of leases that run out, none held at the start, over a service
  -- that keeps its promise to each token, two locks on one key are not held at a time.
  pub mutual_exclusion :
      (w : S) {t : System S}
      → Steps client holder (record { locks = start; held = λ i. false; world = w }) t
      → (i j : ℕ) → i ≢ j
      → (start i).key ≡ (start j).key
      → t.held i ≡ true
      → t.held j ≡ false
  mutual_exclusion w {t} r i j ne same h =
      let v =
        Steps-Inv r (record { keys = λ n. refl; identifiers = λ n. refl; owned = λ n e. cc }) in
      elim (Bool-cases (t.held j)) [
        | inl e ↦ absurd (
            distinct i j ne (some_inj (sym (v.owned i h) ∙ ap (holder t.world) same ∙ v.owned j e)))
        | inr e ↦ e
      ]
