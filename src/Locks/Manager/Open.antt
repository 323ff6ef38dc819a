-- ===== src/Locks/Manager/Open.antt =====
-- kvx/module/lock/lock.go: the channels of the locks that a manager keeps are open.
use arcgo.Prelude.{
  ℕ, Bool, ◌≡◌, refl, true, false, List, [], ◌∷◌, ◌++◌, Option, none, some, All, Bool-cases, inl,
  inr, arith,
}
use arcgo.Prelude.Classes.{nat_comparable}
use arcgo.Mapping.GoMap.{keys_of, lookup, store, erase}
use arcgo.Locks.{
  Reply, said, failed, Client, Answer, success, not_acquired, not_held, closed_twice, ticker_panic,
  ticker_panics, client_error, cancelled, Lock, Options, new_lock, acquired, acquire, release,
  held_answer,
}
use arcgo.Locks.Manager.{
  Manager, new_manager, managed, manager_acquire, released_key, manager_release, collected,
  release_next, release_keys, manager_release_all,
}

pub data Call : Type 0 where
  acquire_call : ℕ → ℕ → Option Options → Call
  release_call : ℕ → Call
  release_all_call : Call

abbrev IsOpen : List (ℕ × Lock) → Type 0
IsOpen ls = All (λ (e : ℕ × Lock). e.1.stop_closed ≡ false) ls

store-IsOpen :
    (ls : List (ℕ × Lock)) (key : ℕ) (l : Lock)
    → IsOpen ls
    → l.stop_closed ≡ false
    → IsOpen (store ls key l)
unfolding store
store-IsOpen [] key l h e = (e, tt)
store-IsOpen ((k, v) ∷ ls) key l (o, h) e = elim (Bool-cases (nat_comparable.same k key)) [
  | inl q ↦ rw q (e, h)
  | inr q ↦ rw q (o, store-IsOpen ls key l h e)
]

erase-IsOpen : (ls : List (ℕ × Lock)) (key : ℕ) → IsOpen ls → IsOpen (erase ls key)
unfolding erase
erase-IsOpen [] key h = tt
erase-IsOpen ((k, v) ∷ ls) key (o, h) = elim (Bool-cases (nat_comparable.same k key)) [
  | inl q ↦ rw q (erase-IsOpen ls key h)
  | inr q ↦ rw q (o, erase-IsOpen ls key h)
]

-- A lock that the map has, if any.
abbrev OpenIf : Option Lock → Type 0
OpenIf none = Unit
OpenIf (some l) = l.stop_closed ≡ false

lookup-OpenIf : (ls : List (ℕ × Lock)) (key : ℕ) → IsOpen ls → OpenIf (lookup ls key)
unfolding lookup
lookup-OpenIf [] key h = tt
lookup-OpenIf ((k, v) ∷ ls) key (o, h) = elim (Bool-cases (nat_comparable.same k key)) [
  | inl q ↦ rw q o
  | inr q ↦ rw q (lookup-OpenIf ls key h)
]

-- No auto-extension, or a TTL of which a third is not 0: the ticker does not panic.
abbrev pub CanTick : Call → Type 0
CanTick (acquire_call key identifier opts) = ticker_panics (new_lock key identifier opts) ≡ false
CanTick (release_call key) = Unit
CanTick release_all_call = Unit

abbrev pub is_panic : {E : Type 0} → Answer E → Bool
is_panic closed_twice = true
is_panic ticker_panic = true
is_panic answer = false

-- No answer is a panic.
abbrev pub Answers : {E : Type 0} → List (Answer E) → Type 0
Answers {E = E} answers = All (λ (a : Answer E). is_panic a ≡ false) answers

module _ {S E : Type 0} (client : Client S E) where
  abbrev pub step_call : Call → Manager → S → List (Answer E) × Manager × S
  step_call (acquire_call key identifier opts) m s =
      let (answer, m', s') = manager_acquire client m key identifier opts s in (answer ∷ [], m', s')
  step_call (release_call key) m s =
      let (answer, m', s') = manager_release client m key s in (answer ∷ [], m', s')
  step_call release_all_call m s = manager_release_all client m s

  -- The answers of some calls, one after another.
  abbrev pub run_calls : List Call → Manager → S → List (Answer E)
  run_calls [] m s = []
  run_calls (c ∷ cs) m s = let (answers, m', s') = step_call c m s in answers ++ run_calls cs m' s'

  -- Answers without a panic, and locks that are open.
  abbrev Calm : List (Answer E) × Manager × S → Type 0
  Calm (answers, m, s) = Answers answers × IsOpen m.locks

  abbrev CalmOne : Answer E × Manager × S → Type 0
  CalmOne (answer, m, s) = (is_panic answer ≡ false) × IsOpen m.locks

  managed-CalmOne :
      (m : Manager) (key identifier : ℕ) (opts : Option Options) (r : Reply E × S)
      → IsOpen m.locks
      → ticker_panics (new_lock key identifier opts) ≡ false
      → CalmOne (managed client m key (acquired client (new_lock key identifier opts) r))
  managed-CalmOne m key identifier opts (failed e, s) h p = (refl, h)
  managed-CalmOne m key identifier opts (said false, s) h p = (refl, h)
  managed-CalmOne m key identifier opts (said true, s) h p =
      rw p (refl, store-IsOpen m.locks key _ h (ground arith))

  held_answer_calm : (r : Reply E) → is_panic (held_answer client r) ≡ false
  held_answer_calm (failed e) = refl
  held_answer_calm (said false) = refl
  held_answer_calm (said true) = refl

  release_calm :
      (l : Lock) (s : S) → l.stop_closed ≡ false → is_panic (release client l s).0 ≡ false
  unfolding release
  release_calm l s e = elim (Bool-cases l.auto_extend) [
    | inl a ↦ rw (a, e) (held_answer_calm _)
    | inr a ↦ rw a (held_answer_calm _)
  ]

  released_key-CalmOne :
      (m : Manager) (key : ℕ) (o : Option Lock) (s : S)
      → IsOpen m.locks
      → OpenIf o
      → CalmOne (released_key client m key o s)
  released_key-CalmOne m key none s h k = (refl, h)
  released_key-CalmOne m key (some l) s h k = (release_calm l s k, erase-IsOpen m.locks key h)

  collected-Calm :
      (r : Answer E × Manager × S) (go : Manager → S → List (Answer E) × Manager × S)
      → CalmOne r
      → ((m : Manager) (s : S) → IsOpen m.locks → Calm (go m s))
      → Calm (collected client r go)
  collected-Calm (success, m, s) go (n, h) k = k m s h
  collected-Calm (closed_twice, m, s) go (n, h) k = cc
  collected-Calm (ticker_panic, m, s) go (n, h) k = cc
  collected-Calm (not_acquired, m, s) go (n, h) k = let (a, o) = k m s h in ((n, a), o)
  collected-Calm (not_held, m, s) go (n, h) k = let (a, o) = k m s h in ((n, a), o)
  collected-Calm (client_error e, m, s) go (n, h) k = let (a, o) = k m s h in ((n, a), o)
  collected-Calm (cancelled e, m, s) go (n, h) k = let (a, o) = k m s h in ((n, a), o)

  release_next-Calm :
      (m : Manager) (key : ℕ) (o : Option Lock) (s : S)
      (go : Manager → S → List (Answer E) × Manager × S)
      → IsOpen m.locks
      → OpenIf o
      → ((m : Manager) (s : S) → IsOpen m.locks → Calm (go m s))
      → Calm (release_next client m key o s go)
  release_next-Calm m key none s go h o k = k m s h
  release_next-Calm m key (some l) s go h o k =
      collected-Calm (released_key client m key (some l) s) go
        (released_key-CalmOne m key (some l) s h o) k

  release_keys-Calm :
      (keys : List ℕ) (m : Manager) (s : S) → IsOpen m.locks → Calm (release_keys client keys m s)
  unfolding release_keys
  release_keys-Calm [] m s h = (tt, h)
  release_keys-Calm (key ∷ keys) m s h =
      release_next-Calm m key (lookup m.locks key) s (release_keys client keys) h
        (lookup-OpenIf m.locks key h) (release_keys-Calm keys)

  step_call-Calm :
      (c : Call) (m : Manager) (s : S) → CanTick c → IsOpen m.locks → Calm (step_call c m s)
  unfolding manager_acquire acquire manager_release manager_release_all
  step_call-Calm (acquire_call key identifier opts) m s p h =
      let (n, o) =
        managed-CalmOne m key identifier opts (client.client_acquire s key identifier _) h p in
      ((n, tt), o)
  step_call-Calm (release_call key) m s p h =
      let (n, o) =
        released_key-CalmOne m key (lookup m.locks key) s h (lookup-OpenIf m.locks key h) in
      ((n, tt), o)
  step_call-Calm release_all_call m s p h = release_keys-Calm (keys_of m.locks) m s h

  Answers-append : (xs ys : List (Answer E)) → Answers xs → Answers ys → Answers (xs ++ ys)
  Answers-append [] ys h k = k
  Answers-append (x ∷ xs) ys (n, h) k = (n, Answers-append xs ys h k)

  run_calls-Answers :
      (cs : List Call) (m : Manager) (s : S)
      → All CanTick cs
      → IsOpen m.locks
      → Answers (run_calls cs m s)
  run_calls-Answers [] m s p h = tt
  run_calls-Answers (c ∷ cs) m s (p, ps) h =
      let (a, o) = step_call-Calm c m s p h in Answers-append _ _ a (run_calls-Answers cs _ _ ps o)

  -- Over any sequence of calls of Acquire, Release and ReleaseAll on a new manager, in which no
  -- lock with auto-extension has a TTL of less than 3 ns, none panics, whatever the client
  -- answers.
  pub manager_calm :
      (cs : List Call) (s : S) → All CanTick cs → Answers (run_calls cs new_manager s)
  manager_calm cs s p = run_calls-Answers cs new_manager s p tt
