-- ===== src/Client/Policy/Bulkhead.antt =====
-- clientx/policy_bulkhead.go: the limit on concurrent executions. The channel is the number of tokens in
-- it; a step is a call of Before or After, in any order, of After without a Before too.
use arcgo.Prelude.{
  ℕ, zero, suc, ◌+◌, ◌-◌, ◌≤◌, ◌<◌, ◌≡◌, ◌⊎◌, refl, ap, ◌∙◌, Bool, true, false, List, [], ◌∷◌,
  if◌then◌else◌, ltb, nat_eqb, arith, length, get_or, set, Bool-cases, inl, inr, replicate,
}
use arcgo.Prelude.Int.{ℤ, pos, negsuc}

pub record Semaphore : Type 0 where
  pub capacity : ℕ
  pub tokens : ℕ

abbrev pub new_concurrency_limit : ℤ → Semaphore
new_concurrency_limit (negsuc n) = record { capacity = 1; tokens = 0 }
new_concurrency_limit (pos n) = record { capacity = if nat_eqb n 0 then 1 else n; tokens = 0 }

-- What the select of Before can do: take a slot that is free, or give up a wait.
pub data Before : Type 0 where
  acquired : Semaphore → Before
  full : Before

unfoldable pub before : Semaphore → Before
before p = if ltb p.tokens p.capacity then acquired (record p { tokens = p.tokens + 1 }) else full

-- The select of After has a default: an empty channel is left as it is.
unfoldable pub after : Semaphore → Semaphore
after p = record p { tokens = p.tokens - 1 }

-- One entry for each call of the client: whether it is between Before and After. `taken` counts the
-- tokens that a call of After without a Before took.
pub record System : Type 0 where
  pub policy : Semaphore
  pub inside : List Bool
  pub taken : ℕ

pub data Step : System → System → Type 0 where
  enter :
      {s : System} {p : Semaphore} (i : ℕ)
      → i < length s.inside
      → get_or s.inside i true ≡ false
      → before s.policy ≡ acquired p
      → Step s (record s { policy = p; inside = set s.inside i true })
  leave :
      {s : System} (i : ℕ)
      → get_or s.inside i false ≡ true
      → Step s (record s { policy = after s.policy; inside = set s.inside i false })
  stray :
      {s : System}
      → Step s (record s {
        policy = after s.policy;
        taken = s.taken + (s.policy.tokens - (after s.policy).tokens);
      })

pub data Steps : System → System → Type 0 where
  stay : {s : System} → Steps s s
  move : {s t u : System} → Step s t → Steps t u → Steps s u

abbrev pub count_inside : List Bool → ℕ
count_inside [] = 0
count_inside (true ∷ l) = suc (count_inside l)
count_inside (false ∷ l) = count_inside l

-- The tokens are no more than the limit and than the calls inside; those inside beyond them have
-- lost theirs.
pub record Inv (s : System) : Type 0 where
  pub limited : s.policy.tokens ≤ s.policy.capacity
  pub owned : s.policy.tokens ≤ count_inside s.inside
  pub counted : count_inside s.inside ≤ s.policy.tokens + s.taken

count_inside-enter :
    (l : List Bool) (i : ℕ)
    → i < length l
    → get_or l i true ≡ false
    → count_inside (set l i true) ≡ suc (count_inside l)
count_inside-enter [] i h e = absurd (omega arith)
count_inside-enter (true ∷ l) zero h e = cc
count_inside-enter (false ∷ l) zero h e = refl
count_inside-enter (true ∷ l) (suc i) h e = ap suc (count_inside-enter l i (omega arith) e)
count_inside-enter (false ∷ l) (suc i) h e = count_inside-enter l i (omega arith) e

count_inside-leave :
    (l : List Bool) (i : ℕ)
    → get_or l i false ≡ true
    → suc (count_inside (set l i false)) ≡ count_inside l
count_inside-leave [] i e = cc
count_inside-leave (true ∷ l) zero e = refl
count_inside-leave (false ∷ l) zero e = cc
count_inside-leave (true ∷ l) (suc i) e = ap suc (count_inside-leave l i e)
count_inside-leave (false ∷ l) (suc i) e = count_inside-leave l i e

before_lem :
    (p q : Semaphore)
    → before p ≡ acquired q
    → (q.tokens ≡ p.tokens + 1) × (q.capacity ≡ p.capacity) × (p.tokens < p.capacity)
unfolding before
before_lem p q e = elim (Bool-cases (ltb p.tokens p.capacity)) [
  | inl h ↦ grind (arith, h, e)
  | inr h ↦ cc (rw h at e)
]

Step-Inv : {s t : System} → Step s t → Inv s → Inv t
unfolding after
Step-Inv (enter {s} {p} i h e b) v =
    let (more, same, free) = before_lem s.policy p b in
    let inside = count_inside-enter s.inside i h e in
    record {
      limited = omega (arith, more, same, free);
      owned = omega (arith, more, v.owned, inside);
      counted = omega (arith, more, v.counted, inside);
    }
Step-Inv (leave {s} i e) v =
    let inside = count_inside-leave s.inside i e in
    record {
      limited = omega (arith, v.limited);
      owned = omega (arith, v.owned, inside);
      counted = omega (arith, v.counted, inside);
    }
Step-Inv (stray {s}) v = record {
  limited = omega (arith, v.limited);
  owned = omega (arith, v.owned);
  counted = omega (arith, v.counted);
}

capacity_kept : {s t : System} → Step s t → t.policy.capacity ≡ s.policy.capacity
unfolding after
capacity_kept (enter {s} {p} i h e b) = (before_lem s.policy p b).1
capacity_kept (leave {s} i e) = refl
capacity_kept (stray {s}) = refl

Steps-Inv : {s t : System} → Steps s t → Inv s → Inv t × (t.policy.capacity ≡ s.policy.capacity)
Steps-Inv stay v = (v, refl)
Steps-Inv (move m r) v = let (w, e) = Steps-Inv r (Step-Inv m v) in (w, e ∙ capacity_kept m)

abbrev pub idle : ℤ → ℕ → System
idle limit n = record {
  policy = new_concurrency_limit limit;
  inside = replicate n false;
  taken = 0;
}

count_inside-idle : (n : ℕ) → count_inside (replicate n false) ≡ 0
count_inside-idle zero = refl
count_inside-idle (suc n) = count_inside-idle n

-- After any sequence of calls of Before and After on a new limit, calls of After without a Before
-- included, no more calls are between the two than the limit and the tokens that After without a
-- Before took; Before finds the channel full only when as many as the limit are, and takes a slot
-- only when fewer are than the limit and those tokens.
pub bulkhead_limits :
    (limit : ℤ) (n : ℕ) {s : System}
    → Steps (idle limit n) s
    → let p = s.policy in
      let most = (new_concurrency_limit limit).capacity in
      (count_inside s.inside ≤ most + s.taken)
      × (((before p ≡ full) × (most ≤ count_inside s.inside))
          ⊎ ((before p ≡ acquired (record p { tokens = p.tokens + 1 }))
              × (count_inside s.inside < most + s.taken)))
unfolding before
bulkhead_limits limit n {s} r =
    let (v, same) = Steps-Inv r (record {
      limited = start limit;
      owned = omega (arith, empty limit);
      counted = idle_counted;
    }) in
    (
      omega (arith, v.counted, v.limited, same),
      elim (Bool-cases (ltb s.policy.tokens s.policy.capacity)) [
        | inl e ↦ rw e (inr (refl, grind (arith, e, v.counted, same)))
        | inr e ↦ rw e (inl (refl, grind (arith, e, v.owned, v.limited, same)))
      ],
    )
  where
    empty : (m : ℤ) → (new_concurrency_limit m).tokens ≡ 0
    empty (negsuc m) = refl
    empty (pos m) = refl

    start : (m : ℤ) → (new_concurrency_limit m).tokens ≤ (new_concurrency_limit m).capacity
    start (negsuc m) = omega arith
    start (pos m) = omega arith

    idle_counted : count_inside (replicate n false) ≤ (new_concurrency_limit limit).tokens + 0
    idle_counted = omega (arith, count_inside-idle n)
