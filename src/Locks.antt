-- ===== src/Locks.antt =====
-- kvx/module/lock/lock.go: distributed locks. The client is a parameter, with a state for the store
-- and all else that its calls change; so is the world that tells the time and waits. Keys and
-- identifiers are numbers; a TTL is in nanoseconds, a timeout in milliseconds. An error is told by its cause.
pub mod Service
pub mod Calls
pub mod Exclusion
pub mod Waiting
pub mod Once
pub mod Shared
pub mod Manager
mod Tests
use arcgo.Prelude.{
  ℕ, zero, suc, ◌+◌, ◌-◌, ◌/◌, nat_eqb, Bool, true, false, ◌&&◌, List, [], ◌∷◌, ◌++◌, Option, none,
  some, if◌then◌else◌, ltb,
}

-- What the client says, or its error.
pub data Reply (E : Type 0) : Type 0 where
  said : Bool → Reply E
  failed : E → Reply E

pub record Client (S E : Type 0) : Type 0 where
  pub client_acquire : S → ℕ → ℕ → ℕ → Reply E × S
  pub client_release : S → ℕ → ℕ → Reply E × S
  pub client_extend : S → ℕ → ℕ → ℕ → Reply E × S

-- Success, an error, the panic of a second `close` of the channel, or that of `time.NewTicker`, which
-- ends the program.
pub data Answer (E : Type 0) : Type 0 where
  success not_acquired not_held closed_twice ticker_panic : Answer E
  client_error cancelled : E → Answer E

-- `stop_closed` and `extending`: the state of the channel, and the number of goroutines that it stops.
pub record Lock : Type 0 where
  pub key : ℕ
  pub identifier : ℕ
  pub ttl : ℕ
  pub auto_extend : Bool
  pub stop_closed : Bool
  pub extending : ℕ

pub record Options : Type 0 where
  pub option_ttl : ℕ
  pub option_auto_extend : Bool

abbrev pub default_options : Options
default_options = record { option_ttl = 30000000000; option_auto_extend = true }

abbrev pub resolve_options : Option Options → Options
resolve_options none = default_options
resolve_options (some opts) = opts

-- `New`, with an identifier that `generateIdentifier` drew.
abbrev pub new_lock : ℕ → ℕ → Option Options → Lock
new_lock key identifier opts =
    let o = resolve_options opts in
    record {
      key = key;
      identifier = identifier;
      ttl = o.option_ttl;
      auto_extend = o.option_auto_extend;
      stop_closed = false;
      extending = 0;
    }

-- A goroutine that is started after the channel was closed ends at once.
abbrev pub start_auto_extend : Lock → Lock
start_auto_extend l = record l {
  extending = if l.stop_closed then l.extending else suc l.extending;
}

-- The goroutine starts with `time.NewTicker(l.ttl / 3)`, which panics on 0.
abbrev pub ticker_panics : Lock → Bool
ticker_panics l = l.auto_extend && nat_eqb (l.ttl / 3) 0

-- A goroutine whose context is done ends.
abbrev pub context_done : Lock → Lock
context_done l = record l { extending = l.extending - 1 }

module _ {S E : Type 0} (client : Client S E) where
  abbrev pub acquired : Lock → Reply E × S → Answer E × Lock × S
  acquired l (failed e, s) = (client_error e, l, s)
  acquired l (said false, s) = (not_acquired, l, s)
  acquired l (said true, s) =
      if ticker_panics l
      then (ticker_panic, l, s)
      else (success, (if l.auto_extend then start_auto_extend l else l), s)

  unfoldable pub acquire : Lock → S → Answer E × Lock × S
  acquire l s = acquired l (client.client_acquire s l.key l.identifier l.ttl)

  abbrev pub held_answer : Reply E → Answer E
  held_answer (failed e) = client_error e
  held_answer (said false) = not_held
  held_answer (said true) = success

  -- `none` for the panic.
  abbrev pub stop_auto_extend : Lock → Option Lock
  stop_auto_extend l =
      if l.auto_extend
      then (if l.stop_closed then none else some (record l { stop_closed = true; extending = 0 }))
      else some l

  abbrev pub released : Lock → Option Lock → S → Answer E × Lock × S
  released l none s = (closed_twice, l, s)
  released l (some l') s =
      let (reply, s') = client.client_release s l'.key l'.identifier in (held_answer reply, l', s')

  unfoldable pub release : Lock → S → Answer E × Lock × S
  release l s = released l (stop_auto_extend l) s

  unfoldable pub extend : Lock → ℕ → S → Answer E × S
  extend l ttl s =
      let (reply, s') = client.client_extend s l.key l.identifier ttl in (held_answer reply, s')

  -- `IsHeld` extends the lock by its own TTL.
  abbrev pub is_held : Lock → S → Reply E × S
  is_held l s = client.client_extend s l.key l.identifier l.ttl

  -- One tick of one of the goroutines, which ends at an error of the client.
  abbrev pub ticked : Lock → Reply E × S → Lock × S
  ticked l (failed e, s) = (record l { extending = l.extending - 1 }, s)
  ticked l (said b, s) = (l, s)

  unfoldable pub tick : Lock → S → Lock × S
  tick l s =
      if ltb 0 l.extending
      then ticked l (client.client_extend s l.key l.identifier l.ttl)
      else (l, s)

-- `time.Now`, and the select between the context and 100 ms: an error if the context is done first.
module _ {S E : Type 0} (client : Client S E) (now : S → ℕ) (wait : S → Option E × S) where
  abbrev pub after_wait :
      Lock → Option E × S → (Lock → S → Option (Answer E × Lock × S)) → Option (Answer E × Lock × S)
  after_wait l (some e, s) go = some (cancelled e, l, s)
  after_wait l (none, s) go = go l s

  abbrev pub after_try :
      Answer E × Lock × S → (Lock → S → Option (Answer E × Lock × S)) → Option (Answer E × Lock × S)
  after_try (not_acquired, l, s) go = after_wait l (wait s) go
  after_try (answer, l, s) go = some (answer, l, s)

  -- The loop on fuel: `none` when it runs out.
  unfoldable pub try_loop : ℕ → ℕ → Lock → S → Option (Answer E × Lock × S)
  try_loop zero deadline l s = none
  try_loop (suc fuel) deadline l s =
      if ltb deadline (now s)
      then some (not_acquired, l, s)
      else after_try (acquire client l s) (try_loop fuel deadline)

  unfoldable pub try_acquire : ℕ → ℕ → Lock → S → Option (Answer E × Lock × S)
  try_acquire fuel timeout l s = try_loop fuel (now s + timeout) l s
