-- ===== src/Sequences/RingBuffer.antt =====
-- collectionx/list/ring_buffer.go: a bounded queue that overwrites its oldest item. The methods
-- take and return the state; a nil receiver, for which they do nothing, is left out. Where the
-- code returns a value and a flag, or `mo.Option`, the model returns an option.
pub mod Refine
pub mod Run
mod Tests
use arcgo.Prelude.{
  ℕ, suc, ◌+◌, ◌-◌, ◌%◌, Bool, ◌&&◌, List, [], Option, none, some, ltb, nat_eqb, if◌then◌else◌,
  length, get_or, set, replicate,
}
use arcgo.Prelude.Classes.{Zero}
use arcgo.Prelude.Int.{ℤ, clamp}
use arcgo.Sequences.Circular.{read_loop, wipe_loop}

pub record RingBuffer {ℓ} (A : Type ℓ) : Type ℓ where
  pub buf : List A
  pub head : ℕ
  pub size : ℕ

module _ {ℓ} {A : Type ℓ} where
  pub capacity : RingBuffer A → ℕ
  capacity r = length r.buf

  pub len : RingBuffer A → ℕ
  len r = r.size

  pub is_empty : RingBuffer A → Bool
  is_empty r = nat_eqb (len r) 0

  pub is_full : RingBuffer A → Bool
  is_full r = nat_eqb r.size (length r.buf) && ltb 0 (length r.buf)

module _ {ℓ} {A : Type ℓ} ⦃z : Zero A⦄ where
  pub new_ring_buffer : ℤ → RingBuffer A
  new_ring_buffer capacity = record {
    buf = replicate (clamp capacity) z.zero_value;
    head = 0;
    size = 0;
  }

  pub push : RingBuffer A → A → Option A × RingBuffer A
  push r value =
      if nat_eqb (length r.buf) 0
      then (none, r)
      else if ltb r.size (length r.buf)
      then (
        none,
        record r { buf = set r.buf ((r.head + r.size) % length r.buf) value; size = r.size + 1 },
      )
      else (
        some (get_or r.buf r.head z.zero_value),
        record r { buf = set r.buf r.head value; head = (r.head + 1) % length r.buf },
      )

  pub pop : RingBuffer A → Option A × RingBuffer A
  pop r =
      let head = (r.head + 1) % length r.buf in
      let size = r.size - 1 in
      if nat_eqb r.size 0 then (none, r) else (
        some (get_or r.buf r.head z.zero_value),
        record {
          buf = set r.buf r.head z.zero_value;
          head = if nat_eqb size 0 then 0 else head;
          size = size;
        },
      )

  pub peek : RingBuffer A → Option A
  peek r = if nat_eqb r.size 0 then none else some (get_or r.buf r.head z.zero_value)

  pub values : RingBuffer A → List A
  values r = if nat_eqb r.size 0 then [] else read_loop r.buf r.head 0 r.size

  pub clear : RingBuffer A → RingBuffer A
  clear r = record { buf = wipe_loop r.buf r.head 0 r.size; head = 0; size = 0 }
