-- ===== src/Sequences/Deque.antt =====
-- collectionx/list/deque.go: a double-ended queue on a circular slice that grows. The methods take
-- and return the state. A nil slice is the empty one (`ensureCapacity` leaves at least four
-- entries). Where the code returns a value and a flag, the model returns an option. Lengths are
-- exact: a slice is too short for `len(buf) * 2` to overflow.
pub mod Grow
pub mod Refine
pub mod Reads
pub mod Run
mod Tests
use arcgo.Prelude.{
  ℕ, zero, suc, ◌+◌, ◌-◌, ◌*◌, ◌%◌, Bool, List, [], ◌∷◌, Option, none, some, ltb, leb, nat_eqb,
  is_nil, if◌then◌else◌, length, get_or, set, replicate,
}
use Prim.Native.Nat.{max}
use arcgo.Prelude.Classes.{Zero}
use arcgo.Prelude.Int.{ℤ, pos, negsuc}
use arcgo.Sequences.Circular.{cell, read_loop, wipe_loop}

pub record Deque {ℓ} (A : Type ℓ) : Type ℓ where
  pub buf : List A
  pub head : ℕ
  pub size : ℕ

-- `for newCap < need { newCap *= 2 }` on fuel; a doubled capacity grows, so `need` rounds do.
pub double_until : ℕ → ℕ → ℕ → ℕ
double_until zero capacity need = capacity
double_until (suc fuel) capacity need =
    let rest = double_until fuel (capacity * 2) need in if ltb capacity need then rest else capacity

module _ {ℓ} {A : Type ℓ} where
  abbrev pub physical_index : Deque A → ℕ → ℕ
  physical_index d logical_index = (d.head + logical_index) % length d.buf

  pub len : Deque A → ℕ
  len d = d.size

  pub is_empty : Deque A → Bool
  is_empty d = nat_eqb (len d) 0

module _ {ℓ} {A : Type ℓ} ⦃z : Zero A⦄ where
  -- `for i := range n { newBuf[i] = d.buf[d.physicalIndex(i)] }`, with `i` counting up.
  pub copy_loop : List A → List A → ℕ → ℕ → ℕ → List A
  copy_loop new_buf buf head i zero = new_buf
  copy_loop new_buf buf head i (suc n) =
      copy_loop (set new_buf i (cell buf (head + i))) buf head (suc i) n

  pub ensure_capacity : Deque A → ℕ → Deque A
  ensure_capacity d extra =
      let need = d.size + extra in
      let new_cap = double_until need (max (length d.buf * 2) 4) need in
      if is_nil d.buf
      then record d { buf = replicate (double_until extra 4 extra) z.zero_value }
      else if leb need (length d.buf)
      then d
      else record d {
        buf = copy_loop (replicate new_cap z.zero_value) d.buf d.head 0 d.size;
        head = 0;
      }

  -- After `ensureCapacity(1)`.
  pub put_front : Deque A → A → Deque A
  put_front d item =
      let head = (d.head + length d.buf - 1) % length d.buf in
      if nat_eqb d.size 0
      then record { buf = set d.buf 0 item; head = 0; size = 1 }
      else record { buf = set d.buf head item; head = head; size = d.size + 1 }

  pub put_back : Deque A → A → Deque A
  put_back d item = record d { buf = set d.buf (physical_index d d.size) item; size = d.size + 1 }

  pub push_front_one : Deque A → A → Deque A
  push_front_one d item = put_front (ensure_capacity d 1) item

  pub push_back_one : Deque A → A → Deque A
  push_back_one d item = put_back (ensure_capacity d 1) item

  pub push_front : Deque A → List A → Deque A
  push_front d [] = d
  push_front d (item ∷ items) = push_front (push_front_one d item) items

  pub push_back : Deque A → List A → Deque A
  push_back d [] = d
  push_back d (item ∷ items) = push_back (push_back_one d item) items

  pub new_deque : List A → Deque A
  new_deque items = push_back (record { buf = []; head = 0; size = 0 }) items

  pub pop_front : Deque A → Option A × Deque A
  pop_front d =
      let head = (d.head + 1) % length d.buf in
      let size = d.size - 1 in
      if nat_eqb d.size 0 then (none, d) else (
        some (get_or d.buf d.head z.zero_value),
        record {
          buf = set d.buf d.head z.zero_value;
          head = if nat_eqb size 0 then 0 else head;
          size = size;
        },
      )

  pub pop_back : Deque A → Option A × Deque A
  pop_back d =
      let idx = physical_index d (d.size - 1) in
      let size = d.size - 1 in
      if nat_eqb d.size 0 then (none, d) else (
        some (get_or d.buf idx z.zero_value),
        record {
          buf = set d.buf idx z.zero_value;
          head = if nat_eqb size 0 then 0 else d.head;
          size = size;
        },
      )

  pub front : Deque A → Option A
  front d = if nat_eqb d.size 0 then none else some (get_or d.buf d.head z.zero_value)

  pub back : Deque A → Option A
  back d =
      if nat_eqb d.size 0
      then none
      else some (get_or d.buf (physical_index d (d.size - 1)) z.zero_value)

  pub get : Deque A → ℤ → Option A
  get d (pos index) =
      if leb d.size index then none else some (get_or d.buf (physical_index d index) z.zero_value)
  get d (negsuc index) = none

  pub clear : Deque A → Deque A
  clear d = record { buf = wipe_loop d.buf d.head 0 d.size; head = 0; size = 0 }

  pub values : Deque A → List A
  values d = if nat_eqb d.size 0 then [] else read_loop d.buf d.head 0 d.size

  -- `Range`: the indices and items handed to `fn`, up to the first that it refuses.
  pub range_loop : (ℕ → A → Bool) → Deque A → ℕ → ℕ → List (ℕ × A)
  range_loop fn d i zero = []
  range_loop fn d i (suc n) =
      let item = cell d.buf (d.head + i) in
      let rest = range_loop fn d (suc i) n in (i, item) ∷ (if fn i item then rest else [])

  pub range : (ℕ → A → Bool) → Deque A → List (ℕ × A)
  range fn d = range_loop fn d 0 d.size
