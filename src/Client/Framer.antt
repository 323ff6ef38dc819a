-- ===== src/Client/Framer.antt =====
-- clientx/codec/framer.go: frames behind a length of 4 bytes. Bytes are numbers below 256. The
-- reader and the writer are the caller's: a reader delivers the bytes it has and then a fault, and
-- `io.ReadFull` is written out on it; a writer is a parameter, with its contract as a record.
-- Errors are told apart by the stage that they name.
pub mod Read
pub mod Write
pub mod RoundTrip
mod Tests
use arcgo.Prelude.{
  ℕ, zero, suc, ◌+◌, ◌-◌, ◌*◌, ◌/◌, ◌%◌, ◌≤◌, ◌≡◌, List, [], ◌∷◌, ◌++◌, Option, none, some,
  if◌then◌else◌, ltb, leb, nat_eqb, is_nil, length, take, drop, Bool,
}

abbrev pub Bytes : Type 0
Bytes = List ℕ

-- `io.EOF`, `io.ErrUnexpectedEOF`, or an error of the reader or writer itself.
pub data Fault : Type 0 where
  eof unexpected_eof : Fault
  other : ℕ → Fault

pub data FrameError : Type 0 where
  nil_reader nil_writer : FrameError
  too_large : ℕ → ℕ → FrameError
  at_header at_body : Fault → FrameError

-- `out_of_range` is the panic of `data[n:]`; `stuck` is no Go value: the loop ran out of fuel.
pub data Result (A : Type 0) : Type 0 where
  ok : A → Result A
  err : FrameError → Result A
  out_of_range stuck : Result A

pub record LengthPrefixedFramer : Type 0 where
  pub max_frame_bytes : ℕ

abbrev pub default_max_frame_bytes : ℕ
default_max_frame_bytes = 4 * 1024 * 1024

abbrev pub new_length_prefixed : ℕ → LengthPrefixedFramer
new_length_prefixed n = record {
  max_frame_bytes = if nat_eqb n 0 then default_max_frame_bytes else n;
}

-- What is left to deliver, and the error after it.
pub record Reader : Type 0 where
  pub pending : Bytes
  pub end_fault : Fault

-- `io.ReadFull`: a partial read that ends in `EOF` is an unexpected one.
abbrev pub short_fault : Bytes → Fault → Fault
short_fault (b ∷ bs) eof = unexpected_eof
short_fault bs fault = fault

pub data Got : Type 0 where
  got : Bytes → Got
  failed : Fault → Got

unfoldable pub read_full : Reader → ℕ → Got × Reader
read_full r n =
    if leb n (length r.pending)
    then (got (take n r.pending), record r { pending = drop n r.pending })
    else (failed (short_fault r.pending r.end_fault), record r { pending = [] })

-- `binary.BigEndian.PutUint32(header, uint32(v))` and `Uint32(header)`
abbrev pub put_uint32 : ℕ → Bytes
put_uint32 v =
    let w = v % 4294967296 in w / 16777216 ∷ (w / 65536) % 256 ∷ (w / 256) % 256 ∷ w % 256 ∷ []

abbrev pub uint32 : Bytes → ℕ
uint32 (a ∷ b ∷ c ∷ d ∷ []) = a * 16777216 + b * 65536 + c * 256 + d
uint32 bs = 0

abbrev pub read_body : Got × Reader → Result Bytes × Option Reader
read_body (got frame, r) = (ok frame, some r)
read_body (failed fault, r) = (err (at_body fault), some r)

abbrev pub read_sized : LengthPrefixedFramer → ℕ → Reader → Result Bytes × Option Reader
read_sized f size r =
    if ltb f.max_frame_bytes size
    then (err (too_large size f.max_frame_bytes), some r)
    else if nat_eqb size 0
    then (ok [], some r)
    else read_body (read_full r size)

abbrev pub read_header : LengthPrefixedFramer → Got × Reader → Result Bytes × Option Reader
read_header f (got header, r) = read_sized f (uint32 header) r
read_header f (failed fault, r) = (err (at_header fault), some r)

-- A nil reader is `none`.
unfoldable pub read_frame : LengthPrefixedFramer → Option Reader → Result Bytes × Option Reader
read_frame f none = (err nil_reader, none)
read_frame f (some r) = read_header f (read_full r 4)

-- `w.Write(data)` returns a count, an error, and the writer as the call leaves it. By the contract
-- of `io.Writer` the count is one of bytes of `data`, and they are what the writer takes in.
pub record Writer {ℓ} (W : Type ℓ) : Type ℓ where
  pub write : W → Bytes → ℕ × Option Fault × W
  pub received : W → Bytes
  pub write_bounded : (w : W) (bytes : Bytes) → (write w bytes).0 ≤ length bytes
  pub write_received :
      (w : W) (bytes : Bytes)
      → received (write w bytes).2 ≡ received w ++ take (write w bytes).0 bytes

module _ {ℓ} {W : Type ℓ} (i : Writer W) where
  abbrev pub write_next :
      Option Fault
      → ℕ
      → Bytes
      → W
      → (Bytes → W → Result (Option Fault) × W)
      → Result (Option Fault) × W
  write_next (some fault) n bytes w go = (ok (some fault), w)
  write_next none n bytes w go =
      if ltb (length bytes) n then (out_of_range, w) else go (drop n bytes) w

  -- The loop on fuel. Its result is the error of the writer, if there is one.
  pub write_full : ℕ → W → Bytes → Result (Option Fault) × W
  write_full fuel w [] = (ok none, w)
  write_full zero w (b ∷ bs) = (stuck, w)
  write_full (suc fuel) w (b ∷ bs) =
      let (n, fault, w') = i.write w (b ∷ bs) in
      write_next fault n (b ∷ bs) w' (λ bytes v. write_full fuel v bytes)

  -- Go on after the header or the body, or give up with the stage's error.
  abbrev pub and_then :
      (Fault → FrameError) → Result (Option Fault) × W → (W → Result Unit × W) → Result Unit × W
  and_then stage (ok none, w) next = next w
  and_then stage (ok (some fault), w) next = (err (stage fault), w)
  and_then stage (err e, w) next = (err e, w)
  and_then stage (out_of_range, w) next = (out_of_range, w)
  and_then stage (stuck, w) next = (stuck, w)

  -- `fuel` rounds for each of the two loops.
  pub write_frame : ℕ → LengthPrefixedFramer → W → Bytes → Result Unit × W
  write_frame fuel f w frame =
      if ltb f.max_frame_bytes (length frame)
      then (err (too_large (length frame) f.max_frame_bytes), w)
      else and_then at_header (write_full fuel w (put_uint32 (length frame)))
          (λ w'. and_then at_body (write_full fuel w' frame) (λ v. (ok tt, v)))

  -- A nil writer is `none`.
  pub write_frame_to : ℕ → LengthPrefixedFramer → Option W → Bytes → Result Unit × Option W
  write_frame_to fuel f none frame = (err nil_writer, none)
  write_frame_to fuel f (some w) frame =
      let (result, w') = write_frame fuel f w frame in (result, some w')
