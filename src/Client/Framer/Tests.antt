-- ===== src/Client/Framer/Tests.antt =====
-- Frames over a writer that takes three bytes at a time, and over cut streams.
use Prim.Native.Nat.{min}
use arcgo.Prelude.{
  ℕ, ◌≤◌, ◌≡◌, refl, ap, [], ◌∷◌, ◌++◌, Option, none, some, arith, length, take, if◌then◌else◌, leb,
}
use arcgo.Client.Framer.{
  Bytes, Fault, eof, unexpected_eof, other, ok, err, at_body, too_large, nil_reader, Result,
  LengthPrefixedFramer, new_length_prefixed, Writer, write_full, write_frame, read_frame, read_full,
}
use arcgo.Client.Framer.Write.{wire, Sent, Wrote, IsProgressing, write_full_lem, write_frame_lem}
use arcgo.Client.Framer.Read.{stream, read_cut, read_sound}
use arcgo.Client.Framer.RoundTrip.{read_frame-write_frame}

abbrev taken : ℕ → Bytes → Bytes → ℕ
taken limit w bytes = if leb limit (length w) then 0 else min 3 (length bytes)

abbrev fault_of : ℕ → Bytes → Option Fault
fault_of limit w = if leb limit (length w) then some (other 7) else none

taken_bounded : (limit : ℕ) (w bytes : Bytes) → taken limit w bytes ≤ length bytes
taken_bounded limit w bytes = ground arith

-- Fails once it holds `limit` bytes.
abbrev chunked : ℕ → Writer Bytes
chunked limit = record {
  write = λ w bytes. (taken limit w bytes, fault_of limit w, w ++ take (taken limit w bytes) bytes);
  received = λ w. w;
  write_bounded = taken_bounded limit;
  write_received = λ w bytes. refl;
}

chunked-IsProgressing : (limit : ℕ) → IsProgressing (chunked limit)
chunked-IsProgressing limit w b bs h = ground arith

abbrev small : LengthPrefixedFramer
small = new_length_prefixed 6

abbrev letters : Bytes
letters = 65 ∷ 66 ∷ 67 ∷ 68 ∷ 69 ∷ []

sent : write_frame (chunked 100) 5 small [] letters ≡ (ok tt, 0 ∷ 0 ∷ 0 ∷ 5 ∷ letters)
unfolding write_frame write_full
sent = refl

fails_in_body :
    write_frame (chunked 5) 5 small [] letters
    ≡ (err (at_body (other 7)), 0 ∷ 0 ∷ 0 ∷ 5 ∷ 65 ∷ 66 ∷ 67 ∷ [])
unfolding write_frame write_full
fails_in_body = refl

refused : write_frame (chunked 100) 7 (new_length_prefixed 4) [] letters ≡ (err (too_large 5 4), [])
unfolding write_frame
refused = refl

no_reader : read_frame small none ≡ (err nil_reader, none)
unfolding read_frame
no_reader = refl

ends_after_header :
    read_frame small (some (stream (0 ∷ 0 ∷ 0 ∷ 5 ∷ []) eof))
    ≡ (err (at_body eof), some (stream [] eof))
unfolding read_frame read_full
ends_after_header = refl

read_frame-write_frame_example :
    read_frame small
      (some (stream ((write_frame (chunked 100) 5 small [] letters).1 ++ (1 ∷ 2 ∷ [])) eof))
    ≡ (ok letters, some (stream (1 ∷ 2 ∷ []) eof))
read_frame-write_frame_example =
    read_frame-write_frame (chunked 100) 5 small [] letters (1 ∷ 2 ∷ []) eof
      (chunked-IsProgressing 100) (omega arith) (omega arith) (omega arith) (omega arith) refl
      (ap (λ (r : Result Unit × Bytes). r.0) sent)

read_cut_example :
    read_frame small (some (stream (0 ∷ 0 ∷ 0 ∷ 5 ∷ 65 ∷ []) eof))
    ≡ (err (at_body unexpected_eof), some (stream [] eof))
read_cut_example = read_cut small letters 5 eof (omega arith) (omega arith) (omega arith)

read_sound_example :
    (5 ≤ 6) × ((0 ∷ 0 ∷ 0 ∷ 5 ∷ 65 ∷ 66 ∷ 67 ∷ 68 ∷ 69 ∷ 1 ∷ []) ≡ wire letters ++ (1 ∷ []))
unfolding read_frame read_full
read_sound_example =
    read_sound small (wire letters ++ (1 ∷ [])) letters (1 ∷ []) eof
      (
        omega arith,
        (
          omega arith,
          (
            omega arith,
            (
              omega arith,
              (
                omega arith,
                (omega arith, (omega arith, (omega arith, (omega arith, (omega arith, tt))))),
              ),
            ),
          ),
        ),
      )
      refl

write_frame_lem_example : Sent (chunked 5) [] letters (write_frame (chunked 5) 5 small [] letters)
write_frame_lem_example =
    write_frame_lem (chunked 5) 5 small [] letters (chunked-IsProgressing 5) (omega arith)
      (omega arith) (omega arith)

write_full_lem_example : Wrote (chunked 5) [] letters (write_full (chunked 5) 5 [] letters)
write_full_lem_example =
    write_full_lem (chunked 5) 5 [] letters (chunked-IsProgressing 5) (omega arith)
