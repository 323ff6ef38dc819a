-- ===== src/Client/Framer/Read.antt =====
-- clientx/codec/framer.go: ReadFrame, on what a stream begins with.
use mathlib.Core.List.{append_assoc}
use mathlib.Core.Path.{ap₂}
use arcgo.Prelude.{
  ℕ, zero, suc, ◌+◌, ◌-◌, ◌≤◌, ◌<◌, ◌≡◌, refl, sym, ap, ◌∙◌, inl, inr, [], ◌∷◌, ◌++◌, some, true,
  false, arith, length, length-append, length-take, take, drop, take-append-drop, ltb, leb, nat_eqb,
  ltb→lt, if◌then◌else◌, All, Bool-cases,
}
use arcgo.Client.Framer.{
  Bytes, Fault, at_header, at_body, Result, ok, err, LengthPrefixedFramer, put_uint32, uint32,
  Reader, got, failed, read_full, read_sized, read_frame, short_fault,
}
use arcgo.Client.Framer.Write.{wire, take_past}

abbrev pub IsByte : ℕ → Type 0
IsByte b = b < 256

pub uint32-put_uint32 : (v : ℕ) → v < 4294967296 → uint32 (put_uint32 v) ≡ v
uint32-put_uint32 v h = omega arith

put_uint32-uint32 :
    (a b c d : ℕ)
    → IsByte a
    → IsByte b
    → IsByte c
    → IsByte d
    → put_uint32 (uint32 (a ∷ b ∷ c ∷ d ∷ [])) ≡ a ∷ b ∷ c ∷ d ∷ []
put_uint32-uint32 a b c d ha hb hc hd = grind arith

take_first : (xs ys : Bytes) → take (length xs) (xs ++ ys) ≡ xs
take_first [] ys = refl
take_first (x ∷ xs) ys = ap (λ (t : Bytes). x ∷ t) (take_first xs ys)

drop_first : (xs ys : Bytes) → drop (length xs) (xs ++ ys) ≡ ys
drop_first [] ys = refl
drop_first (x ∷ xs) ys = drop_first xs ys

abbrev pub stream : Bytes → Fault → Reader
stream bytes fault = record { pending = bytes; end_fault = fault }

-- `io.ReadFull` on a stream that has the bytes, and on one that has too few.
read_full_all :
    (xs ys : Bytes) (fault : Fault)
    → read_full (stream (xs ++ ys) fault) (length xs) ≡ (got xs, stream ys fault)
unfolding read_full
read_full_all xs ys fault =
    let enough : leb (length xs) (length (xs ++ ys)) ≡ true = ground (arith, length-append xs ys) in
    rw (enough, take_first xs ys, drop_first xs ys) refl

read_full_short :
    (xs : Bytes) (n : ℕ) (fault : Fault)
    → length xs < n
    → read_full (stream xs fault) n ≡ (failed (short_fault xs fault), stream [] fault)
unfolding read_full
read_full_short xs n fault h =
    let few : leb n (length xs) ≡ false = ground (arith, h) in rw few refl

-- The header of a frame, and what is then read behind it.
read_header_lem :
    (f : LengthPrefixedFramer) (n : ℕ) (bytes : Bytes) (fault : Fault)
    → n ≤ f.max_frame_bytes
    → f.max_frame_bytes < 4294967296
    → read_frame f (some (stream (put_uint32 n ++ bytes) fault))
      ≡ read_sized f n (stream bytes fault)
unfolding read_frame
read_header_lem f n bytes fault h k =
    rw (read_full_all (put_uint32 n) bytes fault, uint32-put_uint32 n (omega (arith, h, k))) refl

read_sized_lem :
    (f : LengthPrefixedFramer) (frame rest : Bytes) (fault : Fault)
    → length frame ≤ f.max_frame_bytes
    → read_sized f (length frame) (stream (frame ++ rest) fault)
      ≡ (ok frame, some (stream rest fault))
read_sized_lem f [] rest fault h =
    let fits : ltb f.max_frame_bytes 0 ≡ false = ground arith in rw fits refl
read_sized_lem f (b ∷ bs) rest fault h =
    let fits : ltb f.max_frame_bytes (length (b ∷ bs)) ≡ false = ground (arith, h) in
    let full : nat_eqb (length (b ∷ bs)) 0 ≡ false = ground arith in
    rw (fits, full, read_full_all (b ∷ bs) rest fault) refl

-- ReadFrame returns the frame that a stream begins with and leaves the rest.
pub read_wire :
    (f : LengthPrefixedFramer) (frame rest : Bytes) (fault : Fault)
    → length frame ≤ f.max_frame_bytes
    → f.max_frame_bytes < 4294967296
    → read_frame f (some (stream (wire frame ++ rest) fault)) ≡ (ok frame, some (stream rest fault))
read_wire f frame rest fault h k = rw append_assoc (
    read_header_lem f (length frame) (frame ++ rest) fault h k
    ∙ read_sized_lem f frame rest fault h)

abbrev pub cut_error : ℕ → Bytes → Fault → Result Bytes
cut_error k frame fault =
    if ltb k 4
    then err (at_header (short_fault (take k (wire frame)) fault))
    else err (at_body (short_fault (take (k - 4) frame) fault))

read_sized_short :
    (f : LengthPrefixedFramer) (n : ℕ) (bytes : Bytes) (fault : Fault)
    → length bytes < n
    → n ≤ f.max_frame_bytes
    → read_sized f n (stream bytes fault)
      ≡ (err (at_body (short_fault bytes fault)), some (stream [] fault))
read_sized_short f n bytes fault h k =
    let fits : ltb f.max_frame_bytes n ≡ false = ground (arith, k) in
    let full : nat_eqb n 0 ≡ false = ground (arith, h) in
    rw (fits, full, read_full_short bytes n fault h) refl

read_no_header :
    (f : LengthPrefixedFramer) (bytes : Bytes) (fault : Fault)
    → length bytes < 4
    → read_frame f (some (stream bytes fault))
      ≡ (err (at_header (short_fault bytes fault)), some (stream [] fault))
unfolding read_frame
read_no_header f bytes fault h = rw (read_full_short bytes 4 fault h) refl

take-wire :
    (k : ℕ) (frame : Bytes)
    → 4 ≤ k
    → take k (wire frame) ≡ put_uint32 (length frame) ++ take (k - 4) frame
take-wire k frame h =
    let whole : k ≡ 4 + (k - 4) = omega arith in
    ap (λ (t : ℕ). take t (wire frame)) whole ∙ take_past (put_uint32 (length frame)) frame (k - 4)

-- On a stream that is cut off within a frame, ReadFrame returns no frame but the error of the
-- stage it was in, an end of file within the header or the body being an unexpected one.
pub read_cut :
    (f : LengthPrefixedFramer) (frame : Bytes) (k : ℕ) (fault : Fault)
    → length frame ≤ f.max_frame_bytes
    → f.max_frame_bytes < 4294967296
    → k < length (wire frame)
    → read_frame f (some (stream (take k (wire frame)) fault))
      ≡ (cut_error k frame fault, some (stream [] fault))
read_cut f frame k fault h b cut = elim (Bool-cases (ltb k 4)) [
  | inl e ↦
      let short : length (take k (wire frame)) < 4 =
        omega (arith, length-take k (wire frame), ltb→lt k 4 e) in
      read_no_header f (take k (wire frame)) fault short ∙ rw e refl
  | inr e ↦
      let past : 4 ≤ k = ground (arith, e) in
      let short : length (take (k - 4) frame) < length frame =
        omega (arith, length-take (k - 4) frame, cut, past) in
      rw (take-wire k frame past, e)
        (read_header_lem f (length frame) (take (k - 4) frame) fault h b
          ∙ read_sized_short f (length frame) (take (k - 4) frame) fault short h)
]

-- What the stream of an accepted frame began with.
uint32_kept :
    (bytes : Bytes) → length bytes ≡ 4 → All IsByte bytes → put_uint32 (uint32 bytes) ≡ bytes
uint32_kept (a ∷ b ∷ c ∷ d ∷ []) h (ha, (hb, (hc, (hd, _)))) = put_uint32-uint32 a b c d ha hb hc hd
uint32_kept [] h k = absurd (omega arith)
uint32_kept (a ∷ []) h k = absurd (omega arith)
uint32_kept (a ∷ b ∷ []) h k = absurd (omega arith)
uint32_kept (a ∷ b ∷ c ∷ []) h k = absurd (omega arith)
uint32_kept (a ∷ b ∷ c ∷ d ∷ e ∷ bytes) h k = absurd (omega arith)

All-take : (n : ℕ) (bytes : Bytes) → All IsByte bytes → All IsByte (take n bytes)
All-take zero bytes h = tt
All-take (suc n) [] h = tt
All-take (suc n) (b ∷ bytes) (hb, hs) = (hb, All-take n bytes hs)

read_sized_sound :
    (f : LengthPrefixedFramer) (n : ℕ) (bytes frame rest : Bytes) (fault : Fault)
    → read_sized f n (stream bytes fault) ≡ (ok frame, some (stream rest fault))
    → (n ≡ length frame) × (n ≤ f.max_frame_bytes) × (bytes ≡ frame ++ rest)
unfolding read_full
read_sized_sound f n bytes frame rest fault h =
    grind (arith, take-append-drop n bytes, length-take n bytes)

-- ReadFrame accepts a stream of bytes only if it begins with a frame that WriteFrame would write,
-- no longer than the maximum.
pub read_sound :
    (f : LengthPrefixedFramer) (bytes frame rest : Bytes) (fault : Fault)
    → All IsByte bytes
    → read_frame f (some (stream bytes fault)) ≡ (ok frame, some (stream rest fault))
    → (length frame ≤ f.max_frame_bytes) × (bytes ≡ wire frame ++ rest)
unfolding read_frame read_full
read_sound f bytes frame rest fault hb h = elim (Bool-cases (leb 4 (length bytes))) [
  | inl e ↦
      let enough : length (take 4 bytes) ≡ 4 = ground (arith, e, length-take 4 bytes) in
      let kept = uint32_kept (take 4 bytes) enough (All-take 4 bytes hb) in
      let (n, fits, body) =
        read_sized_sound f (uint32 (take 4 bytes)) (drop 4 bytes) frame rest fault (rw e at h) in
      (
        ground (arith, n, fits),
        sym (take-append-drop 4 bytes)
            ∙ ap₂ (λ (x y : Bytes). x ++ y) (sym kept ∙ ap put_uint32 n) body,
      )
  | inr e ↦ cc (rw e at h)
]
