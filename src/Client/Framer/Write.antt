-- ===== src/Client/Framer/Write.antt =====
-- clientx/codec/framer.go: WriteFrame and its loop, on a writer that makes progress.
use mathlib.Core.List.{append_assoc, append-nil}
use native.Mathlib.Nat.{zero-add, suc-add}
use arcgo.Prelude.{
  ℕ, zero, suc, ◌+◌, ◌≤◌, ◌≡◌, refl, sym, ap, ◌⊎◌, inl, inr, [], ◌∷◌, ◌++◌, Option, none, some,
  false, arith, length, length-drop, take, drop, take-append-drop, ltb, Option-cases,
}
use arcgo.Client.Framer.{
  Bytes, Fault, at_header, at_body, Result, ok, err, LengthPrefixedFramer, put_uint32, Writer,
  write_full, and_then, write_frame,
}

-- The bytes of a frame on the wire.
abbrev pub wire : Bytes → Bytes
wire frame = put_uint32 (length frame) ++ frame

-- A call on some bytes that reports no error takes one of them at least.
abbrev pub IsProgressing {ℓ} : {W : Type ℓ} → Writer W → Type ℓ
IsProgressing {W = W} i =
    (w : W) (b : ℕ) (bs : Bytes) → (i.write w (b ∷ bs)).1 ≡ none → 1 ≤ (i.write w (b ∷ bs)).0

-- Taking some bytes, and then some of those left.
pub take_more :
    (n k : ℕ) (xs : Bytes) → n ≤ length xs → take n xs ++ take k (drop n xs) ≡ take (n + k) xs
take_more zero k xs h = rw zero-add refl
take_more (suc n) k [] h = absurd (omega arith)
take_more (suc n) k (x ∷ xs) h =
    rw suc-add (ap (λ (t : Bytes). x ∷ t) (take_more n k xs (omega arith)))

pub take_all : (xs : Bytes) → take (length xs) xs ≡ xs
take_all [] = refl
take_all (x ∷ xs) = ap (λ (t : Bytes). x ∷ t) (take_all xs)

pub take_front : (k : ℕ) (xs ys : Bytes) → k ≤ length xs → take k (xs ++ ys) ≡ take k xs
take_front zero xs ys h = refl
take_front (suc k) [] ys h = absurd (omega arith)
take_front (suc k) (x ∷ xs) ys h = ap (λ (t : Bytes). x ∷ t) (take_front k xs ys (omega arith))

pub take_past : (xs ys : Bytes) (k : ℕ) → take (length xs + k) (xs ++ ys) ≡ xs ++ take k ys
take_past [] ys k = rw zero-add refl
take_past (x ∷ xs) ys k = rw suc-add (ap (λ (t : Bytes). x ∷ t) (take_past xs ys k))

module _ {ℓ} {W : Type ℓ} (i : Writer W) where
  -- Either all bytes are in, or the writer's error came after the first `k` of them.
  abbrev pub Wrote : W → Bytes → Result (Option Fault) × W → Type 0
  Wrote w bytes r =
      (r.0 ≡ ok none × i.received r.1 ≡ i.received w ++ bytes)
      ⊎ ((fault : Fault) × (k : ℕ) × (k ≤ length bytes)
          × (r.0 ≡ ok (some fault))
          × (i.received r.1 ≡ i.received w ++ take k bytes))

  -- What the rest of the bytes adds to the first `n`.
  Wrote-rest :
      (w w' : W) (bytes : Bytes) (n : ℕ) (r : Result (Option Fault) × W)
      → n ≤ length bytes
      → i.received w' ≡ i.received w ++ take n bytes
      → Wrote w' (drop n bytes) r
      → Wrote w bytes r
  Wrote-rest w w' bytes n r h e (inl (done, got)) =
      inl (done, rw (got, e, append_assoc, take-append-drop n bytes) refl)
  Wrote-rest w w' bytes n r h e (inr (fault, k, bound, failed, got)) = inr (
    fault,
    n + k,
    omega (arith, length-drop n bytes, bound),
    failed,
    rw (got, e, append_assoc, take_more n k bytes h) refl,
  )

  -- On a writer that takes a byte at least at each call without an error, writeFull returns within
  -- as many rounds as there are bytes, with all bytes sent, or with the error of the writer after
  -- some of them.
  pub write_full_lem :
      (fuel : ℕ) (w : W) (bytes : Bytes)
      → IsProgressing i
      → length bytes ≤ fuel
      → Wrote w bytes (write_full i fuel w bytes)
  unfolding write_full
  write_full_lem fuel w [] go h = inl (refl, sym (append-nil _))
  write_full_lem zero w (b ∷ bs) go h = absurd (omega arith)
  write_full_lem (suc fuel) w (b ∷ bs) go h =
      let bound = i.write_bounded w (b ∷ bs) in
      let taken = i.write_received w (b ∷ bs) in
      let n = (i.write w (b ∷ bs)).0 in
      let w' = (i.write w (b ∷ bs)).2 in
      elim (Option-cases (i.write w (b ∷ bs)).1) [
        | inl e ↦
            let fits : ltb (length (b ∷ bs)) n ≡ false = ground (arith, bound) in
            let rest =
              write_full_lem fuel w' (drop n (b ∷ bs)) go
                (omega (arith, length-drop n (b ∷ bs), go w b bs e)) in
            rw (e, fits) (Wrote-rest w w' (b ∷ bs) n _ bound taken rest)
        | inr (fault, e) ↦ rw e (inr (fault, n, bound, refl, taken))
      ]

  abbrev pub Sent : W → Bytes → Result Unit × W → Type 0
  Sent w frame r =
      (r.0 ≡ ok tt × i.received r.1 ≡ i.received w ++ wire frame)
      ⊎ ((fault : Fault) × (k : ℕ) × ((r.0 ≡ err (at_header fault) × k ≤ 4)
            ⊎ (r.0 ≡ err (at_body fault) × 4 ≤ k))
          × (k ≤ length (wire frame))
          × (i.received r.1 ≡ i.received w ++ take k (wire frame)))

  Sent-body :
      (w w' : W) (frame : Bytes) (r : Result (Option Fault) × W)
      → i.received w' ≡ i.received w ++ put_uint32 (length frame)
      → Wrote w' frame r
      → Sent w frame (and_then i at_body r (λ v. (ok tt, v)))
  Sent-body w w' frame (_, v) e (inl (done, got)) =
      rw done (inl (refl, rw (got, e, append_assoc) refl))
  Sent-body w w' frame (_, v) e (inr (fault, k, bound, failed, got)) = rw failed (
      inr (
        fault,
        4 + k,
        inr (refl, omega arith),
        omega (arith, bound),
        rw (got, e, append_assoc, sym (take_past (put_uint32 (length frame)) frame k)) refl,
      ))

  -- On a writer that takes a byte at least at each call without an error, WriteFrame of a frame
  -- within the maximum either sends the whole frame, or returns the error of the stage the writer
  -- failed in, a beginning of the frame having been sent.
  pub write_frame_lem :
      (fuel : ℕ) (f : LengthPrefixedFramer) (w : W) (frame : Bytes)
      → IsProgressing i
      → 4 ≤ fuel
      → length frame ≤ fuel
      → length frame ≤ f.max_frame_bytes
      → Sent w frame (write_frame i fuel f w frame)
  unfolding write_frame
  write_frame_lem fuel f w frame go h4 hf fits =
      let small : ltb f.max_frame_bytes (length frame) ≡ false = ground (arith, fits) in
      let header = write_full i fuel w (put_uint32 (length frame)) in
      rw small (elim (write_full_lem fuel w (put_uint32 (length frame)) go h4) [
        | inl (done, got) ↦
            rw done (Sent-body w header.1 frame _ got (write_full_lem fuel header.1 frame go hf))
        | inr (fault, k, bound, failed, got) ↦ rw failed (
            inr (
              fault,
              k,
              inl (refl, bound),
              omega (arith, bound),
              rw (got, take_front k (put_uint32 (length frame)) frame bound) refl,
            ))
      ])
