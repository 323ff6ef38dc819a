-- ===== src/Client/Framer/RoundTrip.antt =====
-- clientx/codec/framer.go: ReadFrame on what WriteFrame wrote.
use arcgo.Prelude.{ℕ, ◌≤◌, ◌<◌, ◌≡◌, [], ◌++◌, inl, inr, some, length}
use arcgo.Client.Framer.{Bytes, Fault, ok, LengthPrefixedFramer, Writer, write_frame, read_frame}
use arcgo.Client.Framer.Write.{IsProgressing, write_frame_lem}
use arcgo.Client.Framer.Read.{stream, read_wire}

module _ {ℓ} {W : Type ℓ} (i : Writer W) where
  -- Where WriteFrame of a frame within the maximum ends without an error, on a writer that has
  -- received nothing and takes a byte at least at each call without an error, ReadFrame on what
  -- was received and any further bytes returns the frame and leaves the further bytes.
  pub read_frame-write_frame :
      (fuel : ℕ) (f : LengthPrefixedFramer) (w : W) (frame rest : Bytes) (fault : Fault)
      → IsProgressing i
      → 4 ≤ fuel
      → length frame ≤ fuel
      → length frame ≤ f.max_frame_bytes
      → f.max_frame_bytes < 4294967296
      → i.received w ≡ []
      → (write_frame i fuel f w frame).0 ≡ ok tt
      → read_frame f (some (stream (i.received (write_frame i fuel f w frame).1 ++ rest) fault))
        ≡ (ok frame, some (stream rest fault))
  read_frame-write_frame fuel f w frame rest fault go h4 hf fits small new done =
      elim (write_frame_lem i fuel f w frame go h4 hf fits) [
        | inl (_, sent) ↦ rw (sent, new) (read_wire f frame rest fault fits small)
        | inr (e, k, inl (h, _), _, _) ↦ cc
        | inr (e, k, inr (h, _), _, _) ↦ cc
      ]
