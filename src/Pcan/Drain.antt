-- ===== src/Pcan/Drain.antt =====
-- drainTxRing of the PCAN codec on the queue of frames in either TX ring.
use i_can.Common.{
  ℕ, ◌≤◌, ◌≡◌, refl, ap, ◌∙◌, Bool, true, false, some, List, [], ◌∷◌, length, ◌==◌, Bool-cases, inl,
  inr, arith,
}
use i_can.Common.Words.{add32}
use i_can.Common.Outcome.{ok}
use i_can.Common.IoReturn.{success, busy, is_success}
use i_can.Can.{Frame, IsFrame}
use i_can.Codec.{SendFn, DrainResult, returned}
use i_can.Ring.{Header}
use i_can.Ring.Queue.{IsCapacity}
use i_can.Ring.Transmit.{HoldsFrames, read_tx_frame_front, read_tx_frame_empty}
use i_can.Pcan.Frames.{encode_tx_frame}
use i_can.Pcan.Codec.{
  TxRing, ring0, ring1, ring_ctrl, ring_base, ring_capacity, store_tail, send_frame, drain_read,
  drain_tx_ring,
}
use i_can.Pcan.Messages.{sent_message, encode_tx_frame-sent_message}

nonzero : (n : ℕ) → 1 ≤ n → (n == 0) ≡ false
nonzero n l = ground (arith, l)

encode_tx_frame-nonempty : (f : Frame) → IsFrame f → (length (encode_tx_frame f 128) == 0) ≡ false
encode_tx_frame-nonempty f v =
    ap (λ l. length l == 0) (encode_tx_frame-sent_message f v)
    ∙ nonzero (length (sent_message f)) (omega arith)

-- The ring that a call is not for.
abbrev pub other : TxRing → TxRing
other ring0 = ring1
other ring1 = ring0

-- What drainTxRing did with a ring whose first frame is `f`.
pub record SentFront (send : SendFn) (ring : TxRing) (h : Header) (f : Frame) (fs : List Frame)
    (r : DrainResult) : Type 0 where
  pub bytes : r.sent ≡ some (encode_tx_frame f 128)
  pub answer : r.result ≡ send (encode_tx_frame f 128)
  pub other_kept : ring_ctrl (other ring) r.header ≡ ring_ctrl (other ring) h
  pub refused : is_success r.result ≡ false → r.header ≡ h
  pub moved :
      is_success r.result ≡ true
      → HoldsFrames (ring_base ring h) (ring_capacity ring h) r.header (ring_ctrl ring r.header) fs
        × (r.header.tx_drain_count ≡ add32 h.tx_drain_count 1)

-- The header after a frame is sent.
abbrev stored : TxRing → Header → ℕ → Header
stored ring h tail = record (store_tail ring h tail) { tx_drain_count = add32 h.tx_drain_count 1 }

stored-HoldsFrames :
    (ring : TxRing) (h : Header) (tail base cap : ℕ) (fs : List Frame)
    → HoldsFrames base cap h (record { head = (ring_ctrl ring h).head; tail = tail }) fs
    → HoldsFrames base cap (stored ring h tail) (ring_ctrl ring (stored ring h tail)) fs
stored-HoldsFrames ring0 h tail base cap fs q = record { bytes = q.bytes; frames = q.frames }
stored-HoldsFrames ring1 h tail base cap fs q = record { bytes = q.bytes; frames = q.frames }

stored-other :
    (ring : TxRing) (h : Header) (tail : ℕ)
    → ring_ctrl (other ring) (stored ring h tail) ≡ ring_ctrl (other ring) h
stored-other ring0 h tail = refl
stored-other ring1 h tail = refl

module _ (send : SendFn) (ring : TxRing) (h : Header) (g : IsCapacity (ring_capacity ring h)) where
  send_frame-SentFront :
      (f : Frame) (fs : List Frame)
      → HoldsFrames
          (ring_base ring h)
          (ring_capacity ring h)
          h
          (record { head = (ring_ctrl ring h).head; tail = add32 (ring_ctrl ring h).tail 74 })
          fs
      → SentFront send ring h f fs
          (send_frame send ring h (add32 (ring_ctrl ring h).tail 74) (encode_tx_frame f 128))
  unfolding send_frame
  send_frame-SentFront f fs q =
      let tail = add32 (ring_ctrl ring h).tail 74 in
      elim (Bool-cases (is_success (send (encode_tx_frame f 128)))) [
        | inl taken ↦ rw taken (record {
          bytes = refl;
          answer = refl;
          other_kept = stored-other ring h tail;
          refused = λ e. absurd (impossible e taken);
          moved = λ e. (stored-HoldsFrames ring h tail _ _ fs q, refl);
        })
        | inr failed ↦ rw failed (record {
          bytes = refl;
          answer = refl;
          other_kept = refl;
          refused = λ e. refl;
          moved = λ e. absurd (impossible failed e);
        })
      ]
    where
      impossible : {b : Bool} → b ≡ false → b ≡ true → ⊥
      impossible e f = cc

  -- A call on a ring with frames comes to the transfer of the first of them.
  pub drain_tx_ring-front :
      (f : Frame) (fs : List Frame)
      → HoldsFrames (ring_base ring h) (ring_capacity ring h) h (ring_ctrl ring h) (f ∷ fs)
      → drain_tx_ring send ring h false
        ≡ ok (send_frame send ring h (add32 (ring_ctrl ring h).tail 74) (encode_tx_frame f 128))
  unfolding drain_tx_ring drain_read
  drain_tx_ring-front f fs q =
      let (front, rest) = read_tx_frame_front g h (ring_ctrl ring h) f fs q in
      rw (front, encode_tx_frame-nonempty f q.frames.0) refl

  -- For either ring, drainTxRing with no transfer in flight sends the first frame alone, as
  -- encodeTxFrame writes it. If the transfer succeeds, the frame leaves its ring and is counted; if
  -- not, the header is as before. The other ring is left alone.
  pub drain_tx_ring_sends_front :
      (f : Frame) (fs : List Frame)
      → HoldsFrames (ring_base ring h) (ring_capacity ring h) h (ring_ctrl ring h) (f ∷ fs)
      → (r : DrainResult) × (drain_tx_ring send ring h false ≡ ok r) × SentFront send ring h f fs r
  drain_tx_ring_sends_front f fs q =
      let (front, rest) = read_tx_frame_front g h (ring_ctrl ring h) f fs q in
      (
        send_frame send ring h (add32 (ring_ctrl ring h).tail 74) (encode_tx_frame f 128),
        drain_tx_ring-front f fs q,
        send_frame-SentFront f fs rest,
      )

  -- On an empty ring it returns that it is busy with a transfer in flight, and else that it
  -- succeeded; in both cases nothing is sent and the header is as before.
  pub drain_tx_ring_idle :
      HoldsFrames (ring_base ring h) (ring_capacity ring h) h (ring_ctrl ring h) []
      → (drain_tx_ring send ring h true ≡ ok (returned h busy))
        × (drain_tx_ring send ring h false ≡ ok (returned h success))
  unfolding drain_tx_ring drain_read
  drain_tx_ring_idle q = (refl, rw (read_tx_frame_empty g h (ring_ctrl ring h) q) refl)
