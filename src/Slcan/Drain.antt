-- ===== src/Slcan/Drain.antt =====
-- drainTx of the SLCAN codec over the queue of frames in the TX ring.
use i_can.Common.{
  ℕ, zero, suc, ◌+◌, ◌*◌, ◌≤◌, ◌<◌, ◌≡◌, refl, subst, ap₂, ◌∙◌, true, false, some, List, [], ◌∷◌,
  ltb, ◌==◌, if◌then◌else◌, length, length-append, arith, Bool-cases, inl, inr, drop, le→ltb-false,
  lt→ltb,
}
use i_can.Common.Words.{add32, sub32}
use i_can.Common.Outcome.{ok}
use i_can.Common.IoReturn.{success, is_success}
use i_can.Can.{Frame}
use i_can.Codec.{SendFn, DrainResult, returned}
use i_can.Ring.{Header, RingCtrl, tx0_base}
use i_can.Ring.Queue.{IsCapacity, used-Holds}
use i_can.Ring.Transmit.{HoldsFrames, read_tx_frame_front, tx_entries}
use i_can.Slcan.Text.{encode}
use i_can.Slcan.Bounds.{encode-ne-empty, length-encode}
use i_can.Slcan.Stream.{encoded}
use i_can.Slcan.Codec.{Batch, batch_loop, send_batch, drain_tx}
use i_can.Slcan.Batch.{fitting, consumed, batch_loop_lem}

HoldsFrames-drop :
    {base cap : ℕ} (g : IsCapacity cap) (h : Header) (k : ℕ) (fs : List Frame) (c : RingCtrl)
    → k ≤ length fs
    → HoldsFrames base cap h c fs
    → HoldsFrames base cap h (record { head = c.head; tail = add32 c.tail (74 * k) }) (drop k fs)
HoldsFrames-drop {base} {cap} g h zero fs c l q =
    let x = q.bytes.tail_fits in
    let t : c.tail ≡ add32 c.tail (74 * 0) = omega arith in
    subst (λ n. HoldsFrames base cap h (record { head = c.head; tail = n }) fs) t q
HoldsFrames-drop g h (suc k) [] c l q = absurd (omega arith)
HoldsFrames-drop {base} {cap} g h (suc k) (f ∷ fs) c l q =
    let t : add32 (add32 c.tail 74) (74 * k) ≡ add32 c.tail (74 * suc k) = omega arith in
    subst (λ n. HoldsFrames base cap h (record { head = c.head; tail = n }) (drop k fs)) t
      (HoldsFrames-drop g h k fs (record { head = c.head; tail = add32 c.tail 74 }) (omega arith)
        (read_tx_frame_front g h c f fs q).1)

-- The loop takes the frames of the batch, and one more if that one is left.
consumed_lem :
    (used : ℕ) (fs : List Frame)
    → (consumed used fs ≤ length fs)
      × (consumed used fs ≡ (
          if ltb (length (fitting used fs)) (length fs)
          then suc (length (fitting used fs))
          else length fs))
consumed_lem used [] = (omega arith, refl)
consumed_lem used (f ∷ fs) = elim (Bool-cases (ltb 4096 (used + length (encode f 256)))) [
  | inl full ↦ rw full (omega arith, ground arith)
  | inr room ↦
      let (a, e) = consumed_lem (used + length (encode f 256)) fs in
      rw room (omega arith, ground (arith, e))
]

-- The number of frames that leave the ring with a batch.
abbrev pub departed : List Frame → ℕ
departed fs =
    if ltb (length (fitting 0 fs)) (length fs) then suc (length (fitting 0 fs)) else length fs

-- What drainTx did with a ring that held `fs` of which at least one waits.
pub record Sent (send : SendFn) (h : Header) (fs : List Frame) (r : DrainResult) : Type 0 where
  pub bytes : r.sent ≡ some (encoded (fitting 0 fs))
  pub answer : r.result ≡ send (encoded (fitting 0 fs))
  pub refused : is_success r.result ≡ false → r.header ≡ h
  pub moved :
      is_success r.result ≡ true
      → HoldsFrames (tx0_base h) h.tx0_capacity r.header r.header.tx0 (drop (departed fs) fs)
  pub counted :
      is_success r.result ≡ true
      → r.header.tx_drain_count ≡ add32 h.tx_drain_count (length (fitting 0 fs))

-- A batch with a frame in it goes out, and the tail moves if the driver takes it.
send_batch_lem :
    (send : SendFn) (b : Batch)
    → 0 < length b.bytes
    → 0 < b.frames
    → send_batch send b ≡ record {
      header =
          if is_success (send b.bytes)
          then record b.header {
            tx0 = record { head = b.header.tx0.head; tail = b.tail };
            tx_drain_count = add32 b.header.tx_drain_count b.frames;
          }
          else b.header;
      sent = some b.bytes;
      result = send b.bytes;
    }
unfolding send_batch
send_batch_lem send b l n = elim (Bool-cases (is_success (send b.bytes))) [
  | inl taken ↦ rw (lt→ltb 0 (length b.bytes) l, lt→ltb 0 b.frames n, taken) refl
  | inr refused ↦ rw (lt→ltb 0 (length b.bytes) l, refused) refl
]

entries-length : (fs : List Frame) → length fs ≤ length (tx_entries fs)
entries-length [] = omega arith
entries-length (f ∷ fs) = omega (arith, entries-length fs, length-append f.payload (tx_entries fs))

-- The whole loop, on a ring that holds `fs`.
whole_batch : Header → List Frame → Batch
whole_batch h fs = record {
  header = h;
  tail = add32 h.tx0.tail (74 * departed fs);
  bytes = encoded (fitting 0 fs);
  frames = length (fitting 0 fs);
}

whole_batch_lem :
    (h : Header) (fs : List Frame)
    → IsCapacity h.tx0_capacity
    → HoldsFrames (tx0_base h) h.tx0_capacity h h.tx0 fs
    → batch_loop
        (suc (sub32 h.tx0.head h.tx0.tail))
        (record { header = h; tail = h.tx0.tail; bytes = []; frames = 0 })
      ≡ ok (whole_batch h fs)
unfolding whole_batch
whole_batch_lem h fs g q =
    batch_loop_lem (suc (sub32 h.tx0.head h.tx0.tail))
      (record { header = h; tail = h.tx0.tail; bytes = []; frames = 0 }) fs g q
      (omega (arith, (used-Holds g q.bytes).0, entries-length fs))
    ∙ ap₂
        (λ n m. ok (record {
          header = h;
          tail = add32 h.tx0.tail (74 * n);
          bytes = encoded (fitting 0 fs);
          frames = m;
        }))
        (consumed_lem 0 fs).1 (omega arith)

departed-le : (fs : List Frame) → departed fs ≤ length fs
departed-le fs = subst (λ n. n ≤ length fs) (consumed_lem 0 fs).1 (consumed_lem 0 fs).0

-- The first frame always fits.
whole_batch-goes :
    (h : Header) (f : Frame) (fs : List Frame)
    → (0 < length (whole_batch h (f ∷ fs)).bytes) × (0 < (whole_batch h (f ∷ fs)).frames)
unfolding whole_batch
whole_batch-goes h f fs =
    rw (le→ltb-false 4096 (0 + length (encode f 256)) (omega (arith, length-encode f))) (
      omega (
        arith,
        ne_empty,
        length-append (encode f 256) (encoded (fitting (0 + length (encode f 256)) fs)),
      ),
      omega arith,
    )
  where
    ne_empty : 0 < length (encode f 256)
    ne_empty = positive (length (encode f 256)) (encode-ne-empty f)
      where
        positive : (n : ℕ) → (n == 0) ≡ false → 0 < n
        positive n e = ground (arith, e)

module _ (send : SendFn) (h : Header) (g : IsCapacity h.tx0_capacity) where
  -- drainTx of the SLCAN codec with `f ∷ fs` in the ring sends the texts of the frames that fit
  -- 4096 bytes, in one transfer. If the transfer is refused, nothing changes. If it succeeds, the
  -- frames sent are counted and leave the ring, and with them the first frame that did not fit,
  -- which is then neither sent nor kept.
  pub drain_tx_sends :
      (f : Frame) (fs : List Frame)
      → HoldsFrames (tx0_base h) h.tx0_capacity h h.tx0 (f ∷ fs)
      → (r : DrainResult) × (drain_tx send h false ≡ ok r) × Sent send h (f ∷ fs) r
  unfolding drain_tx whole_batch
  drain_tx_sends f fs q = (
    sent,
    rw (whole_batch_lem h (f ∷ fs) g q, send_batch_lem send last goes.0 goes.1),
    record {
      bytes = refl;
      answer = refl;
      refused = λ e. rw e refl;
      moved = λ e. rw e moved_ring;
      counted = λ e. rw e refl;
    },
  )
    where
      last : Batch
      last = whole_batch h (f ∷ fs)

      goes : (0 < length last.bytes) × (0 < last.frames)
      goes = whole_batch-goes h f fs

      sent : DrainResult
      sent = record {
        header =
            if is_success (send last.bytes)
            then record h {
              tx0 = record { head = h.tx0.head; tail = last.tail };
              tx_drain_count = add32 h.tx_drain_count last.frames;
            }
            else h;
        sent = some last.bytes;
        result = send last.bytes;
      }

      after_batch :
          HoldsFrames
            (tx0_base h)
            h.tx0_capacity
            h
            (record { head = h.tx0.head; tail = last.tail })
            (drop (departed (f ∷ fs)) (f ∷ fs))
      after_batch = HoldsFrames-drop g h (departed (f ∷ fs)) (f ∷ fs) h.tx0 (departed-le (f ∷ fs)) q

      moved_ring :
          HoldsFrames
            (tx0_base h)
            h.tx0_capacity
            (record h {
              tx0 = record { head = h.tx0.head; tail = last.tail };
              tx_drain_count = add32 h.tx_drain_count last.frames;
            })
            (record { head = h.tx0.head; tail = last.tail })
            (drop (departed (f ∷ fs)) (f ∷ fs))
      moved_ring = record { bytes = after_batch.bytes; frames = after_batch.frames }

  -- On an empty ring it sends nothing, and changes nothing.
  pub drain_tx_idle :
      HoldsFrames (tx0_base h) h.tx0_capacity h h.tx0 []
      → drain_tx send h false ≡ ok (returned h success)
  unfolding drain_tx send_batch
  drain_tx_idle q = rw (
      batch_loop_lem (suc (sub32 h.tx0.head h.tx0.tail))
        (record { header = h; tail = h.tx0.tail; bytes = []; frames = 0 }) [] g q (omega arith))
