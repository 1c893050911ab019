-- ===== src/Slcan/Batch.antt =====
-- The loop of drainTx of the SLCAN codec, over the queue of frames in the TX ring.
use i_can.Common.{
  ℕ, zero, suc, ◌+◌, ◌*◌, ◌<◌, ◌≡◌, sym, ap, ◌∙◌, List, [], ◌∷◌, ◌++◌, append_assoc, append-nil,
  ltb, if◌then◌else◌, length, length-append, arith, Bool-cases, inl, inr,
}
use i_can.Common.Words.{add32}
use i_can.Common.Outcome.{Outcome, ok}
use i_can.Can.{Frame}
use i_can.Ring.{tx0_base}
use i_can.Ring.Queue.{IsCapacity}
use i_can.Ring.Transmit.{HoldsFrames, read_tx_frame_head, read_tx_frame_front, read_tx_frame_empty}
use i_can.Slcan.Text.{encode}
use i_can.Slcan.Bounds.{encode-ne-empty}
use i_can.Slcan.Stream.{encoded}
use i_can.Slcan.Codec.{Batch, batch_next, batch_loop}

-- The frames at the front whose texts fit a batch that holds `used` bytes.
abbrev pub fitting : ℕ → List Frame → List Frame
fitting used [] = []
fitting used (f ∷ fs) =
    let rest = fitting (used + length (encode f 256)) fs in
    if ltb 4096 (used + length (encode f 256)) then [] else f ∷ rest

-- The frames that the loop takes from the ring: those of the batch, and the one that no longer fits.
abbrev pub consumed : ℕ → List Frame → ℕ
consumed used [] = 0
consumed used (f ∷ fs) =
    let rest = consumed (used + length (encode f 256)) fs in
    if ltb 4096 (used + length (encode f 256)) then 1 else suc rest

-- The batch after `f` and then the frames of `fs` that fit beside `used` bytes.
later : Batch → Frame → List Frame → ℕ → Outcome Batch
later b f fs used = ok (record b {
  tail = add32 (add32 b.tail 74) (74 * consumed used fs);
  bytes = (b.bytes ++ encode f 256) ++ encoded (fitting used fs);
  frames = b.frames + 1 + length (fitting used fs);
})

joined :
    (b : Batch) (f : Frame) (fs : List Frame) (used : ℕ)
    → later b f fs used
      ≡ ok (record b {
        tail = add32 b.tail (74 * suc (consumed used fs));
        bytes = b.bytes ++ (encode f 256 ++ encoded (fitting used fs));
        frames = b.frames + suc (length (fitting used fs));
      })
unfolding later
joined b f fs used =
    let t : add32 (add32 b.tail 74) (74 * consumed used fs)
        ≡ add32 b.tail (74 * suc (consumed used fs)) =
      omega arith in
    let n : b.frames + 1 + length (fitting used fs) ≡ b.frames + suc (length (fitting used fs)) =
      omega arith in
    let c = append_assoc b.bytes (encode f 256) (encoded (fitting used fs)) in
    λ i. ok (record b { tail = t i; bytes = c i; frames = n i })

-- The loop from a place in the ring where the frames `fs` wait.
pub batch_loop_lem :
    (fuel : ℕ) (b : Batch) (fs : List Frame)
    → IsCapacity b.header.tx0_capacity
    → HoldsFrames
        (tx0_base b.header)
        b.header.tx0_capacity
        b.header
        (record { head = b.header.tx0.head; tail = b.tail })
        fs
    → length fs < fuel
    → batch_loop fuel b
      ≡ ok (record b {
        tail = add32 b.tail (74 * consumed (length b.bytes) fs);
        bytes = b.bytes ++ encoded (fitting (length b.bytes) fs);
        frames = b.frames + length (fitting (length b.bytes) fs);
      })
unfolding batch_loop batch_next later
batch_loop_lem zero b fs g q l = absurd (omega arith)
batch_loop_lem (suc fuel) b [] g q l =
    rw
      (
        read_tx_frame_head b.header b.header.tx0 b.tail (tx0_base b.header) b.header.tx0_capacity
            b.tail,
        read_tx_frame_empty g b.header (record { head = b.header.tx0.head; tail = b.tail }) q,
      )
      (let t : b.tail ≡ add32 b.tail (74 * 0) = let x = q.bytes.tail_fits in omega arith in
        let n : b.frames ≡ b.frames + 0 = omega arith in
        λ i. ok (record b { tail = t i; bytes = sym (append-nil b.bytes) i; frames = n i }))
batch_loop_lem (suc fuel) b (f ∷ fs) g q l =
    let (front, rest) =
      read_tx_frame_front g b.header (record { head = b.header.tx0.head; tail = b.tail }) f fs q in
    rw
      (
        read_tx_frame_head b.header b.header.tx0 b.tail (tx0_base b.header) b.header.tx0_capacity
            b.tail,
        front,
        encode-ne-empty f,
      )
      (elim (Bool-cases (ltb 4096 (length b.bytes + length (encode f 256)))) [
        | inl full ↦ rw full (
            let n : b.frames ≡ b.frames + 0 = omega arith in
            λ i. ok (record b {
              tail = add32 b.tail 74;
              bytes = sym (append-nil b.bytes) i;
              frames = n i;
            }))
        | inr room ↦ rw room (
            batch_loop_lem fuel
              (record {
                header = b.header;
                tail = add32 b.tail 74;
                bytes = b.bytes ++ encode f 256;
                frames = b.frames + 1;
              })
              fs g rest (omega arith)
            ∙ ap (later b f fs) (length-append b.bytes (encode f 256))
            ∙ joined b f fs (length b.bytes + length (encode f 256)))
      ])
