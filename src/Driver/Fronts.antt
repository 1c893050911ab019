-- ===== src/Driver/Fronts.antt =====
-- What the drain of the first frame of a TX ring leaves, and what it sends.
use i_can.Common.{◌≡◌, ap, inl, inr, some, List, ◌∷◌, if◌then◌else◌, Bool-cases}
use i_can.Common.Words.{add32}
use i_can.Common.IoReturn.{IoReturn, is_success}
use i_can.Can.{Frame}
use i_can.Ring.{Header}
use i_can.Ring.Queue.{IsCapacity}
use i_can.Ring.Transmit.{HoldsFrames, read_tx_frame_front}
use i_can.Codec.{SendFn, DrainResult}
use i_can.Pcan.Frames.{encode_tx_frame}
use i_can.Pcan.Codec.{
  TxRing, ring0, ring1, ring_ctrl, ring_base, ring_capacity, store_tail, send_frame,
}
use i_can.Driver.State.{Transfers}

-- The header after the transfer of the first frame of a ring was answered.
abbrev pub after_front : TxRing → IoReturn → Header → Header
after_front ring ret h =
    if is_success ret
    then record (store_tail ring h (add32 (ring_ctrl ring h).tail 74)) {
      tx_drain_count = add32 h.tx_drain_count 1;
    }
    else h

-- The frames that are left in the ring.
abbrev pub left_over : IoReturn → Frame → List Frame → List Frame
left_over ret f fs = if is_success ret then fs else f ∷ fs

abbrev pub RingHolds : TxRing → Header → List Frame → Type 0
RingHolds ring h fs = HoldsFrames (ring_base ring h) (ring_capacity ring h) h (ring_ctrl ring h) fs

pub ring1-after_front :
    (ret : IoReturn) (h : Header) (fs : List Frame)
    → RingHolds ring1 h fs
    → RingHolds ring1 (after_front ring0 ret h) fs
ring1-after_front ret h fs q = elim (Bool-cases (is_success ret)) [
  | inl e ↦ rw e (record { bytes = q.bytes; frames = q.frames })
  | inr e ↦ rw e q
]

pub ring0-after_front :
    (ret : IoReturn) (h : Header) (fs : List Frame)
    → RingHolds ring0 h fs
    → RingHolds ring0 (after_front ring1 ret h) fs
ring0-after_front ret h fs q = elim (Bool-cases (is_success ret)) [
  | inl e ↦ rw e (record { bytes = q.bytes; frames = q.frames })
  | inr e ↦ rw e q
]

pub capacity1-after_front :
    (ret : IoReturn) (h : Header)
    → IsCapacity h.tx1_capacity
    → IsCapacity (ring_capacity ring1 (after_front ring0 ret h))
capacity1-after_front ret h g = elim (Bool-cases (is_success ret)) [
  | inl e ↦ rw e g
  | inr e ↦ rw e g
]

pub front_left0 :
    (ret : IoReturn) (h : Header) (f : Frame) (fs : List Frame)
    → IsCapacity h.tx0_capacity
    → RingHolds ring0 h (f ∷ fs)
    → RingHolds ring0 (after_front ring0 ret h) (left_over ret f fs)
front_left0 ret h f fs g q = elim (Bool-cases (is_success ret)) [
  | inl e ↦
      let rest = (read_tx_frame_front g h (ring_ctrl ring0 h) f fs q).1 in
      rw e (record { bytes = rest.bytes; frames = rest.frames })
  | inr e ↦ rw e q
]

pub front_left1 :
    (ret : IoReturn) (h : Header) (f : Frame) (fs : List Frame)
    → IsCapacity h.tx1_capacity
    → RingHolds ring1 h (f ∷ fs)
    → RingHolds ring1 (after_front ring1 ret h) (left_over ret f fs)
front_left1 ret h f fs g q = elim (Bool-cases (is_success ret)) [
  | inl e ↦
      let rest = (read_tx_frame_front g h (ring_ctrl ring1 h) f fs q).1 in
      rw e (record { bytes = rest.bytes; frames = rest.frames })
  | inr e ↦ rw e q
]

-- The transfer of the first frame of a ring, for a callback with a known answer.
pub front_sent :
    (send : SendFn) (ring : TxRing) (h : Header) (f : Frame) (ret : IoReturn)
    → send (encode_tx_frame f 128) ≡ ret
    → send_frame send ring h (add32 (ring_ctrl ring h).tail 74) (encode_tx_frame f 128) ≡ record {
      header = after_front ring ret h;
      sent = some (encode_tx_frame f 128);
      result = ret;
    }
unfolding send_frame
front_sent send ring h f ret e =
    ap
      (λ r.
        let result : DrainResult = record {
          header = after_front ring r h;
          sent = some (encode_tx_frame f 128);
          result = r;
        } in
        result)
      e

-- The answer to the transfer of a frame on an endpoint.
abbrev pub answer0 : Transfers → Frame → IoReturn
answer0 u f = u.bulk_out (encode_tx_frame f 128)

abbrev pub answer1 : Transfers → Frame → IoReturn
answer1 u f = u.data_out2 (encode_tx_frame f 128)
