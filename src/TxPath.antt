-- ===== src/TxPath.antt =====
-- The way of a frame from writeTxFrame of a client (can_client/can_client.cc) through the TX ring of
-- channel 0 to drainTx of the PCAN codec (usb_can_driver/codecs/pcan_codec.h).
use i_can.Common.{
  ℕ, ◌+◌, ◌*◌, List, [], ◌∷◌, ◌++◌, leb, if◌then◌else◌, length, none, some, Option, false,
}
use i_can.Common.Outcome.{Outcome, ok, ◌>>=◌}
use i_can.Common.IoReturn.{is_success}
use i_can.Can.{Frame}
use i_can.Codec.{SendFn, DrainResult}
use i_can.Ring.{Header}
use i_can.Client.{Client, write_tx_frame}
use i_can.Pcan.{encode_tx_frame, drain_tx}
pub mod Shape
pub mod Refinement
mod Tests

-- What the client and the driver do, one call after another.
pub data Call : Type 0 where
  write : Frame → Call
  drain : Call

-- The transfers that the adapter took, of an answer of drainTx.
abbrev pub accepted : DrainResult → List (List ℕ)
accepted r = elim r.sent [ none ↦ [] | some bytes ↦ if is_success r.result then bytes ∷ [] else [] ]

-- A drain on the shared memory of a client, if it is mapped.
abbrev pub drain_on : SendFn → Client → Option Header → Outcome (Client × List (List ℕ))
drain_on send c none = ok (c, [])
drain_on send c (some h) =
    drain_tx send h false >>= λ r. ok (record c { ring_header = some r.header }, accepted r)

abbrev pub run_call : SendFn → Client → Call → Outcome (Client × List (List ℕ))
run_call send c (write f) = ok ((write_tx_frame c f 0).0, [])
run_call send c drain = drain_on send c c.ring_header

-- A run of calls: the state at its end, and the transfers that the adapter took, in order.
unfoldable pub run : SendFn → Client → List Call → Outcome (Client × List (List ℕ))
run send c [] = ok (c, [])
run send c (call ∷ calls) =
    run_call send c call >>= λ r. (run send r.0 calls >>= λ s. ok (s.0, r.1 ++ s.1))

-- What the path promises: a queue of frames with room for so many bytes.
abbrev pub after_write : ℕ → List Frame → Frame → List Frame
after_write cap queue f = if leb (74 * (length queue + 1)) cap then queue ++ (f ∷ []) else queue

abbrev pub queue_call : SendFn → ℕ → List Frame → Call → List Frame × List (List ℕ)
queue_call send cap queue (write f) = (after_write cap queue f, [])
queue_call send cap [] drain = ([], [])
queue_call send cap (f ∷ queue) drain =
    if is_success (send (encode_tx_frame f 128))
    then (queue, encode_tx_frame f 128 ∷ [])
    else (f ∷ queue, [])

abbrev pub queue_run : SendFn → ℕ → List Frame → List Call → List Frame × List (List ℕ)
queue_run send cap queue [] = (queue, [])
queue_run send cap queue (call ∷ calls) =
    let (q, sent) = queue_call send cap queue call in
    let (rest, later) = queue_run send cap q calls in (rest, sent ++ later)
