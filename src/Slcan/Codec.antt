-- ===== src/Slcan/Codec.antt =====
-- slcan::Codec: commands for the channel, and the TX drain. `send` stands for the driver's
-- callback, which the code is given; the bytes that it is called with are part of the result.
use i_can.Common.{
  ℕ, zero, suc, ◌+◌, Bool, not, ◌&&◌, Option, none, some, List, [], ◌∷◌, ◌++◌, ltb, ◌==◌,
  if◌then◌else◌, length,
}
use i_can.Common.Words.{add32, sub32}
use i_can.Common.Outcome.{Outcome, ok, stuck, ◌>>=◌}
use i_can.Common.IoReturn.{IoReturn, success, busy, bad_argument, is_success}
use i_can.Ring.{Header, TxReadResult, read_tx0_frame}
use i_can.Codec.{SendFn, DrainResult, returned}
use i_can.Slcan.Text.{encode, bitrate_to_code, carriage_return}
use i_can.Slcan.Lines.{LineAccumulator, reset}

-- TX_BUFFER_SIZE and SLCAN_ENCODE_BUF
abbrev pub tx_buffer_size : ℕ
tx_buffer_size = 4096

abbrev pub slcan_encode_buf : ℕ
slcan_encode_buf = 256

-- Codec::openChannel: the bytes sent, if any, and the result.
unfoldable pub open_channel : SendFn → ℕ → Option (List ℕ) × IoReturn
open_channel send bitrate = elim (bitrate_to_code bitrate) [
  | none ↦ (none, bad_argument)
  | some code ↦
      let cmd =
        b'C' ∷ carriage_return ∷ b'S' ∷ code ∷ carriage_return ∷ b'O' ∷ carriage_return ∷ [] in
      (some cmd, send cmd)
]

-- Codec::closeChannel
unfoldable pub close_channel : SendFn → Option (List ℕ) × IoReturn
close_channel send = let cmd = b'C' ∷ carriage_return ∷ [] in (some cmd, send cmd)

-- Codec::onStopIO
abbrev pub on_stop_io : LineAccumulator → LineAccumulator
on_stop_io a = reset a

-- The local variables of drainTx, with the header that its reads update.
pub record Batch : Type 0 where
  pub header : Header
  pub tail : ℕ
  pub bytes : List ℕ
  pub frames : ℕ

-- The body of the loop of drainTx after a read, with `again` for the rest of the loop.
unfoldable pub batch_next : (Batch → Outcome Batch) → Batch → TxReadResult × Header → Outcome Batch
batch_next again b (r, h) =
    let tail = add32 b.tail r.bytes_consumed in
    let encoded = encode r.frame slcan_encode_buf in
    let moved = record b { header = h; tail = tail } in
    let skipped = again moved in
    let added =
      again
        (record { header = h; tail = tail; bytes = b.bytes ++ encoded; frames = b.frames + 1 }) in
    if not r.valid && not r.dropped
    then ok (record b { header = h })
    else if r.dropped
    then skipped
    else if length encoded == 0
    then ok (record moved { header = record h { tx_dropped = add32 h.tx_dropped 1 } })
    else if ltb tx_buffer_size (length b.bytes + length encoded)
    then ok moved
    else added

unfoldable pub batch_loop : ℕ → Batch → Outcome Batch
batch_loop zero b = stuck
batch_loop (suc fuel) b = read_tx0_frame b.header b.tail >>= batch_next (batch_loop fuel) b

-- drainTx after the loop: the batch is sent, and the tail moves if that succeeds.
unfoldable pub send_batch : SendFn → Batch → DrainResult
send_batch send b =
    let h = b.header in
    let ret = send b.bytes in
    let sent = record h {
      tx0 = record { head = h.tx0.head; tail = b.tail };
      tx_drain_count = add32 h.tx_drain_count b.frames;
    } in
    if ltb 0 (length b.bytes)
    then record {
      header = if is_success ret && ltb 0 b.frames then sent else h;
      sent = some b.bytes;
      result = ret;
    }
    else returned h success

-- Codec::drainTx, for pointers that are not null. A round takes two bytes of the ring at least, so
-- one round more than the stored bytes is enough.
unfoldable pub drain_tx : SendFn → Header → Bool → Outcome DrainResult
drain_tx send h tx_in_flight =
    if tx_in_flight
    then ok (returned h busy)
    else (batch_loop (suc (sub32 h.tx0.head h.tx0.tail))
          (record { header = h; tail = h.tx0.tail; bytes = []; frames = 0 })
        >>= λ b. ok (send_batch send b))
