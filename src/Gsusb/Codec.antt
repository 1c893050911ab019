-- ===== src/Gsusb/Codec.antt =====
-- gsusb::Codec: echo flow control, and the frames that go out and come in. The state is that of
-- the echoes; what the codec knows of the device's bit timing is no part of it.
use i_can.Common.{
  ℕ, zero, suc, ◌-◌, Bool, true, false, not, ◌&&◌, Option, none, some, List, ltb, ◌==◌,
  if◌then◌else◌, length,
}
use i_can.Common.Words.{add32, sub32, sub64}
use i_can.Common.Outcome.{Outcome, ok, stuck, ◌>>=◌}
use i_can.Common.IoReturn.{success, busy, is_success}
use i_can.Can.{Frame}
use i_can.Ring.{Header, TxReadResult, read_tx0_frame}
use i_can.Codec.{SendFn, DrainResult, returned}
use i_can.Gsusb.Frames.{
  RxResult, received, tx_echo, invalid, encode_tx_frame, decode_rx_transfer, host_frame_fd_size,
}

abbrev pub max_echo_inflight : ℕ
max_echo_inflight = 10

abbrev pub stall_timeout_ns : ℕ
stall_timeout_ns = 200000000

pub record EchoState : Type 0 where
  pub echo_inflight : ℕ
  pub echo_stall_start : ℕ
  pub next_echo_id : ℕ
  pub needs_drain_tx : Bool

abbrev pub can_send : EchoState → Bool
can_send c = ltb c.echo_inflight max_echo_inflight

abbrev pub on_tx_sent : EchoState → EchoState
on_tx_sent c = record c { echo_inflight = add32 c.echo_inflight 1 }

abbrev pub on_echo_received : EchoState → EchoState
on_echo_received c = record c {
  echo_inflight = if ltb 0 c.echo_inflight then c.echo_inflight - 1 else c.echo_inflight;
  echo_stall_start = 0;
}

abbrev pub reset_echo : EchoState → EchoState
reset_echo c = record c { echo_inflight = 0; echo_stall_start = 0; next_echo_id = 0 }

-- Codec::checkStall, and onTimer, which calls it.
unfoldable pub check_stall : ℕ → EchoState → Bool × EchoState
check_stall now c =
    if ltb c.echo_inflight max_echo_inflight
    then (false, c)
    else if c.echo_stall_start == 0
    then (false, record c { echo_stall_start = now })
    else if ltb stall_timeout_ns (sub64 now c.echo_stall_start)
    then (true, record c { echo_inflight = sub32 c.echo_inflight 1; echo_stall_start = 0 })
    else (false, c)

-- Codec::processRxData: the frame for `onFrame`, if there is one.
abbrev pub handle_rx : EchoState → RxResult → EchoState × Option Frame
handle_rx c tx_echo = (record (on_echo_received c) { needs_drain_tx = true }, none)
handle_rx c (received f) = (record c { needs_drain_tx = false }, some f)
handle_rx c invalid = (record c { needs_drain_tx = false }, none)

unfoldable pub process_rx_data : EchoState → List ℕ → EchoState × Option Frame
process_rx_data c bytes = handle_rx c (decode_rx_transfer bytes)

-- The header with the tail stored.
abbrev pub store_tail : Header → ℕ → Header
store_tail h tail = record h { tx0 = record { head = h.tx0.head; tail = tail } }

-- drainTx from the transfer of an encoded frame on.
unfoldable pub send_frame : SendFn → Header → EchoState → ℕ → List ℕ → DrainResult × EchoState
send_frame send h c tail bytes =
    let ret = send bytes in
    let sent = record (store_tail h tail) { tx_drain_count = add32 h.tx_drain_count 1 } in
    (
      record { header = if is_success ret then sent else h; sent = some bytes; result = ret },
      if is_success ret then on_tx_sent c else c,
    )

-- The body of the loop of drainTx after a read at `tail`, with `again` for the rest of the loop.
unfoldable pub drain_next :
    (Header → EchoState → ℕ → Outcome (DrainResult × EchoState))
    → SendFn
    → EchoState
    → ℕ
    → TxReadResult × Header
    → Outcome (DrainResult × EchoState)
drain_next again send c at (r, h) =
    let tail = add32 at r.bytes_consumed in
    let numbered = record c { next_echo_id = add32 c.next_echo_id 1 } in
    let bytes = encode_tx_frame r.frame c.next_echo_id host_frame_fd_size in
    let skipped = again (store_tail h tail) c tail in
    let unsent =
      again (store_tail (record h { tx_dropped = add32 h.tx_dropped 1 }) tail) numbered tail in
    if not r.valid && not r.dropped
    then ok (returned h success, c)
    else if r.dropped
    then skipped
    else if length bytes == 0
    then unsent
    else ok (send_frame send h numbered tail bytes)

unfoldable pub drain_loop : ℕ → SendFn → Header → EchoState → ℕ → Outcome (DrainResult × EchoState)
drain_loop zero send h c tail = stuck
drain_loop (suc fuel) send h c tail =
    read_tx0_frame h tail >>= drain_next (drain_loop fuel send) send c tail

-- Codec::drainTx, for pointers that are not null. A round takes two bytes of the ring at least.
unfoldable pub drain_tx : SendFn → Header → EchoState → Bool → Outcome (DrainResult × EchoState)
drain_tx send h c tx_in_flight =
    if tx_in_flight
    then ok (returned h busy, c)
    else if not (can_send c)
    then ok (returned h busy, c)
    else drain_loop (suc (sub32 h.tx0.head h.tx0.tail)) send h c h.tx0.tail
