-- ===== src/Pcan/Codec.antt =====
-- pcan::Codec: commands for the device, the channels, and the frames of the two TX rings.
use i_can.Common.{
  ℕ, zero, suc, ◌+◌, ◌-◌, ◌*◌, ◌%◌, Bool, true, false, not, ◌&&◌, Option, none, some, List, [], ◌∷◌,
  ◌++◌, leb, ◌==◌, if◌then◌else◌, length, get_or, set, replicate,
}
use i_can.Common.Words.{u16_mod, add32, sub32, le_bytes}
use i_can.Common.Outcome.{Outcome, ok, ◌>>=◌}
use i_can.Common.IoReturn.{IoReturn, success, busy, bad_argument, is_success}
use i_can.Ring.{Header, RingCtrl, TxReadResult, read_tx_frame, tx0_base, tx1_base}
use i_can.Codec.{SendFn, DrainResult, returned}
use i_can.Pcan.Frames.{encode_tx_frame}
use i_can.Pcan.Timing.{BitTiming, calculate_bit_timing}

abbrev pub cmd_buffer_size : ℕ
cmd_buffer_size = 512

-- opcode_channel
abbrev pub opcode_channel : ℕ → ℕ → ℕ
opcode_channel channel opcode = (channel * 4096 + opcode % 1024) % u16_mod

-- The command builders: each gives the eight bytes that it writes.
abbrev pub write_clock_set : List ℕ
write_clock_set = le_bytes 2 (opcode_channel 0 0x80) ++ replicate 6 0

abbrev pub timing_command : ℕ → Option BitTiming → List ℕ
timing_command channel none = le_bytes 2 (opcode_channel channel 0) ++ replicate 6 0
timing_command channel (some t) =
    le_bytes 2 (opcode_channel channel 4)
    ++ (96
        ∷ sub32 t.sjw 1 % 128
        ∷ sub32 t.tseg2 1 % 128
        ∷ sub32 t.tseg1 1 % 256
        ∷ le_bytes 2 (sub32 t.brp 1 % 1024))

unfoldable pub write_bit_timing : ℕ → ℕ → Outcome (List ℕ)
write_bit_timing channel bitrate =
    calculate_bit_timing bitrate >>= λ t. ok (timing_command channel t)

abbrev pub write_filter_std : ℕ → ℕ → ℕ → List ℕ
write_filter_std channel row mask =
    le_bytes 2 (opcode_channel channel 8) ++ (le_bytes 2 row ++ le_bytes 4 mask)

abbrev pub write_reset_errors : ℕ → List ℕ
write_reset_errors channel =
    le_bytes 2 (opcode_channel channel 10) ++ (le_bytes 2 0xc000 ++ replicate 4 0)

abbrev pub write_normal_mode : ℕ → List ℕ
write_normal_mode channel = le_bytes 2 (opcode_channel channel 2) ++ replicate 6 0

abbrev pub write_reset_mode : ℕ → List ℕ
write_reset_mode channel = le_bytes 2 (opcode_channel channel 1) ++ replicate 6 0

-- The state of the channels: `channelCount_`, `channelOpen_` and `channelBitrate_`.
pub record Channels : Type 0 where
  pub channel_count : ℕ
  pub channel_open : List Bool
  pub channel_bitrate : List ℕ

-- The channels after a call, the transfers that it handed to the callback, and what it returned.
pub record ChannelResult : Type 0 where
  pub channels : Channels
  pub sent : List (List ℕ)
  pub result : IoReturn

-- The rows of filters from `row` on, of which there are `n`.
unfoldable pub filter_rows : ℕ → ℕ → ℕ → List ℕ
filter_rows zero channel row = []
filter_rows (suc n) channel row =
    write_filter_std channel row 0xffffffff ++ filter_rows n channel (suc row)

-- Commands in a buffer of 512 bytes of 0xFF.
abbrev pub command_buffer : List ℕ → List ℕ
command_buffer cmds = cmds ++ replicate (cmd_buffer_size - length cmds) 255

-- The commands of the second transfer of openChannel.
abbrev pub init_commands : Channels → ℕ → List ℕ → List ℕ
init_commands c channel timing =
    (if not (get_or c.channel_open 0 false) && not (get_or c.channel_open 1 false)
      then write_clock_set
      else [])
    ++ (timing ++ (write_reset_errors channel ++ write_normal_mode channel))

-- openChannel from the second transfer on.
unfoldable pub send_init : SendFn → Channels → ℕ → ℕ → List ℕ → List ℕ → ChannelResult
send_init send c bitrate channel filters timing =
    let cmds = command_buffer (init_commands c channel timing) in
    let ret = send cmds in
    record {
      channels =
          if is_success ret
          then record c {
            channel_open = set c.channel_open channel true;
            channel_bitrate = set c.channel_bitrate channel bitrate;
          }
          else c;
      sent = filters ∷ cmds ∷ [];
      result = ret;
    }

-- Codec::openChannel
unfoldable pub open_channel : SendFn → Channels → ℕ → ℕ → Outcome ChannelResult
open_channel send c bitrate channel =
    let filters = filter_rows 64 channel 0 in
    if leb c.channel_count channel
    then ok (record { channels = c; sent = []; result = bad_argument })
    else if not (is_success (send filters))
    then ok (record { channels = c; sent = filters ∷ []; result = send filters })
    else (write_bit_timing channel bitrate >>= λ timing.
        ok (send_init send c bitrate channel filters timing))

-- Codec::closeChannel
unfoldable pub close_channel : SendFn → Channels → ℕ → ChannelResult
close_channel send c channel =
    let is_open = get_or c.channel_open channel false in
    let cmds = command_buffer (if is_open then write_reset_mode channel else []) in
    let closed = record c {
      channel_open = set c.channel_open channel false;
      channel_bitrate = set c.channel_bitrate channel 0;
    } in
    if leb c.channel_count channel
    then record { channels = c; sent = []; result = bad_argument }
    else record { channels = if is_open then closed else c; sent = cmds ∷ []; result = send cmds }

-- Codec::onStopIO: the first `n` channels are closed.
unfoldable pub close_all : ℕ → List Bool → List Bool
close_all zero l = l
close_all (suc n) [] = []
close_all (suc n) (b ∷ l) = false ∷ close_all n l

unfoldable pub on_stop_io : Channels → Channels
unfolding close_all
on_stop_io c = record c { channel_open = close_all c.channel_count c.channel_open }

-- The ring that drainTxRing is called for: its control, the place of its bytes, and its capacity.
pub data TxRing : Type 0 where
  ring0 ring1 : TxRing

abbrev pub ring_ctrl : TxRing → Header → RingCtrl
ring_ctrl ring0 h = h.tx0
ring_ctrl ring1 h = h.tx1

abbrev pub ring_base : TxRing → Header → ℕ
ring_base ring0 h = tx0_base h
ring_base ring1 h = tx1_base h

abbrev pub ring_capacity : TxRing → Header → ℕ
ring_capacity ring0 h = h.tx0_capacity
ring_capacity ring1 h = h.tx1_capacity

-- `ring_store_tail_release(txCtrl, tail)`
abbrev pub store_tail : TxRing → Header → ℕ → Header
store_tail ring0 h tail = record h { tx0 = record { head = h.tx0.head; tail = tail } }
store_tail ring1 h tail = record h { tx1 = record { head = h.tx1.head; tail = tail } }

-- drainTxRing on an encoded frame.
unfoldable pub send_frame : SendFn → TxRing → Header → ℕ → List ℕ → DrainResult
send_frame send ring h tail bytes =
    let ret = send bytes in
    let stored = store_tail ring h tail in
    record {
      header =
          if is_success ret then record stored { tx_drain_count = add32 h.tx_drain_count 1 } else h;
      sent = some bytes;
      result = ret;
    }

-- drainTxRing after a read at `tail`.
unfoldable pub drain_read : SendFn → TxRing → ℕ → TxReadResult × Header → DrainResult
drain_read send ring at (r, h) =
    let tail = add32 at r.bytes_consumed in
    let bytes = encode_tx_frame r.frame 128 in
    if not r.valid && not r.dropped
    then returned h success
    else if r.dropped
    then returned (store_tail ring h tail) success
    else if length bytes == 0
    then returned (store_tail ring (record h { tx_dropped = add32 h.tx_dropped 1 }) tail) success
    else send_frame send ring h tail bytes

-- Codec::drainTxRing, for pointers that are not null; drainTx does the same for `ring0`.
unfoldable pub drain_tx_ring : SendFn → TxRing → Header → Bool → Outcome DrainResult
drain_tx_ring send ring h tx_in_flight =
    let tail = (ring_ctrl ring h).tail in
    if tx_in_flight
    then ok (returned h busy)
    else (read_tx_frame h (ring_ctrl ring h) (ring_base ring h) (ring_capacity ring h) tail >>= λ r.
        ok (drain_read send ring tail r))

abbrev pub drain_tx : SendFn → Header → Bool → Outcome DrainResult
drain_tx send h tx_in_flight = drain_tx_ring send ring0 h tx_in_flight
