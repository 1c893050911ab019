-- ===== src/Pcan/Stream.antt =====
-- processRxData of the PCAN codec: a transfer is a sequence of messages, each with its size, up to
-- a size of zero, a message that is cut off, or the end.
use i_can.Common.{
  ℕ, zero, suc, ◌&&◌, List, [], ◌∷◌, ◌++◌, ltb, leb, ◌==◌, if◌then◌else◌, length, take, drop,
}
use i_can.Common.Words.{add32, of_le_bytes}
use i_can.Common.Outcome.{Outcome, ok, stuck}
use i_can.Can.{Frame}
use i_can.Ring.{Header}
use i_can.Pcan.Frames.{decode_rx_frame, tx_echo_tag, rx_header_size}

-- sizeof(pucan_msg)
abbrev pub msg_header_size : ℕ
msg_header_size = 12

-- The counters of the codec.
pub record RxCounts : Type 0 where
  pub echo : ℕ
  pub overrun : ℕ
  pub calibration : ℕ
  pub error : ℕ
  pub status : ℕ
  pub truncated : ℕ
  pub zero_sentinel : ℕ
  pub transfer : ℕ

-- The type of a message, and the tag of an RX message.
abbrev pub msg_type : List ℕ → ℕ
msg_type bytes = of_le_bytes (take 2 (drop 2 bytes))

abbrev pub rx_tag_low : List ℕ → ℕ
rx_tag_low bytes = of_le_bytes (take 4 (drop 12 bytes))

-- What handleMessage counts of a message that is no RX message.
unfoldable pub count_message : RxCounts → ℕ → RxCounts
count_message c kind =
    if kind == 0x101
    then record c { overrun = add32 c.overrun 1 }
    else if kind == 0x100
    then record c { calibration = add32 c.calibration 1 }
    else if kind == 2
    then record c { error = add32 c.error 1 }
    else if kind == 3
    then record c { status = add32 c.status 1 }
    else c

-- Codec::handleMessage on the bytes from the message on, of which `size` are its own, with the
-- frame for `onFrame`, if there is one.
unfoldable pub handle_message : RxCounts → List ℕ → ℕ → RxCounts × List Frame
handle_message c bytes size =
    if (msg_type bytes == 1) && leb rx_header_size size
    then (if rx_tag_low bytes == tx_echo_tag
        then (record c { echo = add32 c.echo 1 }, [])
        else (c, decode_rx_frame bytes size ∷ []))
    else (count_message c (msg_type bytes), [])

-- The counters, the frames that went to `onFrame`, and `msgIdx`.
pub record Parsed : Type 0 where
  pub counts : RxCounts
  pub frames : List Frame
  pub msgs : ℕ

-- Parsed after one message more.
abbrev pub with_message : Parsed → List ℕ → ℕ → Parsed
with_message p bytes size =
    let (c, fs) = handle_message p.counts bytes size in
    record { counts = c; frames = p.frames ++ fs; msgs = add32 p.msgs 1 }

-- Parsed where the loop stops at a size of 0, and at a message that is cut off.
abbrev pub at_zero : Parsed → Parsed
at_zero p = record p { counts = record p.counts { zero_sentinel = add32 p.counts.zero_sentinel 1 } }

abbrev pub at_cut : Parsed → Parsed
at_cut p = record p { counts = record p.counts { truncated = add32 p.counts.truncated 1 } }

-- `msg->size`
abbrev pub msg_size : List ℕ → ℕ
msg_size bytes = of_le_bytes (take 2 bytes)

-- The loop of processRxData on the bytes from `ptr` to `end`.
unfoldable pub parse_loop : ℕ → Parsed → List ℕ → Outcome Parsed
parse_loop zero p bytes = stuck
parse_loop (suc fuel) p bytes =
    let size = msg_size bytes in
    let rest = parse_loop fuel (with_message p bytes size) (drop size bytes) in
    if ltb (length bytes) msg_header_size
    then ok p
    else if size == 0
    then ok (at_zero p)
    else if ltb (length bytes) size
    then ok (at_cut p)
    else rest

-- What processRxData publishes in the shared memory, after a transfer of `bytes`.
unfoldable pub publish : List ℕ → Parsed → Header → Header
publish bytes p h =
    let c = p.counts in
    let copy_len = if ltb (length bytes) 48 then length bytes else 48 in
    record h {
      codec = record {
        echo_count = c.echo;
        overrun_count = c.overrun;
        calibration_count = c.calibration;
        error_count = c.error;
        status_count = c.status;
        truncated_count = c.truncated;
        zero_sentinel_count = c.zero_sentinel;
        transfer_seq = c.transfer;
        transfer_len = length bytes;
        msgs_parsed = p.msgs;
        zeros_hit = c.zero_sentinel;
        dbg_head = take copy_len bytes ++ drop copy_len h.codec.dbg_head;
      };
    }

-- Codec::processRxData. A round takes one byte of the transfer at least, so one round more than its
-- bytes is enough. The header is updated where the code is given one.
unfoldable pub process_rx_data : RxCounts → List ℕ → Outcome Parsed
process_rx_data c bytes =
    parse_loop (suc (length bytes))
      (record { counts = record c { transfer = add32 c.transfer 1 }; frames = []; msgs = 0 }) bytes
