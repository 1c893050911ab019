-- ===== src/Driver/Drains.antt =====
-- The TX rings: DrainTxRing, SendData, and the completions that drain again.
use i_can.Common.{
  ℕ, ◌+◌, Bool, false, not, ◌&&◌, Option, none, some, List, ltb, leb, ◌==◌, if◌then◌else◌, length,
}
use i_can.Common.Outcome.{Outcome, ok, undefined, ◌>>=◌}
use i_can.Common.IoReturn.{IoReturn, success, not_ready, is_success, is_busy}
use i_can.Ring.{Header}
use i_can.Codec.{SendFn, DrainResult}
use i_can.Slcan.Codec as SlcanCodec
use i_can.Gsusb.Codec as GsusbCodec
use i_can.Pcan.Codec.{Channels, ring0, ring1, drain_tx_ring}
use i_can.Pcan.Codec as PcanCodec
use i_can.Driver.State.{Driver, Transfers, CodecVariant, slcan, gsusb, pcan, protocol_pcan, is_some}
use i_can.Driver.Transfer.{send_raw_bytes, send_raw_bytes_channel1}

-- std::visit of drainTx
unfoldable pub codec_drain_tx :
    SendFn → Header → CodecVariant → Bool → Outcome (DrainResult × CodecVariant)
codec_drain_tx send h (slcan a) tx_in_flight =
    SlcanCodec.drain_tx send h tx_in_flight >>= λ r. ok (r, slcan a)
codec_drain_tx send h (gsusb c) tx_in_flight =
    GsusbCodec.drain_tx send h c.echo tx_in_flight >>= λ (r, e).
    ok (r, gsusb (record c { echo = e }))
codec_drain_tx send h (pcan c n) tx_in_flight =
    PcanCodec.drain_tx send h tx_in_flight >>= λ r. ok (r, pcan c n)

-- The driver after a drain that handed its bytes, if any, to `send`.
abbrev pub after_sending : (List ℕ → IoReturn × Driver) → Driver → Option (List ℕ) → Driver
after_sending send d none = d
after_sending send d (some bytes) = (send bytes).1

abbrev pub after_drain : (List ℕ → IoReturn × Driver) → Driver → DrainResult → Driver
after_drain send d r = record (after_sending send d r.sent) { ring_header = some r.header }

-- The header as drainTx reads it through the pointer to the bytes of tx1, and the header after it.
abbrev pub through_tx1 : Header → Header
through_tx1 h = record h { bytes = λ j. h.bytes (j + h.tx0_capacity) }

abbrev pub back_through_tx1 : Header → DrainResult → DrainResult
back_through_tx1 h r = record r { header = record r.header { bytes = h.bytes } }

-- DrainTxRing on one endpoint: drainTx, and once more with the bytes of tx1 where there are two
-- channels. The second result is dropped.
unfoldable pub drain_second : Transfers → IoReturn → Driver → Header → Outcome (IoReturn × Driver)
drain_second u ret d h =
    if ltb 0 h.tx1_capacity && leb 2 h.channel_count
    then (codec_drain_tx (λ bytes. (send_raw_bytes u d bytes).0) (through_tx1 h) d.codec
          d.tx_in_flight
        >>= λ (r, c).
            ok (
              ret,
              record (after_drain (send_raw_bytes u d) d (back_through_tx1 h r)) { codec = c },
            ))
    else ok (ret, d)

unfoldable pub drain_single : Transfers → Driver → Header → Outcome (IoReturn × Driver)
drain_single u d h =
    codec_drain_tx (λ bytes. (send_raw_bytes u d bytes).0) h d.codec d.tx_in_flight >>= λ (r, c).
    drain_second u r.result (record (after_drain (send_raw_bytes u d) d r) { codec = c }) r.header

-- What the dual path returns for the results of the two drains.
abbrev pub dual_result : IoReturn → IoReturn → IoReturn
dual_result ret0 ret1 =
    if not (is_success ret0) && not (is_busy ret0)
    then ret0
    else if not (is_success ret1) && not (is_busy ret1)
    then ret1
    else success

-- DrainTxRing on the second endpoint of PCAN, after the first drain returned `ret0`.
unfoldable pub drain_channel1 : Transfers → IoReturn → Driver → Header → Outcome (IoReturn × Driver)
drain_channel1 u ret0 d h =
    drain_tx_ring (λ bytes. (send_raw_bytes_channel1 u d bytes).0) ring1 h d.tx_in_flight2 >>= λ r.
    ok (dual_result ret0 r.result, after_drain (send_raw_bytes_channel1 u d) d r)

-- DrainTxRing on the two endpoints of PCAN.
unfoldable pub drain_dual : Transfers → Driver → Header → Outcome (IoReturn × Driver)
drain_dual u d h =
    drain_tx_ring (λ bytes. (send_raw_bytes u d bytes).0) ring0 h d.tx_in_flight >>= λ r.
    drain_channel1 u r.result (after_drain (send_raw_bytes u d) d r) r.header

-- `std::get<pcan::Codec>` throws on any other codec.
unfoldable pub dual_or_throw :
    CodecVariant → Transfers → Driver → Header → Outcome (IoReturn × Driver)
dual_or_throw (pcan c n) u d h = drain_dual u d h
dual_or_throw (slcan a) u d h = undefined
dual_or_throw (gsusb c) u d h = undefined

abbrev pub is_dual : Driver → Bool
is_dual d =
    (d.detected_protocol == protocol_pcan)
    && (is_some d.data_out_pipe2 && (d.has_tx_buffer2 && d.has_write_action2))

unfoldable pub drain_header : Transfers → Driver → Option Header → Outcome (IoReturn × Driver)
drain_header u d none = ok (not_ready, d)
drain_header u d (some h) =
    if not (is_some d.bulk_out_pipe)
    then ok (not_ready, d)
    else if is_dual d
    then dual_or_throw d.codec u d h
    else drain_single u d h

-- USBCANDriver::DrainTxRing
unfoldable pub drain_tx_ring_of : Transfers → Driver → Outcome (IoReturn × Driver)
unfolding drain_header
drain_tx_ring_of u d = drain_header u d d.ring_header

-- USBCANDriver::SendData
unfoldable pub send_data : Transfers → Driver → List ℕ → Outcome (IoReturn × Driver)
send_data u d bytes =
    if ltb 0 (length bytes) then ok (send_raw_bytes u d bytes) else drain_tx_ring_of u d

-- The end of both completions: with success, a running driver drains again.
abbrev pub drain_again : Transfers → IoReturn → Driver → Outcome Driver
drain_again u status d =
    if is_success status && d.is_running then (drain_tx_ring_of u d >>= λ (r, d'). ok d') else ok d

-- USBCANDriver::WriteComplete_Impl and WriteComplete2_Impl. Clearing a stall changes no state here.
unfoldable pub write_complete : Transfers → IoReturn → Driver → Outcome Driver
write_complete u status d = drain_again u status (record d { tx_in_flight = false })

unfoldable pub write_complete2 : Transfers → IoReturn → Driver → Outcome Driver
write_complete2 u status d = drain_again u status (record d { tx_in_flight2 = false })
