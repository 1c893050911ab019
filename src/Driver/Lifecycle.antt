-- ===== src/Driver/Lifecycle.antt =====
-- StartAsyncRead, StopAsyncRead, StartIO, StopIO and SetLineCoding.
use i_can.Common.{
  ℕ, zero, suc, true, false, not, ◌&&◌, ◌||◌, Option, none, some, List, [], ◌∷◌, ◌++◌, ◌==◌,
  if◌then◌else◌, set,
}
use i_can.Common.Words.{le_bytes}
use i_can.Common.IoReturn.{IoReturn, success, not_ready, no_memory, is_success}
use i_can.Ring.{Header, RingCtrl}
use i_can.Slcan.Codec as SlcanCodec
use i_can.Gsusb.Device as GsusbDevice
use i_can.Gsusb.Device.{UsbDevice}
use i_can.Pcan.Codec as PcanCodec
use i_can.Driver.State.{
  Driver, CodecVariant, slcan, gsusb, pcan, protocol_gsusb, protocol_pcan, is_some,
}
use i_can.Driver.Slots.{
  RxSlotState, free, Slots, BundledFn, rx_ring_size, submit_pending_reads, no_reads,
}
use i_can.Driver.Setup.{SetupCalls, configure_device_of}

-- The system calls of StartIO: those of ConfigureDevice; CreateMemoryDescriptorRing; the creation
-- and SetMemoryDescriptor of the buffer of a slot; the creation of the actions and of the second TX
-- buffer; and AsyncIOBundled.
pub record StartCalls : Type 0 where
  pub setup : SetupCalls
  pub create_ring : IoReturn
  pub create_slot : ℕ → IoReturn
  pub set_slot : ℕ → IoReturn
  pub create_read_action : IoReturn
  pub create_write_action : IoReturn
  pub create_tx_buffer2 : IoReturn
  pub create_write_action2 : IoReturn
  pub bundled : BundledFn

-- The loop of StartAsyncRead over the slots from `i` on: its failure, if any, and the slots.
unfoldable pub prepare_slots :
    StartCalls → ℕ → ℕ → List RxSlotState → Option IoReturn × List RxSlotState
prepare_slots sys zero i states = (none, states)
prepare_slots sys (suc n) i states =
    let rest = prepare_slots sys n (suc i) (set states i free) in
    if not (is_success (sys.create_slot i))
    then (some (sys.create_slot i), states)
    else if not (is_success (sys.set_slot i))
    then (some (sys.set_slot i), states)
    else rest

-- StartAsyncRead on prepared slots: the action is made, and the slots are submitted.
unfoldable pub first_reads : StartCalls → List RxSlotState → Driver → IoReturn × Driver
first_reads sys states d =
    let zeroed : Slots = record { states = states; in_flight = 0 } in
    let (ret, slots) =
      submit_pending_reads sys.bundled (d.is_running && is_some d.bulk_in_pipe) zeroed in
    if not (is_success sys.create_read_action)
    then (
      sys.create_read_action,
      record d { slots = record { states = states; in_flight = d.slots.in_flight } },
    )
    else (ret, record d { slots = slots; has_read_action = is_success ret })

unfoldable pub after_slots :
    StartCalls → Option IoReturn × List RxSlotState → Driver → IoReturn × Driver
unfolding first_reads
after_slots sys (some ret, states) d =
    (ret, record d { slots = record { states = states; in_flight = d.slots.in_flight } })
after_slots sys (none, states) d = first_reads sys states d

-- USBCANDriver::StartAsyncRead, on a driver with an IN pipe
unfoldable pub start_async_read : StartCalls → Driver → IoReturn × Driver
unfolding after_slots prepare_slots
start_async_read sys d =
    if not (is_success sys.create_ring)
    then (sys.create_ring, d)
    else after_slots sys (prepare_slots sys rx_ring_size 0 d.slots.states) d

-- USBCANDriver::StopAsyncRead
abbrev pub stop_async_read : Driver → Driver
stop_async_read d = record d { slots = no_reads }

abbrev pub empty_ctrl : RingCtrl
empty_ctrl = record { head = 0; tail = 0 }

-- StartIO resets the rings and their counters.
abbrev pub reset_rings : Option Header → Option Header
reset_rings none = none
reset_rings (some h) = some (record h {
  rx = empty_ctrl;
  tx0 = empty_ctrl;
  tx1 = empty_ctrl;
  rx_produce_count = 0;
  rx_dropped = 0;
  tx_drain_count = 0;
  tx_dropped = 0;
})

-- The part of StartIO that prepares the second endpoint of a PCAN device; a failure is none of StartIO.
unfoldable pub prepare_channel1 : StartCalls → Driver → Driver
prepare_channel1 sys d =
    let made = is_success sys.create_tx_buffer2 && is_success sys.create_write_action2 in
    let prepared : Driver =
      if is_some d.data_out_pipe2 && not d.has_write_action2
      then record d { has_tx_buffer2 = made; has_write_action2 = made }
      else d in
    record prepared { tx_in_flight2 = false }

-- The end of StartIO.
unfoldable pub finish_start : IoReturn × Driver → IoReturn × Driver
finish_start (ret, d) =
    if is_success ret then (success, d) else (ret, record d { is_running = false })

-- StartIO on a configured driver that is not running.
unfoldable pub start_configured : StartCalls → Driver → IoReturn × Driver
unfolding prepare_channel1 finish_start start_async_read
start_configured sys d =
    let fresh = record d { is_running = true; read_complete_count = 0; read_complete_bytes = 0 } in
    let sending = record fresh { has_write_action = true; tx_in_flight = false } in
    let channels = prepare_channel1 sys sending in
    let reset = record channels { ring_header = reset_rings channels.ring_header } in
    if not d.has_write_action && not (is_success sys.create_write_action)
    then (sys.create_write_action, record fresh { is_running = false })
    else finish_start (start_async_read sys reset)

-- StartIO after ConfigureDevice, where that is called.
unfoldable pub start_after : StartCalls → IoReturn × Driver → IoReturn × Driver
unfolding start_configured
start_after sys (ret, d) =
    if not (is_success ret)
    then (ret, d)
    else if not d.is_configured
    then (not_ready, d)
    else start_configured sys d

-- USBCANDriver::StartIO
unfoldable pub start_io : StartCalls → Driver → IoReturn × Driver
unfolding start_after
start_io sys d =
    if d.is_running
    then (success, d)
    else start_after sys (
        if not d.is_configured && d.has_device
        then configure_device_of sys.setup d
        else (success, d))

-- onStopIO of the codecs
unfoldable pub codec_on_stop_io : UsbDevice → CodecVariant → CodecVariant
codec_on_stop_io dev (slcan a) = slcan (SlcanCodec.on_stop_io a)
codec_on_stop_io dev (gsusb c) = gsusb (GsusbDevice.on_stop_io dev c)
codec_on_stop_io dev (pcan c n) = pcan (PcanCodec.on_stop_io c) n

-- USBCANDriver::StopIO. Aborting the pipes changes no state here.
unfoldable pub stop_io : UsbDevice → Driver → IoReturn × Driver
unfolding codec_on_stop_io
stop_io dev d =
    let stopped = record d {
      is_running = false;
      codec = codec_on_stop_io (record dev { present = d.has_device }) d.codec;
    } in
    if not d.is_running then (success, d) else (success, stop_async_read stopped)

-- LineCoding, as its bytes: seven, packed.
abbrev pub line_coding : ℕ → ℕ → ℕ → ℕ → List ℕ
line_coding baud_rate data_bits stop_bits parity =
    le_bytes 4 baud_rate ++ (stop_bits ∷ parity ∷ data_bits ∷ [])

-- USBCANDriver::SetLineCoding
unfoldable pub set_line_coding : UsbDevice → Driver → ℕ → ℕ → ℕ → ℕ → IoReturn × Driver
set_line_coding dev d baud_rate data_bits stop_bits parity =
    let kept = record d { baud_rate = baud_rate } in
    if not d.has_device
    then (not_ready, d)
    else if (d.detected_protocol == protocol_pcan) || (d.detected_protocol == protocol_gsusb)
    then (success, kept)
    else if not (dev.create 7)
    then (no_memory, kept)
    else (
      (dev.device_request 0x21 0x20 0 7 (line_coding baud_rate data_bits stop_bits parity)).0,
      kept,
    )
