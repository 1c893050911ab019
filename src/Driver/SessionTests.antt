-- ===== src/Driver/SessionTests.antt =====
-- The theorems on the driver's sessions: a PCAN device that is started, and an SLCAN device that
-- sends a line.
use i_can.Common.{
  ℕ, zero, suc, ◌+◌, ◌^◌, if◌then◌else◌, All, true, false, ◌≡◌, ◌<◌, ◌&&◌, ltb, refl, List, [], ◌∷◌,
  none, some, length, arith, replicate,
}
use i_can.Common.Outcome.{ok}
use i_can.Common.IoReturn.{success, aborted}
use i_can.Common.Words.{IsByte}
use i_can.Can.{Frame, IsFrame}
use i_can.Ring.{Header}
use i_can.Ring.Receive.{HoldsPackets}
use i_can.Gsusb.Device.{UsbDevice}
use i_can.Slcan.{
  process_bytes, process_byte, end_line, count_line, decode, parse_type, decode_id, parse_id,
  hex_val, decode_dlc, decode_data, parse_data,
}
use i_can.Driver.State.{Driver, CodecVariant, slcan}
use i_can.Driver.Slots.{submit_pending_reads, pending}
use i_can.Driver.Setup.{SetupCalls, new_slcan, configure_device_of, new_codec, detect_protocol}
use i_can.Driver.Pipes.{Interfaces, find_interfaces, configure_pipes}
use i_can.Driver.Lifecycle.{StartCalls, start_io}
use i_can.Driver.Valid.{IsValid}
use i_can.Driver.Validity.{Reached-IsValid, fresh, next, start_step}
use i_can.Driver.Receive.{Completion, Decoded, codec_process_rx_data, read_complete_bundled}
use i_can.Driver.Delivery.{stamped, all_queued}
use i_can.Driver.Bundles.{Decodes, none_left, passed_over, decoded}
use i_can.Driver.Arrivals.{read_complete_delivers}
use i_can.Driver.Tests.{takes_all, granting, dual_driver}
use i_can.Samples.{header, received, header-HoldsPackets, rx-IsCapacity}

abbrev pub pcan_interfaces : Interfaces
pcan_interfaces = record {
  open_matched = success;
  create_iterator = success;
  opens = success ∷ [];
  copy_pipe = λ interface address. true;
}

abbrev pub willing_device : UsbDevice
willing_device = record {
  present = true;
  create = λ n. true;
  device_request = λ kind request value size bytes. (success, []);
}

abbrev pub pcan_setup : SetupCalls
pcan_setup = record {
  open_device = success;
  vid = 0x0c72;
  pid = 0x0011;
  interfaces = pcan_interfaces;
  create_tx_buffer = success;
  create_fw = success;
  usb_device = willing_device;
}

abbrev pub starting : StartCalls
starting = record {
  setup = pcan_setup;
  create_ring = success;
  create_slot = λ i. success;
  set_slot = λ i. success;
  create_read_action = success;
  create_write_action = success;
  create_tx_buffer2 = success;
  create_write_action2 = success;
  bundled = takes_all;
}

-- A driver that was matched with a composite device.
abbrev pub new_driver : Driver
new_driver = record dual_driver {
  data_interface = none;
  bulk_in_pipe = none;
  bulk_out_pipe = none;
  command_out_pipe = none;
  command_in_pipe = none;
  data_out_pipe2 = none;
  has_read_action = false;
  has_tx_buffer = false;
  has_write_action = false;
  has_tx_buffer2 = false;
  has_write_action2 = false;
  codec = slcan new_slcan;
  detected_protocol = 1;
  is_configured = false;
  is_running = false;
}

new_driver_starts :
    let (ret, d) = start_io starting new_driver in
    (ret ≡ success)
    × (d.is_running ≡ true)
    × (d.detected_protocol ≡ 3)
    × (d.has_write_action2 ≡ true)
    × (d.slots.in_flight ≡ 16)
unfolding start_io configure_device_of find_interfaces configure_pipes new_codec detect_protocol
    submit_pending_reads pending
new_driver_starts = (refl, refl, refl, refl, refl)

Reached-IsValid_example : IsValid (start_io starting new_driver).1
Reached-IsValid_example =
    Reached-IsValid (next (fresh new_driver refl refl refl) (start_step starting refl))

-- The line `t1232AABB`, and a read that was aborted.
abbrev line : List ℕ
line = b't' ∷ b'1' ∷ b'2' ∷ b'3' ∷ b'2' ∷ b'A' ∷ b'A' ∷ b'B' ∷ b'B' ∷ 13 ∷ []

abbrev line_read : Completion
line_read = record { status = success; bytes = line }

abbrev abort_read : Completion
abort_read = record { status = aborted; bytes = [] }

abbrev line_frame : Frame
line_frame = record {
  can_id = 0x123;
  len = 2;
  flags = 0;
  res0 = 0;
  res1 = 0;
  payload = 0xaa ∷ 0xbb ∷ replicate 62 0;
}

abbrev after_line : CodecVariant
after_line = slcan (record { buf = []; lines_total = 1; lines_decoded = 1; lines_failed = 0 })

abbrev line_decoded : Decoded
line_decoded = record { codec = after_line; frames = line_frame ∷ []; publish = λ h. h }

line_run : codec_process_rx_data (slcan new_slcan) line ≡ ok line_decoded
unfolding codec_process_rx_data process_bytes process_byte end_line count_line decode parse_type
    decode_id parse_id hex_val decode_dlc decode_data parse_data
line_run = refl

replicate-IsByte : (n : ℕ) → All IsByte (replicate n 0)
replicate-IsByte zero = tt
replicate-IsByte (suc n) = (omega arith, replicate-IsByte n)

line_frame-IsFrame : IsFrame line_frame
line_frame-IsFrame = record {
  id_fits = omega arith;
  len_fits = omega arith;
  flags_fit = omega arith;
  res0_fits = omega arith;
  res1_fits = omega arith;
  payload_size = refl;
  payload_bytes = (omega arith, (omega arith, replicate-IsByte 62));
}

line_Decodes : Decodes (slcan new_slcan) (line_read ∷ abort_read ∷ []) (line_frame ∷ []) after_line
line_Decodes =
    decoded line_read line_decoded refl line_run (line_frame-IsFrame, tt)
      (passed_over abort_read refl none_left)

abbrev slcan_driver : Driver
slcan_driver = record dual_driver { codec = slcan new_slcan; detected_protocol = 1 }

abbrev clock : ℕ → ℕ
clock n = if ltb n 1000 then 1000000 + n else 1000000

clock_fits : (n : ℕ) → clock n < 2 ^ 64
clock_fits n = ground arith

read_complete_example :
    let qs = all_queued 262144 (received ∷ []) (stamped clock 0 (line_frame ∷ [])) in
    (d' : Driver) × (h' : Header) × (read_complete_bundled granting takes_all clock 3
        (line_read ∷ abort_read ∷ [])
        slcan_driver
      ≡ ok (d', ltb 1 (length qs) && d'.has_user_client))
    × (d'.ring_header ≡ some h')
    × (d'.codec ≡ after_line)
    × HoldsPackets 0 h' qs
read_complete_example =
    read_complete_delivers granting takes_all clock 3 slcan_driver header (received ∷ []) clock_fits
      rx-IsCapacity refl header-HoldsPackets line_Decodes refl
