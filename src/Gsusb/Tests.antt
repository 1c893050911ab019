-- ===== src/Gsusb/Tests.antt =====
-- The theorems on the gs_usb codec, on two frames, on a ring that holds them, and on a device.
use i_can.Common.{
  ℕ, ◌+◌, ◌*◌, ◌≡◌, ◌≤◌, ◌⊎◌, true, false, some, none, if◌then◌else◌, ◌==◌, [], replicate, arith,
}
use i_can.Common.Outcome.{ok}
use i_can.Common.IoReturn.{IoReturn, success}
use i_can.Codec.{SendFn, DrainResult}
use i_can.Gsusb.{
  EchoState, received, tx_echo, decode_rx_transfer, encode_tx_frame, drain_tx, process_rx_data,
  check_stall, BtConst, DeviceTiming, find_timing, test_brp, UsbDevice, CodecState, config_of_bytes,
  open_channel,
}
use i_can.Gsusb.Search.{IsBtConst, IsDeviceTiming, find_timing_lem}
use i_can.Gsusb.Sessions.{Opening, open_channel-Opening_gsusb}
use i_can.Gsusb.RoundTrip.{kept, decode_rx_transfer-encode_tx_frame}
use i_can.Gsusb.Echo.{
  SentOne, drain_tx_sends_one, Reached, opened, drained, processed, ticked, Reached-le,
}
use i_can.Samples.{
  classic, flexible, flexible-IsFrame, header, header-HoldsFrames, tx-IsCapacity, waiting1,
}

decode_rx_transfer-encode_tx_frame_example :
    decode_rx_transfer (encode_tx_frame flexible 5 76)
    ≡ (if 5 == 0xffffffff then received (kept flexible) else tx_echo)
decode_rx_transfer-encode_tx_frame_example =
    decode_rx_transfer-encode_tx_frame flexible 5 flexible-IsFrame (omega arith) (omega arith)

abbrev willing : SendFn
willing bytes = success

abbrev state : EchoState
state = record { echo_inflight = 0; echo_stall_start = 0; next_echo_id = 0; needs_drain_tx = false }

drain_tx_sends_one_example :
    (r : DrainResult) × (c' : EchoState) × (drain_tx willing header state false ≡ ok (r, c'))
    × SentOne willing header state classic waiting1 r c'
drain_tx_sends_one_example =
    drain_tx_sends_one willing header tx-IsCapacity state classic waiting1 (omega arith)
      header-HoldsFrames

-- One frame is sent, an empty transfer comes, and the timer fires.
one_sent :
    (r : DrainResult) × (c' : EchoState) × (drain_tx willing header state false ≡ ok (r, c'))
    × SentOne willing header state classic waiting1 r c'
one_sent =
    drain_tx_sends_one willing header tx-IsCapacity state classic waiting1 (omega arith)
      header-HoldsFrames

one_sent-Reached : Reached one_sent.1
one_sent-Reached =
    drained willing header state false one_sent.0 one_sent.1 (opened state) one_sent.2

Reached-le_example : (check_stall 1000 (process_rx_data one_sent.1 []).0).1.echo_inflight ≤ 10
Reached-le_example =
    Reached-le
      (ticked (process_rx_data one_sent.1 []).0 1000 (processed one_sent.1 [] one_sent-Reached))

-- A device with a clock of 8 MHz that takes every request and answers with zeros.
abbrev constants : BtConst
constants = record {
  feature = 0;
  fclk_can = 8000000;
  tseg1_min = 1;
  tseg1_max = 16;
  tseg2_min = 1;
  tseg2_max = 8;
  sjw_max = 4;
  brp_min = 1;
  brp_max = 8;
  brp_inc = 1;
}

constants-IsBtConst : IsBtConst constants
constants-IsBtConst = record {
  clock_fits = omega arith;
  brp_min_pos = omega arith;
  brp_inc_pos = omega arith;
  brp_fits = omega arith;
  tseg1_range = omega arith;
  tseg_fits = omega arith;
}

abbrev device : UsbDevice
device = record {
  present = true;
  create = λ length. true;
  device_request = λ kind breq value length bytes. (success, replicate length 0);
}

abbrev codec : CodecState
codec = record {
  bt_const = constants;
  device_config = config_of_bytes [];
  features = 0;
  channel_open = false;
  echo = state;
}

abbrev rate : ℕ
rate = 500000

find_timing_lem_example :
    ((t : DeviceTiming) × (find_timing constants rate ≡ ok (some t))
      × IsDeviceTiming constants rate t)
    ⊎ ((find_timing constants rate ≡ ok none)
        × ((k : ℕ) → 1 + k * 1 ≤ 8 → test_brp constants rate (1 + k * 1) ≡ ok none))
find_timing_lem_example =
    find_timing_lem constants rate constants-IsBtConst (omega arith) (omega arith)

open_channel-Opening_gsusb_example :
    (ret : IoReturn) × (c' : CodecState) × (open_channel device codec rate ≡ ok (ret, c'))
    × Opening device codec rate ret c'
open_channel-Opening_gsusb_example =
    open_channel-Opening_gsusb device codec rate constants-IsBtConst (omega arith)
