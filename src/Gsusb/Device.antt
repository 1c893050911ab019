-- ===== src/Gsusb/Device.antt =====
-- gsusb::Codec: control requests, the configuration of the device, and its channel.
use i_can.Common.{
  ℕ, ◌*◌, Bool, true, false, not, ◌&&◌, Option, none, some, List, [], ◌++◌, ltb, if◌then◌else◌,
  length, take, drop, replicate,
}
use i_can.Common.Words.{le_bytes, of_le_bytes}
use i_can.Common.Outcome.{Outcome, ok, ◌>>=◌}
use i_can.Common.IoReturn.{IoReturn, success, not_ready, bad_argument, no_memory, is_success}
use i_can.Common.{◌==◌, get_or}
use i_can.Gsusb.Timing.{BtConst, DeviceTiming, timing_bytes, find_timing}
use i_can.Gsusb.Codec.{EchoState, reset_echo}

-- The device, as calls of the system: whether there is one, whether a buffer of some length can be
-- made, and the answer to a request of a type, number, value, length and data, with the bytes that
-- came back. No operation makes the same request twice.
pub record UsbDevice : Type 0 where
  pub present : Bool
  pub create : ℕ → Bool
  pub device_request : ℕ → ℕ → ℕ → ℕ → List ℕ → IoReturn × List ℕ

-- Codec::sendControlRequest: the result, and what is then in `recvData`.
unfoldable pub send_control_request : UsbDevice → ℕ → ℕ → List ℕ → List ℕ → IoReturn × List ℕ
send_control_request dev breq value send_data recv_data =
    let is_out = ltb 0 (length send_data) in
    let w_length = if is_out then length send_data else length recv_data in
    let kind = if is_out then 0x41 else 0xc1 in
    let (ret, bytes) = dev.device_request kind breq value w_length send_data in
    let copy_len =
      if ltb (length bytes) (length recv_data) then length bytes else length recv_data in
    if not dev.present
    then (not_ready, recv_data)
    else if ltb 0 w_length && not (dev.create w_length)
    then (no_memory, recv_data)
    else if is_success ret && not is_out
    then (ret, take copy_len bytes ++ drop copy_len recv_data)
    else (ret, recv_data)

-- gs_device_config, without its reserved bytes
pub record DeviceConfig : Type 0 where
  pub icount : ℕ
  pub sw_version : ℕ
  pub hw_version : ℕ

abbrev word : List ℕ → ℕ → ℕ
word bytes i = of_le_bytes (take 4 (drop (4 * i) bytes))

abbrev pub config_of_bytes : List ℕ → DeviceConfig
config_of_bytes bytes = record {
  icount = get_or bytes 3 0;
  sw_version = word bytes 1;
  hw_version = word bytes 2;
}

abbrev pub bt_const_of_bytes : List ℕ → BtConst
bt_const_of_bytes bytes = record {
  feature = word bytes 0;
  fclk_can = word bytes 1;
  tseg1_min = word bytes 2;
  tseg1_max = word bytes 3;
  tseg2_min = word bytes 4;
  tseg2_max = word bytes 5;
  sjw_max = word bytes 6;
  brp_min = word bytes 7;
  brp_max = word bytes 8;
  brp_inc = word bytes 9;
}

-- The state of the codec.
pub record CodecState : Type 0 where
  pub bt_const : BtConst
  pub device_config : DeviceConfig
  pub features : ℕ
  pub channel_open : Bool
  pub echo : EchoState

-- The three requests of configureDevice, and a mode of the channel.
abbrev pub request_host_format : UsbDevice → IoReturn
request_host_format dev = (send_control_request dev 0 1 (le_bytes 4 0xbeef) []).0

abbrev pub request_device_config : UsbDevice → IoReturn × List ℕ
request_device_config dev = send_control_request dev 5 1 [] (replicate 12 0)

abbrev pub request_bt_const : UsbDevice → IoReturn × List ℕ
request_bt_const dev = send_control_request dev 4 0 [] (replicate 40 0)

abbrev pub request_mode : UsbDevice → ℕ → IoReturn
request_mode dev mode = (send_control_request dev 2 0 (le_bytes 4 mode ++ le_bytes 4 0) []).0

-- configureDevice from the third request on.
abbrev configure_timing : UsbDevice → CodecState → IoReturn × CodecState
configure_timing dev c =
    let (ret, bytes) = request_bt_const dev in
    let bt = bt_const_of_bytes bytes in
    if not (is_success ret) then (ret, record c { bt_const = bt }) else (
      success,
      record c {
        bt_const = bt;
        features = bt.feature;
        channel_open = false;
        echo = record c.echo { next_echo_id = 0 };
      },
    )

-- Codec::configureDevice
unfoldable pub configure_device : UsbDevice → CodecState → IoReturn × CodecState
configure_device dev c =
    let (ret, bytes) = request_device_config dev in
    let configured = record c { device_config = config_of_bytes bytes } in
    if not (is_success (request_host_format dev))
    then (request_host_format dev, c)
    else if not (is_success ret)
    then (ret, configured)
    else configure_timing dev configured

-- Codec::setBitTiming after the search
abbrev pub send_timing : UsbDevice → Option DeviceTiming → IoReturn
send_timing dev none = bad_argument
send_timing dev (some t) = (send_control_request dev 1 0 (timing_bytes t) []).0

-- Codec::setBitTiming
unfoldable pub set_bit_timing : UsbDevice → BtConst → ℕ → Outcome IoReturn
set_bit_timing dev bt bitrate =
    let found = find_timing bt bitrate in
    if bitrate == 0
    then ok bad_argument
    else if bt.fclk_can == 0
    then ok not_ready
    else (found >>= λ t. ok (send_timing dev t))

-- Codec::startChannel and stopChannel
abbrev pub start_channel : UsbDevice → CodecState → IoReturn × CodecState
start_channel dev c =
    let ret = request_mode dev 1 in
    (ret, if is_success ret then record c { channel_open = true } else c)

abbrev pub stop_channel : UsbDevice → CodecState → IoReturn × CodecState
stop_channel dev c = (request_mode dev 0, record c { channel_open = false })

-- openChannel after the bit timing is set
abbrev pub start_timed : UsbDevice → CodecState → IoReturn → IoReturn × CodecState
start_timed dev c ret = if is_success ret then start_channel dev c else (ret, c)

-- Codec::openChannel, closeChannel and onStopIO
unfoldable pub open_channel : UsbDevice → CodecState → ℕ → Outcome (IoReturn × CodecState)
open_channel dev c bitrate =
    let idle = record c { echo = reset_echo c.echo } in
    set_bit_timing dev c.bt_const bitrate >>= λ ret. ok (start_timed dev idle ret)

abbrev pub close_channel : UsbDevice → CodecState → IoReturn × CodecState
close_channel dev c = stop_channel dev c

unfoldable pub on_stop_io : UsbDevice → CodecState → CodecState
on_stop_io dev c =
    let stopped = if c.channel_open then (stop_channel dev c).1 else c in
    record stopped { echo = reset_echo stopped.echo }
