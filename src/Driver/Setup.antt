-- ===== src/Driver/Setup.antt =====
-- detectProtocol and ConfigureDevice.
use i_can.Common.{ℕ, true, false, not, ◌&&◌, Option, none, some, List, [], ◌∷◌, ◌==◌, if◌then◌else◌}
use i_can.Common.IoReturn.{IoReturn, success, not_ready, no_memory, is_success}
use i_can.Ring.{Header}
use i_can.Slcan.Lines.{LineAccumulator}
use i_can.Gsusb.Timing.{BtConst}
use i_can.Gsusb.Device.{UsbDevice, CodecState, configure_device}
use i_can.Gsusb.Codec.{EchoState}
use i_can.Pcan.Codec.{Channels}
use i_can.Pcan.Stream.{RxCounts}
use i_can.Driver.State.{
  Driver, CodecVariant, slcan, gsusb, pcan, protocol_slcan, protocol_gsusb, protocol_pcan,
}
use i_can.Driver.Pipes.{Interfaces, find_interfaces, configure_pipes}

-- USBAdapterInfo and kKnownAdapters
pub record UsbAdapterInfo : Type 0 where
  pub vid : ℕ
  pub pid : ℕ
  pub protocol : ℕ

abbrev pub known_adapters : List UsbAdapterInfo
known_adapters =
    record { vid = 0x16d0; pid = 0x117e; protocol = protocol_slcan }
    ∷ record { vid = 0x1d50; pid = 0x606f; protocol = protocol_gsusb }
    ∷ record { vid = 0x0c72; pid = 0x0011; protocol = protocol_pcan }
    ∷ []

unfoldable pub detect_among : List UsbAdapterInfo → ℕ → ℕ → ℕ
detect_among [] vid pid = protocol_slcan
detect_among (a ∷ rest) vid pid =
    if (a.vid == vid) && (a.pid == pid) then a.protocol else detect_among rest vid pid

-- detectProtocol
unfoldable pub detect_protocol : ℕ → ℕ → ℕ
unfolding detect_among
detect_protocol vid pid = detect_among known_adapters vid pid

-- The codecs as they are emplaced.
abbrev pub new_slcan : LineAccumulator
new_slcan = record { buf = []; lines_total = 0; lines_decoded = 0; lines_failed = 0 }

abbrev pub new_bt_const : BtConst
new_bt_const = record {
  feature = 0;
  fclk_can = 0;
  tseg1_min = 0;
  tseg1_max = 0;
  tseg2_min = 0;
  tseg2_max = 0;
  sjw_max = 0;
  brp_min = 0;
  brp_max = 0;
  brp_inc = 0;
}

abbrev pub new_echo : EchoState
new_echo = record {
  echo_inflight = 0;
  echo_stall_start = 0;
  next_echo_id = 0;
  needs_drain_tx = false;
}

abbrev pub new_gsusb : CodecState
new_gsusb = record {
  bt_const = new_bt_const;
  device_config = record { icount = 0; sw_version = 0; hw_version = 0 };
  features = 0;
  channel_open = false;
  echo = new_echo;
}

abbrev pub new_channels : Channels
new_channels = record {
  channel_count = 2;
  channel_open = false ∷ false ∷ [];
  channel_bitrate = 0 ∷ 0 ∷ [];
}

abbrev pub new_counts : RxCounts
new_counts = record {
  echo = 0;
  overrun = 0;
  calibration = 0;
  error = 0;
  status = 0;
  truncated = 0;
  zero_sentinel = 0;
  transfer = 0;
}

-- The switch of ConfigureDevice over the protocol.
unfoldable pub new_codec : ℕ → CodecVariant
new_codec protocol =
    if protocol == protocol_gsusb
    then gsusb new_gsusb
    else if protocol == protocol_pcan
    then pcan new_channels new_counts
    else slcan new_slcan

-- configureDevice of the three codecs. That of PCAN reads the firmware's version and the serial
-- number, which are only shown, and that of SLCAN goes on if a request fails; `create_fw` is the
-- answer to the creation of the buffer for the version.
unfoldable pub configure_codec : UsbDevice → IoReturn → CodecVariant → IoReturn × CodecVariant
configure_codec dev create_fw (slcan a) =
    (if not dev.present then not_ready else if dev.create 7 then success else no_memory, slcan a)
configure_codec dev create_fw (gsusb c) =
    let (ret, configured) = configure_device dev c in (ret, gsusb configured)
configure_codec dev create_fw (pcan c n) =
    if not dev.present
    then (not_ready, pcan c n)
    else if not (is_success create_fw)
    then (create_fw, pcan c n)
    else (success, pcan (record c { channel_count = 2 }) n)

-- The system calls of ConfigureDevice: Open of the device, its ids, which are 0 if they cannot be
-- read, its interfaces, the creation of the TX buffer, and the control requests of the codecs.
pub record SetupCalls : Type 0 where
  pub open_device : IoReturn
  pub vid : ℕ
  pub pid : ℕ
  pub interfaces : Interfaces
  pub create_tx_buffer : IoReturn
  pub create_fw : IoReturn
  pub usb_device : UsbDevice

-- The header with the detected protocol.
abbrev pub announce : ℕ → Option Header → Option Header
announce protocol none = none
announce protocol (some h) = some (record h {
  protocol_id = protocol;
  channel_count = if protocol == protocol_pcan then 2 else 1;
})

-- The driver with the detected protocol.
abbrev pub detected : SetupCalls → Driver → Driver
detected sys d =
    let protocol = detect_protocol sys.vid sys.pid in
    record d {
      device_opened = if is_success sys.open_device then true else d.device_opened;
      detected_protocol = protocol;
      codec = new_codec protocol;
      ring_header = announce protocol d.ring_header;
    }

-- A step of ConfigureDevice failed: the device is closed, if it is open.
abbrev pub give_up : IoReturn → Driver → IoReturn × Driver
give_up ret d = (ret, record d { device_opened = false })

-- ConfigureDevice from the creation of the TX buffer on. A codec that fails is no failure.
unfoldable pub configure_buffer : SetupCalls → Driver → IoReturn × Driver
configure_buffer sys d =
    let dev = record sys.usb_device { present = d.device_opened } in
    if not (is_success sys.create_tx_buffer) then give_up sys.create_tx_buffer d else (
      success,
      record d {
        has_tx_buffer = true;
        codec = (configure_codec dev sys.create_fw d.codec).1;
        is_configured = true;
      },
    )

-- ConfigureDevice after FindInterfaces, and after ConfigurePipes.
unfoldable pub after_pipes : SetupCalls → IoReturn × Driver → IoReturn × Driver
unfolding configure_buffer
after_pipes sys (ret, d) = if is_success ret then configure_buffer sys d else give_up ret d

unfoldable pub after_interfaces : SetupCalls → IoReturn × Driver → IoReturn × Driver
unfolding after_pipes
after_interfaces sys (ret, d) =
    if is_success ret then after_pipes sys (configure_pipes sys.interfaces d) else give_up ret d

-- USBCANDriver::ConfigureDevice
unfoldable pub configure_device_of : SetupCalls → Driver → IoReturn × Driver
unfolding after_interfaces
configure_device_of sys d =
    if d.is_configured
    then (success, d)
    else if not d.matched_on_interface && not (is_success sys.open_device)
    then (sys.open_device, d)
    else after_interfaces sys (find_interfaces sys.interfaces (detected sys d))
