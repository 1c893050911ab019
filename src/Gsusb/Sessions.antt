-- ===== src/Gsusb/Sessions.antt =====
-- The channel of a gs_usb device from its configuration to its end.
use i_can.Common.{
  ℕ, ◌*◌, ◌^◌, ◌<◌, ◌≡◌, refl, Bool, true, false, some, [], ◌==◌, ◌⊎◌, inl, inr, Bool-cases, arith,
}
use i_can.Common.Outcome.{ok}
use i_can.Common.IoReturn.{IoReturn, success, not_ready, bad_argument, is_success}
use i_can.Gsusb.Timing.{BtConst, DeviceTiming, timing_bytes}
use i_can.Gsusb.Search.{IsBtConst, IsDeviceTiming, find_timing_lem}
use i_can.Gsusb.Codec.{reset_echo}
use i_can.Gsusb.Device.{
  UsbDevice, send_control_request, CodecState, request_host_format, request_device_config,
  request_bt_const, request_mode, bt_const_of_bytes, config_of_bytes, configure_device, send_timing,
  set_bit_timing, start_timed, open_channel, on_stop_io,
}

contradiction {ℓ} : {b : Bool} {A : Type ℓ} → b ≡ false → b ≡ true → A
contradiction e f = absurd cc

-- What openChannel did at `bitrate`.
pub record Opening (dev : UsbDevice) (c : CodecState) (bitrate : ℕ) (ret : IoReturn)
    (c' : CodecState) : Type 0 where
  pub idle : c'.echo ≡ reset_echo c.echo
  pub kept : c'.bt_const ≡ c.bt_const
  pub failed : is_success ret ≡ false → c'.channel_open ≡ c.channel_open
  pub opened :
      is_success ret ≡ true
      → (c'.channel_open ≡ true)
        × (is_success (request_mode dev 1) ≡ true)
        × ((t : DeviceTiming) × IsDeviceTiming c.bt_const bitrate t
            × (is_success (send_control_request dev 1 0 (timing_bytes t) []).0 ≡ true))

start_timed-Opening :
    (dev : UsbDevice) (c : CodecState) (bitrate : ℕ) (ret : IoReturn)
    → (is_success ret ≡ true
        → (t : DeviceTiming) × IsDeviceTiming c.bt_const bitrate t
          × (is_success (send_control_request dev 1 0 (timing_bytes t) []).0 ≡ true))
    → (let r = start_timed dev (record c { echo = reset_echo c.echo }) ret in
        Opening dev c bitrate r.0 r.1)
start_timed-Opening dev c bitrate ret timed = elim (Bool-cases (is_success ret)) [
  | inr bad ↦
      rw bad
        (record { idle = refl; kept = refl; failed = λ e. refl; opened = λ e. contradiction bad e })
  | inl good ↦ elim (Bool-cases (is_success (request_mode dev 1))) [
    | inl started ↦
        rw (good, started)
          (record {
            idle = refl;
            kept = refl;
            failed = λ e. contradiction e started;
            opened = λ e. (refl, started, timed good);
          })
    | inr refused ↦
        rw (good, refused)
          (record {
            idle = refl;
            kept = refl;
            failed = λ e. refl;
            opened = λ e. contradiction refused e;
          })
  ]
]

-- setBitTiming returns, and where it succeeds, the device has accepted a timing for the bitrate.
set_bit_timing_lem :
    (dev : UsbDevice) (bt : BtConst) (bitrate : ℕ)
    → IsBtConst bt
    → bitrate * bt.brp_max < 2 ^ 32
    → (ret : IoReturn) × (set_bit_timing dev bt bitrate ≡ ok ret)
      × (is_success ret ≡ true
          → (t : DeviceTiming) × IsDeviceTiming bt bitrate t
            × (is_success (send_control_request dev 1 0 (timing_bytes t) []).0 ≡ true))
unfolding set_bit_timing
set_bit_timing_lem dev bt bitrate v l = elim (Bool-cases (bitrate == 0)) [
  | inl zero_rate ↦ (bad_argument, rw zero_rate refl, λ e. contradiction refl e)
  | inr rate ↦ elim (Bool-cases (bt.fclk_can == 0)) [
    | inl no_clock ↦ (not_ready, rw (rate, no_clock) refl, λ e. contradiction refl e)
    | inr clock ↦ elim (find_timing_lem bt bitrate v (ground (arith, rate)) l) [
      | inl (t, found, sound) ↦
          (send_timing dev (some t), rw (rate, clock, found) refl, λ e. (t, sound, e))
      | inr (found, _) ↦ (bad_argument, rw (rate, clock, found) refl, λ e. contradiction refl e)
    ]
  ]
]

-- openChannel of the gs_usb codec, for sound constants and a bitrate whose product with the
-- greatest prescaler fits 32 bits, returns. Success means that the device accepted a timing within its
-- limits that gives exactly the bitrate, and the start of the channel, which is then open; after a
-- failure the channel is open just if it was. No echo is expected in either case.
pub open_channel-Opening_gsusb :
    (dev : UsbDevice) (c : CodecState) (bitrate : ℕ)
    → IsBtConst c.bt_const
    → bitrate * c.bt_const.brp_max < 2 ^ 32
    → (ret : IoReturn) × (c' : CodecState) × (open_channel dev c bitrate ≡ ok (ret, c'))
      × Opening dev c bitrate ret c'
unfolding open_channel
open_channel-Opening_gsusb dev c bitrate v l =
    let (ret, e, timed) = set_bit_timing_lem dev c.bt_const bitrate v l in
    let r = start_timed dev (record c { echo = reset_echo c.echo }) ret in
    (r.0, r.1, rw e refl, start_timed-Opening dev c bitrate ret timed)

-- configureDevice either fails, with the channel and the echo state as before, or succeeds, with
-- the device's constants and configuration read from its answers and the channel closed.
pub configure_device_lem :
    (dev : UsbDevice) (c : CodecState)
    → (let (ret, c') = configure_device dev c in
        ((is_success ret ≡ false)
          × (c'.channel_open ≡ c.channel_open)
          × (c'.echo ≡ c.echo)
          × (c'.features ≡ c.features))
        ⊎ ((ret ≡ success)
            × (is_success (request_host_format dev) ≡ true)
            × (c'.device_config ≡ config_of_bytes (request_device_config dev).1)
            × (c'.bt_const ≡ bt_const_of_bytes (request_bt_const dev).1)
            × (c'.features ≡ c'.bt_const.feature)
            × (c'.channel_open ≡ false)
            × (c'.echo.next_echo_id ≡ 0)))
unfolding configure_device
configure_device_lem dev c = elim (Bool-cases (is_success (request_host_format dev))) [
  | inr a ↦ inl (rw a (a, refl, refl, refl))
  | inl a ↦ elim (Bool-cases (is_success (request_device_config dev).0)) [
    | inr b ↦ inl (rw (a, b) (b, refl, refl, refl))
    | inl b ↦ elim (Bool-cases (is_success (request_bt_const dev).0)) [
      | inr d ↦ inl (rw (a, b, d) (d, refl, refl, refl))
      | inl d ↦ inr (rw (a, b, d) (refl, refl, refl, refl, refl, refl, refl))
    ]
  ]
]

-- After onStopIO the channel is closed and no echo is expected, whatever the device answers.
pub on_stop_io_lem :
    (dev : UsbDevice) (c : CodecState)
    → ((on_stop_io dev c).channel_open ≡ false)
      × ((on_stop_io dev c).echo ≡ reset_echo c.echo)
      × ((on_stop_io dev c).bt_const ≡ c.bt_const)
unfolding on_stop_io
on_stop_io_lem dev c = elim (Bool-cases c.channel_open) [
  | inl e ↦ rw e (refl, refl, refl)
  | inr e ↦ rw e (refl, refl, refl)
]
