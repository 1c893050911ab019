-- ===== src/Gsusb/Timing.antt =====
-- The bit timing for a bitrate, from the constants that a gs_usb device gives.
use i_can.Common.{
  ℕ, zero, suc, ◌+◌, ◌*◌, ◌/◌, ◌%◌, not, Option, none, some, List, ◌++◌, ltb, ◌==◌, if◌then◌else◌,
}
use i_can.Common.Words.{u32_mod, add32, sub32, le_bytes}
use i_can.Common.Outcome.{Outcome, ok, undefined, stuck, ◌>>=◌}

-- gs_device_bt_const
pub record BtConst : Type 0 where
  pub feature : ℕ
  pub fclk_can : ℕ
  pub tseg1_min : ℕ
  pub tseg1_max : ℕ
  pub tseg2_min : ℕ
  pub tseg2_max : ℕ
  pub sjw_max : ℕ
  pub brp_min : ℕ
  pub brp_max : ℕ
  pub brp_inc : ℕ

-- gs_device_bittiming, with its 20 bytes
pub record DeviceTiming : Type 0 where
  pub prop_seg : ℕ
  pub phase_seg1 : ℕ
  pub phase_seg2 : ℕ
  pub sjw : ℕ
  pub brp : ℕ

abbrev pub timing_bytes : DeviceTiming → List ℕ
timing_bytes t =
    le_bytes 4 t.prop_seg
    ++ (le_bytes 4 t.phase_seg1
        ++ (le_bytes 4 t.phase_seg2 ++ (le_bytes 4 t.sjw ++ le_bytes 4 t.brp)))

-- `tseg1`, raised to the least and cut to the greatest that the device takes
abbrev pub clamp_tseg1 : BtConst → ℕ → ℕ
clamp_tseg1 bt tseg1 =
    let raised = if ltb tseg1 bt.tseg1_min then bt.tseg1_min else tseg1 in
    if ltb bt.tseg1_max raised then bt.tseg1_max else raised

-- The tests of the second segment and of the bitrate. The product wraps, and where it is 0 the
-- code divides by it.
unfoldable pub test_segments : BtConst → ℕ → ℕ → ℕ → ℕ → Outcome (Option DeviceTiming)
test_segments bt bitrate brp tseg1 tseg2 =
    let product = brp * add32 (add32 1 tseg1) tseg2 % u32_mod in
    if ltb tseg2 bt.tseg2_min
    then ok none
    else if ltb bt.tseg2_max tseg2
    then ok none
    else if product == 0
    then undefined
    else if not (bt.fclk_can / product == bitrate)
    then ok none
    else ok
        (some (record { prop_seg = 0; phase_seg1 = tseg1; phase_seg2 = tseg2; sjw = 1; brp = brp }))

-- The segments for `tq` quanta in a bit.
abbrev pub try_quanta : BtConst → ℕ → ℕ → ℕ → Outcome (Option DeviceTiming)
try_quanta bt bitrate brp tq =
    let total = sub32 tq 1 in
    let tseg1 = clamp_tseg1 bt (total * 3 % u32_mod / 4) in
    test_segments bt bitrate brp tseg1 (sub32 total tseg1)

-- The body of the loop of setBitTiming.
unfoldable pub test_brp : BtConst → ℕ → ℕ → Outcome (Option DeviceTiming)
test_brp bt bitrate brp =
    let product = bitrate * brp % u32_mod in
    let tq = bt.fclk_can / product in
    if product == 0 then undefined else if ltb tq 3 then ok none else try_quanta bt bitrate brp tq

-- What a round leads to, with `again` for the rounds after it.
abbrev pub or_again :
    Outcome (Option DeviceTiming) → Option DeviceTiming → Outcome (Option DeviceTiming)
or_again again (some t) = ok (some t)
or_again again none = again

-- The loop from `brp` on.
unfoldable pub search_brp : ℕ → BtConst → ℕ → ℕ → Outcome (Option DeviceTiming)
search_brp zero bt bitrate brp = stuck
search_brp (suc fuel) bt bitrate brp =
    let again = search_brp fuel bt bitrate (add32 brp bt.brp_inc) in
    if ltb bt.brp_max brp then ok none else (test_brp bt bitrate brp >>= or_again again)

-- The timing that setBitTiming finds. Where each round adds one at least and no sum wraps, the loop
-- has at most as many rounds as `brp_max` says, and one to end. Other devices can make it endless.
abbrev pub find_timing : BtConst → ℕ → Outcome (Option DeviceTiming)
find_timing bt bitrate = search_brp (bt.brp_max + 2) bt bitrate bt.brp_min
