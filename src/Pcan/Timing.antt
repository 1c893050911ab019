-- ===== src/Pcan/Timing.antt =====
-- The bit timing for a bitrate, from the adapter's clock of 80 MHz.
use i_can.Common.{
  ℕ, zero, suc, ◌+◌, ◌-◌, ◌*◌, ◌/◌, ◌%◌, ◌||◌, not, Option, none, some, ltb, ◌==◌, if◌then◌else◌,
}
use i_can.Common.Words.{u32_mod}
use i_can.Common.Outcome.{Outcome, ok, undefined, ◌>>=◌}

abbrev pub crystal_hz : ℕ
crystal_hz = 80000000

-- The four results of calculateBitTiming.
pub record BitTiming : Type 0 where
  pub brp : ℕ
  pub tseg1 : ℕ
  pub tseg2 : ℕ
  pub sjw : ℕ

-- The tests of the two segments, and of the bitrate that they give.
unfoldable pub pick : ℕ → ℕ → ℕ → ℕ → Option BitTiming
pick bitrate brp t1 t2 =
    if ltb t1 1 || ltb 256 t1
    then none
    else if ltb t2 1 || ltb 128 t2
    then none
    else if not (crystal_hz / (brp * (1 + t1 + t2) % u32_mod) == bitrate)
    then none
    else some (record { brp = brp; tseg1 = t1; tseg2 = t2; sjw = if ltb t2 4 then t2 else 4 })

-- The segments for `tq` quanta in a bit, after the test of `tq`.
abbrev pub segments : ℕ → ℕ → ℕ → Option BitTiming
segments bitrate brp tq =
    let total : ℕ = tq - 1 in let t1 = total * 3 / 4 in pick bitrate brp t1 (total - t1)

-- The body of the loop of calculateBitTiming. The product wraps, and where it is 0 the code
-- divides by it.
unfoldable pub test_brp : ℕ → ℕ → Outcome (Option BitTiming)
test_brp bitrate brp =
    let product = bitrate * brp % u32_mod in
    let tq = crystal_hz / product in
    if product == 0
    then undefined
    else if ltb tq 3 || ltb 385 tq
    then ok none
    else ok (segments bitrate brp tq)

-- What a round leads to, with `again` for the rounds after it.
abbrev pub or_next :
    (ℕ → Outcome (Option BitTiming)) → ℕ → Option BitTiming → Outcome (Option BitTiming)
or_next again brp (some t) = ok (some t)
or_next again brp none = again (suc brp)

-- The loop from `brp` on, of which `n` rounds are left.
unfoldable pub search_brp : ℕ → ℕ → ℕ → Outcome (Option BitTiming)
search_brp zero bitrate brp = ok none
search_brp (suc n) bitrate brp = test_brp bitrate brp >>= or_next (search_brp n bitrate) brp

-- Codec::calculateBitTiming, with `none` for false.
unfoldable pub calculate_bit_timing : ℕ → Outcome (Option BitTiming)
calculate_bit_timing bitrate = if bitrate == 0 then ok none else search_brp 1024 bitrate 1
