-- ===== src/Gsusb/Search.antt =====
-- What setBitTiming finds.
use i_can.Common.{
  ℕ, zero, suc, ◌+◌, ◌*◌, ◌/◌, ◌%◌, ◌^◌, ◌≤◌, ◌<◌, ◌≡◌, ◌⊎◌, inl, inr, refl, ap, ◌∙◌, false, not,
  Option, none, some, ltb, ◌==◌, arith, Bool-cases,
}
use i_can.Common.Words.{u32_mod, add32, sub32}
use i_can.Common.Outcome.{Outcome, ok, undefined, stuck, ◌>>=◌}
use native.Mathlib.Nat.{mul-le-mul, mod-eq_of_lt, mul-pos, mul-le-mul_left, div-le_self}
use native.Mathlib.Omega.{div_any}
use i_can.Gsusb.Timing.{
  BtConst, DeviceTiming, clamp_tseg1, test_segments, test_brp, or_again, search_brp, find_timing,
}

-- Constants with which the loop of setBitTiming ends and no sum in it wraps.
pub record IsBtConst (bt : BtConst) : Type 0 where
  pub clock_fits : bt.fclk_can < 2 ^ 32
  pub brp_min_pos : 1 ≤ bt.brp_min
  pub brp_inc_pos : 1 ≤ bt.brp_inc
  pub brp_fits : bt.brp_max + bt.brp_inc < 2 ^ 32
  pub tseg1_range : bt.tseg1_min ≤ bt.tseg1_max
  pub tseg_fits : 1 + bt.tseg1_max + bt.tseg2_max < 2 ^ 32

-- A timing within the limits of the device that gives the bitrate.
pub record IsDeviceTiming (bt : BtConst) (bitrate : ℕ) (t : DeviceTiming) : Type 0 where
  pub brp_pos : 1 ≤ t.brp
  pub brp_le : t.brp ≤ bt.brp_max
  pub seg1_ge : bt.tseg1_min ≤ t.phase_seg1
  pub seg1_le : t.phase_seg1 ≤ bt.tseg1_max
  pub seg2_ge : bt.tseg2_min ≤ t.phase_seg2
  pub seg2_le : t.phase_seg2 ≤ bt.tseg2_max
  pub sample : t.sjw ≡ 1
  pub exact : bt.fclk_can / (t.brp * (1 + t.phase_seg1 + t.phase_seg2)) ≡ bitrate

clamp_tseg1_lem :
    (bt : BtConst) (t : ℕ)
    → bt.tseg1_min ≤ bt.tseg1_max
    → (bt.tseg1_min ≤ clamp_tseg1 bt t) × (clamp_tseg1 bt t ≤ bt.tseg1_max)
clamp_tseg1_lem bt t l = (ground arith, ground arith)

-- Two segments that make up `tq` quanta.
quanta_lem :
    (tq t1 t2 : ℕ)
    → 3 ≤ tq
    → tq < 2 ^ 32
    → 1 + t1 + t2 < 2 ^ 32
    → t2 ≡ sub32 (sub32 tq 1) t1
    → (1 + t1 + t2 ≡ tq) × (add32 (add32 1 t1) t2 ≡ tq)
quanta_lem tq t1 t2 a b c e = (omega (arith, e), omega (arith, e))

-- With `tq` quanta of `product` ticks each, `brp * tq` does not wrap.
brp_quanta :
    (clock bitrate brp : ℕ)
    → 1 ≤ bitrate
    → clock < 2 ^ 32
    → brp * (clock / (bitrate * brp)) < 2 ^ 32
brp_quanta clock bitrate brp r c =
    let product = bitrate * brp in
    let below : brp ≤ product =
      omega (arith, mul-le-mul {n₁ = 1} {m₁ = brp} {n₂ = bitrate} {m₂ = brp} r (omega arith)) in
    omega (
      arith,
      div_any clock product,
      mul-le-mul {n₁ = brp} {m₁ = clock / product} {n₂ = product} {m₂ = clock / product} below
          (omega arith),
    )

is_equal : (a b : ℕ) → not (a == b) ≡ false → a ≡ b
is_equal a b e = ground (arith, e)

is_nonzero : (m : ℕ) → 1 ≤ m → (m == 0) ≡ false
is_nonzero m l = ground (arith, l)

-- What a round comes to: nothing, or a timing.
abbrev Tried : BtConst → ℕ → Outcome (Option DeviceTiming) → Type 0
Tried bt bitrate undefined = ⊥
Tried bt bitrate stuck = ⊥
Tried bt bitrate (ok none) = Unit
Tried bt bitrate (ok (some t)) = IsDeviceTiming bt bitrate t

module _ (bt : BtConst) (v : IsBtConst bt) (bitrate : ℕ) (r : 1 ≤ bitrate) where
  test_segments-Tried :
      (brp tq t1 t2 : ℕ)
      → 1 ≤ brp
      → brp ≤ bt.brp_max
      → 3 ≤ tq
      → tq < 2 ^ 32
      → brp * tq < 2 ^ 32
      → bt.tseg1_min ≤ t1
      → t1 ≤ bt.tseg1_max
      → t2 ≡ sub32 (sub32 tq 1) t1
      → Tried bt bitrate (test_segments bt bitrate brp t1 t2)
  unfolding test_segments
  test_segments-Tried brp tq t1 t2 p q a b c d e f = elim (Bool-cases (ltb t2 bt.tseg2_min)) [
    | inl low ↦ rw low tt
    | inr low ↦ elim (Bool-cases (ltb bt.tseg2_max t2)) [
      | inl high ↦ rw (low, high) tt
      | inr high ↦
          let seg2_le : t2 ≤ bt.tseg2_max = ground (arith, high) in
          let (sum, wrapped) = quanta_lem tq t1 t2 a b (omega (arith, v.tseg_fits, e, seg2_le)) f in
          let product : brp * add32 (add32 1 t1) t2 % u32_mod ≡ brp * tq =
            ap (λ n. brp * n % u32_mod) wrapped ∙ mod-eq_of_lt c in
          let pos : 1 ≤ brp * tq = mul-pos p (omega (arith, a)) in
          rw (low, high, product, is_nonzero (brp * tq) pos)
            (elim (Bool-cases (not (bt.fclk_can / (brp * tq) == bitrate))) [
              | inl g ↦ rw g tt
              | inr g ↦ rw g (record {
                brp_pos = p;
                brp_le = q;
                seg1_ge = d;
                seg1_le = e;
                seg2_ge = ground (arith, low);
                seg2_le = seg2_le;
                sample = refl;
                exact = ap (λ n. bt.fclk_can / (brp * n)) sum ∙ is_equal _ bitrate g;
              })
            ])
    ]
  ]

  test_brp-Tried :
      (brp : ℕ)
      → 1 ≤ brp
      → brp ≤ bt.brp_max
      → bitrate * brp < 2 ^ 32
      → Tried bt bitrate (test_brp bt bitrate brp)
  unfolding test_brp
  test_brp-Tried brp p q l =
      let product : bitrate * brp % u32_mod ≡ bitrate * brp = mod-eq_of_lt l in
      let tq = bt.fclk_can / (bitrate * brp) in
      rw (product, is_nonzero (bitrate * brp) (mul-pos r p))
        (elim (Bool-cases (ltb tq 3)) [
          | inl e ↦ rw e tt
          | inr e ↦
              let seg1 = sub32 tq 1 * 3 % u32_mod / 4 in
              let (low, high) = clamp_tseg1_lem bt seg1 v.tseg1_range in
              let small : tq < 2 ^ 32 = div_any_lt bt.fclk_can (bitrate * brp) v.clock_fits in
              rw e (
                test_segments-Tried brp tq (clamp_tseg1 bt seg1) _ p q (ground (arith, e)) small
                  (brp_quanta bt.fclk_can bitrate brp r v.clock_fits) low high refl)
        ])
    where
      div_any_lt : (a b : ℕ) → a < 2 ^ 32 → a / b < 2 ^ 32
      div_any_lt a b l = omega (arith, div-le_self a b)

  -- The prescalers that the loop tries after `brp` all give nothing.
  abbrev NoneFrom : ℕ → Type 0
  NoneFrom brp =
      (k : ℕ)
      → brp + k * bt.brp_inc ≤ bt.brp_max
      → test_brp bt bitrate (brp + k * bt.brp_inc) ≡ ok none

  abbrev Searched : ℕ → Outcome (Option DeviceTiming) → Type 0
  Searched brp undefined = ⊥
  Searched brp stuck = ⊥
  Searched brp (ok none) = NoneFrom brp
  Searched brp (ok (some t)) = IsDeviceTiming bt bitrate t

  extend :
      (brp : ℕ) (o : Outcome (Option DeviceTiming))
      → test_brp bt bitrate brp ≡ ok none
      → Searched (brp + bt.brp_inc) o
      → Searched brp o
  extend brp undefined e f = f
  extend brp stuck e f = f
  extend brp (ok (some t)) e f = f
  extend brp (ok none) e f = below
    where
      below : NoneFrom brp
      below zero l =
          let at : brp + 0 * bt.brp_inc ≡ brp = omega arith in ap (test_brp bt bitrate) at ∙ e
      below (suc k) l =
          let at : brp + suc k * bt.brp_inc ≡ brp + bt.brp_inc + k * bt.brp_inc = omega arith in
          ap (test_brp bt bitrate) at ∙ f k (omega (arith, at, l))

  after_round :
      (brp : ℕ) (again o : Outcome (Option DeviceTiming))
      → test_brp bt bitrate brp ≡ o
      → Tried bt bitrate o
      → Searched (brp + bt.brp_inc) again
      → Searched brp (o >>= or_again again)
  after_round brp again undefined e t f = absurd t
  after_round brp again stuck e t f = absurd t
  after_round brp again (ok (some t)) e d f = d
  after_round brp again (ok none) e t f = extend brp again e f

  search_brp_lem :
      (fuel brp : ℕ)
      → 1 ≤ brp
      → 1 ≤ fuel
      → bt.brp_max + 2 ≤ brp + fuel
      → bitrate * bt.brp_max < 2 ^ 32
      → Searched brp (search_brp fuel bt bitrate brp)
  unfolding search_brp
  search_brp_lem zero brp p n q l = absurd (omega arith)
  search_brp_lem (suc fuel) brp p n q l = elim (Bool-cases (ltb bt.brp_max brp)) [
    | inl e ↦ rw e (λ k m. absurd (ground (arith, e, m)))
    | inr e ↦
        let le : brp ≤ bt.brp_max = ground (arith, e) in
        let next : add32 brp bt.brp_inc ≡ brp + bt.brp_inc =
          mod-eq_of_lt (omega (arith, v.brp_fits, le)) in
        rw (e, next)
          (after_round brp (search_brp fuel bt bitrate (brp + bt.brp_inc)) (test_brp bt bitrate brp)
            refl (test_brp-Tried brp p le (omega (arith, l, mul-le-mul_left bitrate le)))
            (search_brp_lem fuel (brp + bt.brp_inc) (omega arith) (omega (arith, le))
              (omega (arith, v.brp_inc_pos)) l))
  ]

-- For a device whose constants are sound and a bitrate above 0 whose product with the greatest
-- prescaler fits 32 bits, the loop of setBitTiming ends and never divides by zero. It finds a
-- timing within all limits of the device that gives exactly this bitrate, or none of the
-- prescalers that the device takes passes the tests.
pub find_timing_lem :
    (bt : BtConst) (bitrate : ℕ)
    → IsBtConst bt
    → 1 ≤ bitrate
    → bitrate * bt.brp_max < 2 ^ 32
    → ((t : DeviceTiming) × (find_timing bt bitrate ≡ ok (some t)) × IsDeviceTiming bt bitrate t)
      ⊎ ((find_timing bt bitrate ≡ ok none)
          × ((k : ℕ)
              → bt.brp_min + k * bt.brp_inc ≤ bt.brp_max
              → test_brp bt bitrate (bt.brp_min + k * bt.brp_inc) ≡ ok none))
find_timing_lem bt bitrate v r l = cases (find_timing bt bitrate) (
    search_brp_lem bt v bitrate r (bt.brp_max + 2) bt.brp_min v.brp_min_pos (omega arith)
      (omega arith) l)
  where
    cases :
        (o : Outcome (Option DeviceTiming))
        → Searched bt v bitrate r bt.brp_min o
        → ((t : DeviceTiming) × (o ≡ ok (some t)) × IsDeviceTiming bt bitrate t)
          ⊎ ((o ≡ ok none)
              × ((k : ℕ)
                  → bt.brp_min + k * bt.brp_inc ≤ bt.brp_max
                  → test_brp bt bitrate (bt.brp_min + k * bt.brp_inc) ≡ ok none))
    cases undefined f = absurd f
    cases stuck f = absurd f
    cases (ok (some t)) f = inl (t, refl, f)
    cases (ok none) f = inr (refl, f)
