-- ===== src/Pcan/Search.antt =====
-- What calculateBitTiming finds.
use i_can.Common.{
  ℕ, zero, suc, ◌+◌, ◌-◌, ◌*◌, ◌/◌, ◌%◌, ◌^◌, ◌≤◌, ◌<◌, ◌≡◌, ◌⊎◌, inl, inr, refl, sym, ap, subst,
  ◌∙◌, false, not, ◌||◌, Option, none, some, ◌∷◌, ◌++◌, ltb, ◌==◌, if◌then◌else◌, arith, Bool-cases,
}
use i_can.Common.Words.{u32_mod, le_bytes, sub32}
use i_can.Common.Outcome.{Outcome, ok, undefined, stuck}
use native.Mathlib.Nat.{mul-le-mul, mod-eq_of_lt, mul-pos, mul-le-mul_left}
use i_can.Pcan.Timing.{BitTiming, pick, test_brp, search_brp, calculate_bit_timing}
use i_can.Pcan.Codec.{timing_command, opcode_channel}

-- A timing that the registers of the adapter hold and that gives the bitrate.
pub record IsTiming (bitrate : ℕ) (t : BitTiming) : Type 0 where
  pub brp_pos : 1 ≤ t.brp
  pub brp_le : t.brp ≤ 1024
  pub tseg1_pos : 1 ≤ t.tseg1
  pub tseg1_le : t.tseg1 ≤ 256
  pub tseg2_pos : 1 ≤ t.tseg2
  pub tseg2_le : t.tseg2 ≤ 128
  pub sjw_pos : 1 ≤ t.sjw
  pub sjw_le : t.sjw ≤ 4
  pub sjw_le_tseg2 : t.sjw ≤ t.tseg2
  pub exact : 80000000 / (t.brp * (1 + t.tseg1 + t.tseg2)) ≡ bitrate

product_lt : (brp s : ℕ) → brp ≤ 1024 → s ≤ 385 → brp * s < 2 ^ 32
product_lt brp s p q = omega (arith, mul-le-mul p q)

picked :
    (bitrate brp t1 t2 : ℕ)
    → 1 ≤ brp
    → brp ≤ 1024
    → (pick bitrate brp t1 t2 ≡ none)
      ⊎ ((t : BitTiming) × (pick bitrate brp t1 t2 ≡ some t) × IsTiming bitrate t)
unfolding pick
picked bitrate brp t1 t2 p q = elim (Bool-cases (ltb t1 1 || ltb 256 t1)) [
  | inl e ↦ inl (rw e refl)
  | inr e ↦ elim (Bool-cases (ltb t2 1 || ltb 128 t2)) [
    | inl f ↦ inl (rw (e, f) refl)
    | inr f ↦ elim (Bool-cases (not (80000000 / (brp * (1 + t1 + t2) % u32_mod) == bitrate))) [
      | inl g ↦ inl (rw (e, f, g) refl)
      | inr g ↦
          let (a, b) = in_range t1 256 e in
          let (c, d) = in_range t2 128 f in
          inr (
            record { brp = brp; tseg1 = t1; tseg2 = t2; sjw = if ltb t2 4 then t2 else 4 },
            rw (e, f, g) refl,
            record {
              brp_pos = p;
              brp_le = q;
              tseg1_pos = a;
              tseg1_le = b;
              tseg2_pos = c;
              tseg2_le = d;
              sjw_pos = ground arith;
              sjw_le = ground arith;
              sjw_le_tseg2 = ground arith;
              exact =
                  ap (λ n. 80000000 / n)
                    (sym (mod-eq_of_lt (product_lt brp (1 + t1 + t2) q (omega arith))))
                  ∙ is_equal _ bitrate g;
            },
          )
    ]
  ]
]
  where
    in_range : (t m : ℕ) → (ltb t 1 || ltb m t) ≡ false → (1 ≤ t) × (t ≤ m)
    in_range t m e = (ground (arith, e), ground (arith, e))

    is_equal : (a b : ℕ) → not (a == b) ≡ false → a ≡ b
    is_equal a b e = ground (arith, e)

-- What a search of `n` rounds from `brp` on comes to.
abbrev Found : ℕ → ℕ → ℕ → Outcome (Option BitTiming) → Type 0
Found bitrate brp n undefined = ⊥
Found bitrate brp n stuck = ⊥
Found bitrate brp n (ok none) = (k : ℕ) → brp ≤ k → k < brp + n → test_brp bitrate k ≡ ok none
Found bitrate brp n (ok (some t)) = IsTiming bitrate t

le_nonzero : (m : ℕ) → 0 < m → m < 2 ^ 32 → (m % u32_mod == 0) ≡ false
le_nonzero m p q = ground arith

test_brp_lem :
    (bitrate brp : ℕ)
    → 1 ≤ bitrate
    → bitrate * 1024 < 2 ^ 32
    → 1 ≤ brp
    → brp ≤ 1024
    → (test_brp bitrate brp ≡ ok none)
      ⊎ ((t : BitTiming) × (test_brp bitrate brp ≡ ok (some t)) × IsTiming bitrate t)
unfolding test_brp
test_brp_lem bitrate brp r s p q =
    let nonzero : (bitrate * brp % u32_mod == 0) ≡ false =
      le_nonzero (bitrate * brp) (mul-pos r p) (omega (arith, mul-le-mul_left bitrate q)) in
    elim (Bool-cases (
      ltb (80000000 / (bitrate * brp % u32_mod)) 3
      || ltb 385 (80000000 / (bitrate * brp % u32_mod)))) [
        | inl e ↦ inl (rw (nonzero, e) refl)
        | inr e ↦ elim (picked bitrate brp _ _ p q) [
          | inl f ↦ inl (rw (nonzero, e) (ap ok f))
          | inr (t, f, v) ↦ inr (t, rw (nonzero, e) (ap ok f), v)
        ]
      ]

search_brp_lem :
    (n bitrate brp : ℕ)
    → 1 ≤ bitrate
    → bitrate * 1024 < 2 ^ 32
    → 1 ≤ brp
    → brp + n ≤ 1025
    → Found bitrate brp n (search_brp n bitrate brp)
unfolding search_brp
search_brp_lem zero bitrate brp r s p q = λ k a b. absurd (omega arith)
search_brp_lem (suc n) bitrate brp r s p q = elim (test_brp_lem bitrate brp r s p (omega arith)) [
  | inr (t, e, v) ↦ rw e v
  | inl e ↦ rw e (
      extend bitrate brp n e (search_brp n bitrate (suc brp))
        (search_brp_lem n bitrate (suc brp) r s (omega arith) (omega arith)))
]
  where
    extend :
        (bitrate brp n : ℕ)
        → test_brp bitrate brp ≡ ok none
        → (o : Outcome (Option BitTiming)) → Found bitrate (suc brp) n o
        → Found bitrate brp (suc n) o
    extend bitrate brp n e undefined f = f
    extend bitrate brp n e stuck f = f
    extend bitrate brp n e (ok (some t)) f = f
    extend bitrate brp n e (ok none) f = λ k a b. elim (Bool-cases (k == brp)) [
      | inl g ↦ subst (λ j. test_brp bitrate j ≡ ok none) (ground (arith, g)) e
      | inr g ↦ f k (ground (arith, g)) (omega arith)
    ]

-- For a bitrate of up to 4194303, calculateBitTiming returns, and never divides by zero. Either it
-- finds a timing that the registers hold and that gives exactly this bitrate, or the bitrate is 0
-- or no prescaler from 1 to 1024 passes the tests.
pub calculate_bit_timing_lem :
    (bitrate : ℕ)
    → bitrate < 4194304
    → ((t : BitTiming) × (calculate_bit_timing bitrate ≡ ok (some t)) × IsTiming bitrate t)
      ⊎ ((calculate_bit_timing bitrate ≡ ok none)
          × ((bitrate ≡ 0) ⊎ ((brp : ℕ) → 1 ≤ brp → brp ≤ 1024 → test_brp bitrate brp ≡ ok none)))
unfolding calculate_bit_timing
calculate_bit_timing_lem zero h = inr (refl, inl refl)
calculate_bit_timing_lem (suc b) h = elim (Bool-cases (suc b == 0)) [
  | inl e ↦ absurd (ground (arith, e))
  | inr e ↦ rw e (
      cases (search_brp 1024 (suc b) 1)
        (search_brp_lem 1024 (suc b) 1 (omega arith) (omega arith) (omega arith) (omega arith)))
]
  where
    cases :
        (o : Outcome (Option BitTiming))
        → Found (suc b) 1 1024 o
        → ((t : BitTiming) × (o ≡ ok (some t)) × IsTiming (suc b) t)
          ⊎ ((o ≡ ok none)
              × ((suc b ≡ 0) ⊎ ((brp : ℕ) → 1 ≤ brp → brp ≤ 1024 → test_brp (suc b) brp ≡ ok none)))
    cases undefined f = absurd f
    cases stuck f = absurd f
    cases (ok (some t)) f = inl (t, refl, f)
    cases (ok none) f = inr (refl, inr (λ k x y. f k x (omega arith)))

-- The command for such a timing holds its four numbers less one, and none of them loses a bit.
pub timing_command_lem :
    (bitrate channel : ℕ) (t : BitTiming)
    → IsTiming bitrate t
    → timing_command channel (some t)
      ≡ le_bytes 2 (opcode_channel channel 4)
        ++ (96 ∷ (t.sjw - 1) ∷ (t.tseg2 - 1) ∷ (t.tseg1 - 1) ∷ le_bytes 2 (t.brp - 1))
timing_command_lem bitrate channel t v =
    let a : sub32 t.sjw 1 % 128 ≡ t.sjw - 1 = omega (arith, v.sjw_pos, v.sjw_le) in
    let b : sub32 t.tseg2 1 % 128 ≡ t.tseg2 - 1 = omega (arith, v.tseg2_pos, v.tseg2_le) in
    let c : sub32 t.tseg1 1 % 256 ≡ t.tseg1 - 1 = omega (arith, v.tseg1_pos, v.tseg1_le) in
    let d : sub32 t.brp 1 % 1024 ≡ t.brp - 1 = omega (arith, v.brp_pos, v.brp_le) in
    λ i. le_bytes 2 (opcode_channel channel 4) ++ (96 ∷ a i ∷ b i ∷ c i ∷ le_bytes 2 (d i))
