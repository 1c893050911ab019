-- ===== src/Pcan/Commands.antt =====
-- The bytes of the commands that openChannel sends.
use i_can.Common.{
  ℕ, zero, suc, ◌-◌, ◌*◌, ◌/◌, ◌%◌, ◌≤◌, ◌<◌, ◌≡◌, refl, ap, ◌∙◌, false, none, some, List, [], ◌∷◌,
  ◌++◌, ◌⊎◌, inl, inr, if◌then◌else◌, not, ◌&&◌, get_or, length, replicate, arith,
}
use i_can.Common.Outcome.{ok}
use i_can.Pcan.Timing.{BitTiming, test_brp}
use i_can.Pcan.Search.{IsTiming, calculate_bit_timing_lem, timing_command_lem}
use i_can.Pcan.Codec.{Channels, opcode_channel, timing_command, write_bit_timing, init_commands}

-- The command that sets a timing, and the one that does nothing.
abbrev pub exact_bytes : ℕ → BitTiming → List ℕ
exact_bytes channel t =
    4
    ∷ 16 * channel
    ∷ 96
    ∷ (t.sjw - 1)
    ∷ (t.tseg2 - 1)
    ∷ (t.tseg1 - 1)
    ∷ (t.brp - 1) % 256
    ∷ (t.brp - 1) / 256
    ∷ []

abbrev pub idle_bytes : ℕ → List ℕ
idle_bytes channel = 0 ∷ 16 * channel ∷ replicate 6 0

-- The search finds no exact timing.
abbrev pub HasNoTiming : ℕ → Type 0
HasNoTiming bitrate =
    (bitrate ≡ 0) ⊎ ((brp : ℕ) → 1 ≤ brp → brp ≤ 1024 → test_brp bitrate brp ≡ ok none)

-- The command for a bitrate: an exact timing, or nothing if there is none.
abbrev pub IsCommand : ℕ → ℕ → List ℕ → Type 0
IsCommand bitrate channel bytes =
    ((t : BitTiming) × IsTiming bitrate t × (bytes ≡ exact_bytes channel t))
    ⊎ (HasNoTiming bitrate × (bytes ≡ idle_bytes channel))

-- The second transfer of openChannel, around the command for the bitrate: the clock if no channel
-- is open, that command, the reset of the error counters, and the normal mode.
abbrev pub init_bytes : Channels → ℕ → List ℕ → List ℕ
init_bytes c channel bytes =
    (if not (get_or c.channel_open 0 false) && not (get_or c.channel_open 1 false)
      then 128 ∷ replicate 7 0
      else [])
    ++ (bytes ++ (10 ∷ 16 * channel ∷ 0 ∷ 0xc0 ∷ 0 ∷ 0 ∷ 0 ∷ 0 ∷ 2 ∷ 16 * channel ∷ replicate 6 0))

pub init_commands_lem :
    (c : Channels) (channel : ℕ) (bytes : List ℕ)
    → channel < 2
    → init_commands c channel bytes ≡ init_bytes c channel bytes
init_commands_lem c zero bytes l = refl
init_commands_lem c (suc zero) bytes l = refl
init_commands_lem c (suc (suc n)) bytes l = absurd (omega (arith, l))

timing_command-bytes :
    (bitrate channel : ℕ) (t : BitTiming)
    → channel < 2
    → IsTiming bitrate t
    → timing_command channel (some t) ≡ exact_bytes channel t
timing_command-bytes bitrate channel t l v =
    let a : opcode_channel channel 4 % 256 ≡ 4 = omega (arith, l) in
    let b : opcode_channel channel 4 / 256 % 256 ≡ 16 * channel = omega (arith, l) in
    let c : (t.brp - 1) / 256 % 256 ≡ (t.brp - 1) / 256 = omega (arith, v.brp_le) in
    timing_command_lem bitrate channel t v ∙ λ i.
    a i ∷ b i ∷ 96 ∷ (t.sjw - 1) ∷ (t.tseg2 - 1) ∷ (t.tseg1 - 1) ∷ (t.brp - 1) % 256 ∷ c i ∷ []

idle_command-bytes : (channel : ℕ) → channel < 2 → timing_command channel none ≡ idle_bytes channel
idle_command-bytes zero l = refl
idle_command-bytes (suc zero) l = refl
idle_command-bytes (suc (suc n)) l = absurd (omega (arith, l))

-- The command is built for any bitrate of up to 4194303.
pub write_bit_timing_lem :
    (channel bitrate : ℕ)
    → channel < 2
    → bitrate < 4194304
    → (bytes : List ℕ) × (write_bit_timing channel bitrate ≡ ok bytes)
      × IsCommand bitrate channel bytes
unfolding write_bit_timing
write_bit_timing_lem channel bitrate l m = elim (calculate_bit_timing_lem bitrate m) [
  | inl (t, e, v) ↦ (
    timing_command channel (some t),
    rw e refl,
    inl (t, v, timing_command-bytes bitrate channel t l v),
  )
  | inr (e, n) ↦ (timing_command channel none, rw e refl, inr (n, idle_command-bytes channel l))
]

pub IsCommand-length :
    (bitrate channel : ℕ) (bytes : List ℕ) → IsCommand bitrate channel bytes → length bytes ≡ 8
IsCommand-length bitrate channel bytes (inl (t, v, e)) = ap length e
IsCommand-length bitrate channel bytes (inr (n, e)) = ap length e
