-- ===== src/Pcan/Sessions.antt =====
-- The channels of the PCAN codec as sessions: which channels are open, and at which bitrate.
use i_can.Common.{
  ap, ℕ, zero, suc, ◌-◌, ◌*◌, ◌≤◌, ◌<◌, ◌≡◌, refl, ◌∙◌, Bool, true, false, not, ◌&&◌, Option, none,
  some, List, [], ◌∷◌, ◌++◌, leb, ◌==◌, ◌⊎◌, inl, inr, if◌then◌else◌, length, length-append,
  length-set, length-replicate, get_or, set, replicate, All, Bool-cases, arith,
}
use i_can.Common.Outcome.{ok}
use i_can.Common.IoReturn.{bad_argument, is_success}
use i_can.Codec.{SendFn}
use i_can.Pcan.Commands.{
  IsCommand, init_bytes, init_commands_lem, write_bit_timing_lem, IsCommand-length,
}
use i_can.Pcan.Codec.{
  Channels, ChannelResult, filter_rows, command_buffer, init_commands, send_init, open_channel,
  close_channel, close_all, on_stop_io,
}

-- The channels of a device: one or two, each with a flag and a bitrate.
pub record IsChannels (c : Channels) : Type 0 where
  pub count : c.channel_count ≤ 2
  pub flags : length c.channel_open ≡ 2
  pub bitrates : length c.channel_bitrate ≡ 2

-- The bitrate of a channel that is open.
abbrev pub session : Channels → ℕ → Option ℕ
session c k = if get_or c.channel_open k false then some (get_or c.channel_bitrate k 0) else none

get_or-set {ℓ} :
    {A : Type ℓ} (l : List A) (i k : ℕ) (v d : A)
    → i < length l
    → get_or (set l i v) k d ≡ (if k == i then v else get_or l k d)
get_or-set [] i k v d h = absurd (omega arith)
get_or-set (x ∷ xs) zero zero v d h = refl
get_or-set (x ∷ xs) zero (suc k) v d h = let e : (suc k == 0) ≡ false = ground arith in rw e refl
get_or-set (x ∷ xs) (suc i) zero v d h = let e : (0 == suc i) ≡ false = ground arith in rw e refl
get_or-set (x ∷ xs) (suc i) (suc k) v d h =
    let e : (suc k == suc i) ≡ (k == i) = ground arith in rw e (get_or-set xs i k v d (omega arith))

length-filter_rows : (n channel row : ℕ) → length (filter_rows n channel row) ≡ 8 * n
unfolding filter_rows
length-filter_rows zero channel row = omega arith
length-filter_rows (suc n) channel row = omega (arith, length-filter_rows n channel (suc row))

length-command_buffer : (cmds : List ℕ) → length cmds ≤ 512 → length (command_buffer cmds) ≡ 512
length-command_buffer cmds l = omega (
  arith,
  length-append cmds (replicate (512 - length cmds) 255),
  length-replicate {A = ℕ} (512 - length cmds) 255,
)

-- With or without the command for the clock, the commands fit the buffer.
length-init_bytes :
    (c : Channels) (channel : ℕ) (bytes : List ℕ)
    → length bytes ≡ 8
    → length (command_buffer (init_bytes c channel bytes)) ≡ 512
length-init_bytes c channel bytes e =
    length-command_buffer (init_bytes c channel bytes)
      (fits (not (get_or c.channel_open 0 false) && not (get_or c.channel_open 1 false)))
  where
    behind : List ℕ
    behind = 10 ∷ 16 * channel ∷ 0 ∷ 0xc0 ∷ 0 ∷ 0 ∷ 0 ∷ 0 ∷ 2 ∷ 16 * channel ∷ replicate 6 0

    fits : (b : Bool) → length ((if b then 128 ∷ replicate 7 0 else []) ++ (bytes ++ behind)) ≤ 512
    fits true = omega (arith, length-append bytes behind, e)
    fits false = omega (arith, length-append bytes behind, e)

-- What openChannel did for `channel` at `bitrate`.
pub record Opening (c : Channels) (bitrate channel : ℕ) (r : ChannelResult) : Type 0 where
  pub sizes : All (λ t. length t ≡ 512) r.sent
  pub failed : is_success r.result ≡ false → r.channels ≡ c
  pub opened :
      is_success r.result ≡ true
      → (channel < c.channel_count)
        × ((bytes : List ℕ) × IsCommand bitrate channel bytes
            × (r.sent
                ≡ filter_rows 64 channel 0 ∷ command_buffer (init_bytes c channel bytes) ∷ []))
        × IsChannels r.channels
        × ((k : ℕ) → session r.channels k ≡ (if k == channel then some bitrate else session c k))

contradiction {ℓ} : {b : Bool} {A : Type ℓ} → b ≡ false → b ≡ true → A
contradiction e f = absurd cc

-- The channels after the write of one channel.
session-set :
    (c : Channels) (channel bitrate k : ℕ) (b : Bool)
    → IsChannels c
    → channel < c.channel_count
    → session
        (record c {
          channel_open = set c.channel_open channel b;
          channel_bitrate = set c.channel_bitrate channel bitrate;
        })
        k
      ≡ (if k == channel then (if b then some bitrate else none) else session c k)
session-set c channel bitrate k b v l =
    rw
      (
        get_or-set c.channel_open channel k b false (omega (arith, v.count, v.flags)),
        get_or-set c.channel_bitrate channel k bitrate 0 (omega (arith, v.count, v.bitrates)),
      )
      (elim (Bool-cases (k == channel)) [ inl e ↦ rw e refl | inr e ↦ rw e refl ])

set-IsChannels :
    (c : Channels) (channel bitrate : ℕ) (b : Bool)
    → IsChannels c
    → IsChannels (record c {
      channel_open = set c.channel_open channel b;
      channel_bitrate = set c.channel_bitrate channel bitrate;
    })
set-IsChannels c channel bitrate b v = record {
  count = v.count;
  flags = length-set c.channel_open channel b ∙ v.flags;
  bitrates = length-set c.channel_bitrate channel bitrate ∙ v.bitrates;
}

send_init-Opening :
    (send : SendFn) (c : Channels) (bitrate channel : ℕ) (bytes : List ℕ)
    → IsChannels c
    → channel < c.channel_count
    → IsCommand bitrate channel bytes
    → Opening c bitrate channel (send_init send c bitrate channel (filter_rows 64 channel 0) bytes)
unfolding send_init
send_init-Opening send c bitrate channel bytes v l is =
    let cmds = command_buffer (init_commands c channel bytes) in
    let same : init_commands c channel bytes ≡ init_bytes c channel bytes =
      init_commands_lem c channel bytes (omega (arith, v.count, l)) in
    let size : length cmds ≡ 512 =
      ap (λ b. length (command_buffer b)) same
      ∙ length-init_bytes c channel bytes (IsCommand-length bitrate channel bytes is) in
    let sizes : All (λ t. length t ≡ 512) (filter_rows 64 channel 0 ∷ cmds ∷ []) =
      (length-filter_rows 64 channel 0, (size, tt)) in
    elim (Bool-cases (is_success (send cmds))) [
      | inl taken ↦ rw taken (record {
        sizes = sizes;
        failed = λ e. contradiction e taken;
        opened = λ e. (
          l,
          (bytes, is, ap (λ b. filter_rows 64 channel 0 ∷ command_buffer b ∷ []) same),
          set-IsChannels c channel bitrate true v,
          λ k. session-set c channel bitrate k true v l,
        );
      })
      | inr refused ↦
          rw refused
            (record { sizes = sizes; failed = λ e. refl; opened = λ e. contradiction refused e })
    ]

-- openChannel of the PCAN codec, for a device of at most two channels, returns for any channel and
-- any bitrate of up to 4194303. Each transfer that it sends has 512 bytes. If it fails, the
-- channels are as before. If it succeeds, the channel is one of the device; after the filters it
-- has sent, byte by byte, the clock if no channel was open, then an exact timing for the bitrate,
-- or a command that does nothing if the search finds no such timing, then the reset of the error
-- counters and the normal mode; and in the state of the codec the channel is open with this bitrate
-- noted, in either case, and all others are as before.
pub open_channel-Opening :
    (send : SendFn) (c : Channels) (bitrate channel : ℕ)
    → IsChannels c
    → bitrate < 4194304
    → (r : ChannelResult) × (open_channel send c bitrate channel ≡ ok r)
      × Opening c bitrate channel r
unfolding open_channel
open_channel-Opening send c bitrate channel v l =
    let filters = filter_rows 64 channel 0 in
    elim (Bool-cases (leb c.channel_count channel)) [
      | inl out ↦ (
        record { channels = c; sent = []; result = bad_argument },
        rw out refl,
        record { sizes = tt; failed = λ e. refl; opened = λ e. contradiction refl e },
      )
      | inr fits ↦ elim (Bool-cases (is_success (send filters))) [
        | inr refused ↦ (
          record { channels = c; sent = filters ∷ []; result = send filters },
          rw (fits, refused) refl,
          record {
            sizes = (length-filter_rows 64 channel 0, tt);
            failed = λ e. refl;
            opened = λ e. contradiction refused e;
          },
        )
        | inl taken ↦
            let inside : channel < c.channel_count = ground (arith, fits) in
            let (bytes, e, is) =
              write_bit_timing_lem channel bitrate (omega (arith, v.count, inside)) l in
            (
              send_init send c bitrate channel filters bytes,
              rw (fits, taken, e) refl,
              send_init-Opening send c bitrate channel bytes v inside is,
            )
      ]
    ]

-- closeChannel on a channel of the device leaves it closed and all others as before, whatever the
-- device answers, and that answer is the result; on any other channel it fails and sends nothing.
pub close_channel_lem :
    (send : SendFn) (c : Channels) (channel : ℕ)
    → IsChannels c
    → (let r = close_channel send c channel in
        ((channel < c.channel_count)
          × IsChannels r.channels
          × ((k : ℕ) → session r.channels k ≡ (if k == channel then none else session c k)))
        ⊎ ((c.channel_count ≤ channel)
            × (r ≡ record { channels = c; sent = []; result = bad_argument })))
unfolding close_channel
close_channel_lem send c channel v = elim (Bool-cases (leb c.channel_count channel)) [
  | inl out ↦ inr (ground (arith, out), rw out refl)
  | inr fits ↦
      let l : channel < c.channel_count = ground (arith, fits) in
      elim (Bool-cases (get_or c.channel_open channel false)) [
        | inl e ↦ inl (
          l,
          rw (fits, e) (set-IsChannels c channel 0 false v),
          λ k. rw (fits, e) (session-set c channel 0 k false v l),
        )
        | inr e ↦ inl (l, rw (fits, e) v, λ k. rw (fits, e) (closed k e))
      ]
]
  where
    closed :
        (k : ℕ)
        → get_or c.channel_open channel false ≡ false
        → session c k ≡ (if k == channel then none else session c k)
    closed k e = elim (Bool-cases (k == channel)) [
      | inl same ↦ let at : k ≡ channel = ground (arith, same) in rw (same, at, e) refl
      | inr differ ↦ rw differ refl
    ]

get_or-close_all : (n k : ℕ) (l : List Bool) → k < n → get_or (close_all n l) k false ≡ false
unfolding close_all
get_or-close_all zero k l h = absurd (omega arith)
get_or-close_all (suc n) k [] h = refl
get_or-close_all (suc n) zero (b ∷ l) h = refl
get_or-close_all (suc n) (suc k) (b ∷ l) h = get_or-close_all n k l (omega arith)

-- After onStopIO no channel of the device is open.
pub on_stop_io-session :
    (c : Channels) (k : ℕ) → k < c.channel_count → session (on_stop_io c) k ≡ none
unfolding on_stop_io
on_stop_io-session c k l = rw (get_or-close_all c.channel_count k c.channel_open l) refl
