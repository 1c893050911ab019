-- ===== src/Pcan/Tests.antt =====
-- The theorems on the PCAN codec, on sample frames, a transfer of two messages, and a device that
-- takes every transfer.
use i_can.Common.{
  ℕ, ◌+◌, ◌*◌, ◌≡◌, ◌≤◌, ◌⊎◌, refl, true, false, some, none, List, [], ◌∷◌, ◌++◌, length, replicate,
  arith,
}
use i_can.Common.Words.{add32}
use i_can.Common.Outcome.{ok}
use i_can.Common.IoReturn.{success}
use i_can.Codec.{SendFn}
use i_can.Pcan.{
  encode_tx_frame, decode_rx_frame, RxCounts, Parsed, process_rx_data, at_zero,
  calculate_bit_timing, BitTiming, test_brp, Channels, ChannelResult, open_channel,
}
use i_can.Pcan.RoundTrip.{kept, body}
use i_can.Pcan.Messages.{sent_message, echoed_message, decode_rx_frame-encode_tx_frame}
use i_can.Pcan.Parse.{process_rx_data-total, process_rx_data-join, join, handled, sentinel}
use i_can.Pcan.Search.{calculate_bit_timing_lem, IsTiming}
use i_can.Pcan.Sessions.{IsChannels, Opening, open_channel-Opening}
use i_can.Samples.{flexible, flexible-IsFrame}

decode_rx_frame-encode_tx_frame_example :
    (encode_tx_frame flexible 128 ≡ sent_message flexible)
    × ((time tag : ℕ)
        → decode_rx_frame (echoed_message time tag flexible) (28 + length (body flexible))
          ≡ kept flexible)
decode_rx_frame-encode_tx_frame_example = decode_rx_frame-encode_tx_frame flexible flexible-IsFrame

abbrev counts : RxCounts
counts = record {
  echo = 0;
  overrun = 0;
  calibration = 0;
  error = 0;
  status = 0;
  truncated = 0;
  zero_sentinel = 0;
  transfer = 0;
}

-- A frame that came in, and a status message behind it.
abbrev messages : List (List ℕ)
messages = echoed_message 7 0 flexible ∷ (12 ∷ 0 ∷ 3 ∷ 0 ∷ replicate 8 0) ∷ []

abbrev padding : List ℕ
padding = replicate 16 0

process_rx_data-total_example :
    (r : Parsed) × (process_rx_data counts (join messages) ≡ ok r)
    × (28 * length r.frames ≤ length (join messages))
process_rx_data-total_example = process_rx_data-total counts (join messages)

process_rx_data-join_example :
    process_rx_data counts (join messages ++ padding)
    ≡ ok (
        at_zero (
          handled
            (record { counts = record counts { transfer = add32 0 1 }; frames = []; msgs = 0 })
            messages))
process_rx_data-join_example =
    process_rx_data-join counts messages
      (
        record { header = omega arith; sized = refl },
        (record { header = omega arith; sized = refl }, tt),
      )
      (sentinel padding (omega arith) refl)

abbrev rate : ℕ
rate = 500000

calculate_bit_timing_lem_example :
    ((t : BitTiming) × (calculate_bit_timing rate ≡ ok (some t)) × IsTiming rate t)
    ⊎ ((calculate_bit_timing rate ≡ ok none)
        × ((rate ≡ 0) ⊎ ((brp : ℕ) → 1 ≤ brp → brp ≤ 1024 → test_brp rate brp ≡ ok none)))
calculate_bit_timing_lem_example = calculate_bit_timing_lem rate (omega arith)

abbrev willing : SendFn
willing bytes = success

abbrev channels : Channels
channels = record {
  channel_count = 2;
  channel_open = false ∷ true ∷ [];
  channel_bitrate = 0 ∷ 250000 ∷ [];
}

channels-IsChannels : IsChannels channels
channels-IsChannels = record { count = omega arith; flags = refl; bitrates = refl }

open_channel-Opening_example :
    (r : ChannelResult) × (open_channel willing channels 500000 0 ≡ ok r)
    × Opening channels 500000 0 r
open_channel-Opening_example =
    open_channel-Opening willing channels 500000 0 channels-IsChannels (omega arith)
