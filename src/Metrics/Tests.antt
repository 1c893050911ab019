-- ===== src/Metrics/Tests.antt =====
-- The theorems on the counters, on three messages with a gap, and on a few events.
use i_can.Common.{ℕ, ◌≡◌, ◌≤◌, refl, true, List, [], ◌∷◌, arith}
use i_can.Metrics.{reset}
use i_can.Metrics.Sequence.{received_in_turn, missing_numbers}
use i_can.Metrics.Drained.{
  Event, sent, polled, received, drained, nothing, play, Balanced, play-Balanced,
}

-- A message with a number below 256.
abbrev numbered : ℕ → List ℕ
numbered n = 0 ∷ 0 ∷ 0 ∷ 0 ∷ 0 ∷ 0 ∷ 0 ∷ n ∷ []

abbrev others : List (List ℕ)
others = numbered 6 ∷ numbered 9 ∷ []

missing_numbers_example :
    (let r = received_in_turn (reset 0) (numbered 5 ∷ others) in
      (r.messages_received ≡ 3)
      × (r.rx_last_sequence ≡ 9)
      × (7 ≤ 9)
      × (r.rx_sequence_gaps ≡ 2)
      × (r.rx_duplicates ≡ 0)
      × (r.rx_out_of_order ≡ 0))
missing_numbers_example =
    missing_numbers 0 (numbered 5) others (omega arith) (omega arith)
      (omega arith, omega arith, omega arith, (omega arith, omega arith, omega arith, tt))

abbrev events : List Event
events = sent 2 40 ∷ received (numbered 5) ∷ drained ∷ polled true 20 ∷ received (numbered 9) ∷ []

start-Balanced : Balanced (reset 0) nothing
start-Balanced = record { tx = refl; tx_bytes = refl; rx = refl; rx_bytes = refl; seq_gaps = refl }

play-Balanced_example : Balanced (play (reset 0) nothing events).0 (play (reset 0) nothing events).1
play-Balanced_example = play-Balanced events (reset 0) nothing start-Balanced
