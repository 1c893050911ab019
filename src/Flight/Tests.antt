-- ===== src/Flight/Tests.antt =====
-- The theorems on the flight window, on a run of a few calls.
use i_can.Common.{false, ltb, if◌then◌else◌, some, refl, ◌≡◌, arith}
use i_can.Flight.{
  FlightWindow, reset, on_tx_sent, on_rx_received, put_word, reap_word, reap_loop, reap,
  delivery_rate,
}
use i_can.Common.Bits.{popcount}
use i_can.Flight.Tracking.{Tracks, with_ack}
use i_can.Flight.Steps.{Run, started, sent, received, Run-Tracks, Shown, delivery_rate_lem}

abbrev used : FlightWindow
used = record {
  head_seq = 9;
  ack_bitmap = λ i. i;
  base_seq = 3;
  total_sent = 3;
  total_confirmed = 2;
  rx_calls = 7;
  rx_stale_rejects = 0;
  rx_reaped_rejects = 0;
}

abbrev new : FlightWindow
new = reset used

abbrev ahead : FlightWindow
ahead = on_tx_sent 8100 new

ahead-Run : Run (λ n. false) ahead
ahead-Run = sent new 8100 (started used) (omega arith) (omega arith) (omega arith)

acked-Run : Run (if ltb 5 0 then (λ n. false) else with_ack 5 (λ n. false)) (on_rx_received 5 ahead)
unfolding on_tx_sent
acked-Run = received ahead 5 ahead-Run (omega arith)

Run-Tracks_example : Tracks (with_ack 5 (λ n. false)) (on_rx_received 5 ahead)
Run-Tracks_example = Run-Tracks acked-Run

delivery_rate_example :
    Shown
      (with_ack 5 (λ n. false))
      (on_rx_received 5 ahead)
      (delivery_rate (on_rx_received 5 ahead))
delivery_rate_example = delivery_rate_lem acked-Run

-- 64 of the frames are past the grace window, and one of them came back.
shown : (delivery_rate (on_rx_received 5 ahead)).0 ≡ some (1, 64)
unfolding delivery_rate reap reap_loop reap_word on_tx_sent on_rx_received put_word popcount
shown = refl
