-- ===== src/Flight/Steps.antt =====
-- The runs of a flight window: the calls of the three threads, in any order.
use i_can.Common.{
  ℕ, suc, ◌+◌, ◌^◌, ◌%◌, ◌<◌, ◌≤◌, ◌≡◌, refl, ap₂, Bool, false, Option, none, some, ltb, ◌==◌,
  if◌then◌else◌, arith,
}
use i_can.Common.Bits.{count_from}
use i_can.Flight.{FlightWindow, reset, on_tx_sent, on_rx_received, delivery_rate}
use i_can.Flight.Tracking.{Tracks, with_ack, on_tx_sent-Tracks, on_rx_received-Tracks}
use i_can.Flight.Reap.{reap-Tracks, no_bits}

-- A window that some calls lead to, and the set of the acknowledgements that came before their
-- frame was reaped. A frame is sent under a number that was not used, at most 16384 ahead of the
-- reaper and below 2 ^ 63; what is acknowledged was sent.
pub data Run : (ℕ → Bool) → FlightWindow → Type 0 where
  started : (w : FlightWindow) → Run (λ n. false) (reset w)
  sent :
      {acked : ℕ → Bool} (w : FlightWindow) (seq : ℕ)
      → Run acked w
      → w.head_seq ≤ seq
      → seq < w.base_seq + 16384
      → suc seq < 2 ^ 63
      → Run acked (on_tx_sent seq w)
  received :
      {acked : ℕ → Bool} (w : FlightWindow) (seq : ℕ)
      → Run acked w
      → seq < w.head_seq
      → Run (if ltb seq w.base_seq then acked else with_ack seq acked) (on_rx_received seq w)
  displayed : {acked : ℕ → Bool} (w : FlightWindow) → Run acked w → Run acked (delivery_rate w).1

reset-Tracks : (w : FlightWindow) → Tracks (λ n. false) (reset w)
unfolding count_from
reset-Tracks w = record {
  aligned = refl;
  base_le = omega arith;
  head_le = omega arith;
  head_lt = omega arith;
  sent_only = λ n h. refl;
  bits = λ n a b. no_bits (n % 16384 % 64);
  sent = refl;
  confirmed = refl;
}

-- Each run keeps the bitmap and the totals in step with the acknowledgements.
pub Run-Tracks : {acked : ℕ → Bool} {w : FlightWindow} → Run acked w → Tracks acked w
unfolding delivery_rate
Run-Tracks (started w) = reset-Tracks w
Run-Tracks (sent w seq r a b c) = on_tx_sent-Tracks w seq (Run-Tracks r) a b c
Run-Tracks (received w seq r a) = on_rx_received-Tracks w seq (Run-Tracks r) a
Run-Tracks (displayed w r) = (reap-Tracks w (Run-Tracks r)).0

-- The result of deliveryRate on `w`, and the window after it.
pub record Shown (acked : ℕ → Bool) (w : FlightWindow) (r : Option (ℕ × ℕ) × FlightWindow)
    : Type 0 where
  pub rate :
      r.0
      ≡ (if r.1.base_seq == 0 then none else some (count_from acked 0 r.1.base_seq, r.1.base_seq))
  pub aligned : r.1.base_seq % 64 ≡ 0
  pub head_kept : r.1.head_seq ≡ w.head_seq
  pub grace : w.head_seq < r.1.base_seq + 8064

-- After a run, deliveryRate shows, of the frames below the new base, how many were acknowledged
-- before they were reaped. The base is a multiple of 64, fewer than 8064 frames are above it, and
-- the head is as it was.
pub delivery_rate_lem :
    {acked : ℕ → Bool} {w : FlightWindow} → Run acked w → Shown acked w (delivery_rate w)
unfolding delivery_rate
delivery_rate_lem {acked} {w} r =
    let (t, h, g) = reap-Tracks w (Run-Tracks r) in
    record {
      rate = ap₂ (λ c s. if s == 0 then none else some (c, s)) t.confirmed t.sent;
      aligned = t.aligned;
      head_kept = h;
      grace = g;
    }
