-- ===== src/Metrics/Drained.antt =====
-- The counters for each second against the totals.
use i_can.Common.{
  ℕ, ◌+◌, ◌%◌, ◌^◌, ◌≡◌, Bool, true, false, ◌&&◌, ◌||◌, List, [], ◌∷◌, ltb, leb, ◌==◌,
  if◌then◌else◌, length, take, Bool-cases, inl, inr, arith,
}
use i_can.Common.Words.{add32, add64, sub64}
use i_can.Metrics.{
  Metrics, add_sent, add_poll, add_received, count_received, check_sequence, classify, of_be_bytes,
  add_decode_failure, RateCounters, drain_per_second_counters, cancel,
}

-- What the threads of a test run call.
pub data Event : Type 0 where
  sent : ℕ → ℕ → Event
  polled : Bool → ℕ → Event
  received : List ℕ → Event
  failed : Event
  cancelled : Event
  drained : Event

-- The sums of what the drains have returned so far.
abbrev pub Sums : Type 0
Sums = RateCounters

abbrev plus : Sums → RateCounters → Sums
plus s c = record {
  tx = s.tx + c.tx;
  tx_bytes = s.tx_bytes + c.tx_bytes;
  rx = s.rx + c.rx;
  rx_bytes = s.rx_bytes + c.rx_bytes;
  seq_gaps = s.seq_gaps + c.seq_gaps;
}

abbrev pub nothing : Sums
nothing = record { tx = 0; tx_bytes = 0; rx = 0; rx_bytes = 0; seq_gaps = 0 }

abbrev pub play : Metrics → Sums → List Event → Metrics × Sums
play m s [] = (m, s)
play m s (sent n bytes ∷ es) = play (add_sent m n bytes) s es
play m s (polled hit raw ∷ es) = play (add_poll m hit raw) s es
play m s (received bytes ∷ es) = play (add_received m bytes) s es
play m s (failed ∷ es) = play (add_decode_failure m) s es
play m s (cancelled ∷ es) = play (cancel m) s es
play m s (drained ∷ es) =
    play (drain_per_second_counters m).1 (plus s (drain_per_second_counters m).0) es

-- The totals are what was drained and what waits to be, in 32 bits.
pub record Balanced (m : Metrics) (s : Sums) : Type 0 where
  pub tx : m.messages_sent ≡ (s.tx + m.sec_tx) % 2 ^ 32
  pub tx_bytes : m.bytes_sent ≡ (s.tx_bytes + m.sec_tx_bytes) % 2 ^ 32
  pub rx : m.messages_received ≡ (s.rx + m.sec_rx) % 2 ^ 32
  pub rx_bytes : m.bytes_received ≡ (s.rx_bytes + m.sec_rx_bytes) % 2 ^ 32
  pub seq_gaps : m.rx_sequence_gaps ≡ (s.seq_gaps + m.sec_seq_gaps) % 2 ^ 32

add_sent-Balanced :
    (m : Metrics) (s : Sums) (n bytes : ℕ) → Balanced m s → Balanced (add_sent m n bytes) s
add_sent-Balanced m s n bytes b = record {
  tx = omega (arith, b.tx);
  tx_bytes = omega (arith, b.tx_bytes);
  rx = b.rx;
  rx_bytes = b.rx_bytes;
  seq_gaps = b.seq_gaps;
}

add_poll-Balanced :
    (m : Metrics) (s : Sums) (hit : Bool) (raw : ℕ) → Balanced m s → Balanced (add_poll m hit raw) s
unfolding add_poll
add_poll-Balanced m s true raw b = record {
  tx = b.tx;
  tx_bytes = b.tx_bytes;
  rx = b.rx;
  rx_bytes = b.rx_bytes;
  seq_gaps = b.seq_gaps;
}
add_poll-Balanced m s false raw b = record {
  tx = b.tx;
  tx_bytes = b.tx_bytes;
  rx = b.rx;
  rx_bytes = b.rx_bytes;
  seq_gaps = b.seq_gaps;
}

drain-Balanced :
    (m : Metrics) (s : Sums)
    → Balanced m s
    → Balanced (drain_per_second_counters m).1 (plus s (drain_per_second_counters m).0)
drain-Balanced m s b = record {
  tx = omega (arith, b.tx);
  tx_bytes = omega (arith, b.tx_bytes);
  rx = omega (arith, b.rx);
  rx_bytes = omega (arith, b.rx_bytes);
  seq_gaps = omega (arith, b.seq_gaps);
}

count_received-Balanced :
    (m : Metrics) (s : Sums) (n : ℕ) → Balanced m s → Balanced (count_received m n) s
count_received-Balanced m s n b = record {
  tx = b.tx;
  tx_bytes = b.tx_bytes;
  rx = omega (arith, b.rx);
  rx_bytes = omega (arith, b.rx_bytes);
  seq_gaps = b.seq_gaps;
}

classify-Balanced :
    (m : Metrics) (s : Sums) (last seq : ℕ) → Balanced m s → Balanced (classify m last seq) s
classify-Balanced m s last seq b = elim (Bool-cases (seq == add64 last 1)) [
  | inl e ↦ rw e b
  | inr e ↦ elim (Bool-cases (seq == last)) [
    | inl f ↦
        rw (e, f)
          (record {
            tx = b.tx;
            tx_bytes = b.tx_bytes;
            rx = b.rx;
            rx_bytes = b.rx_bytes;
            seq_gaps = b.seq_gaps;
          })
    | inr f ↦ elim (Bool-cases (ltb seq last && ltb (sub64 last seq) 1000)) [
      | inl g ↦
          rw (e, f, g)
            (record {
              tx = b.tx;
              tx_bytes = b.tx_bytes;
              rx = b.rx;
              rx_bytes = b.rx_bytes;
              seq_gaps = b.seq_gaps;
            })
      | inr g ↦
          rw (e, f, g) (gapped (if ltb (add64 last 1) seq then sub64 seq (add64 last 1) else 1))
    ]
  ]
]
  where
    gapped :
        (gap : ℕ)
        → Balanced
            (record m {
              rx_sequence_gaps = add32 m.rx_sequence_gaps gap;
              sec_seq_gaps = add32 m.sec_seq_gaps gap;
            })
            s
    gapped gap = record {
      tx = b.tx;
      tx_bytes = b.tx_bytes;
      rx = b.rx;
      rx_bytes = b.rx_bytes;
      seq_gaps = omega (arith, b.seq_gaps);
    }

check_sequence-Balanced :
    (m : Metrics) (s : Sums) (seq : ℕ) → Balanced m s → Balanced (check_sequence m seq) s
unfolding check_sequence
check_sequence-Balanced m s seq b = elim (Bool-cases (m.messages_received == 1)) [
  | inl e ↦ rw e (moved m b)
  | inr e ↦
      let c = classify m m.rx_last_sequence seq in
      let bc = classify-Balanced m s m.rx_last_sequence seq b in
      elim (Bool-cases
        (ltb m.rx_last_sequence seq || ltb 0x7fffffffffffffff (sub64 m.rx_last_sequence seq))) [
          | inl f ↦ rw (e, f) (moved c bc)
          | inr f ↦ rw (e, f) bc
        ]
]
  where
    moved : (n : Metrics) → Balanced n s → Balanced (record n { rx_last_sequence = seq }) s
    moved n x = record {
      tx = x.tx;
      tx_bytes = x.tx_bytes;
      rx = x.rx;
      rx_bytes = x.rx_bytes;
      seq_gaps = x.seq_gaps;
    }

add_received-Balanced :
    (m : Metrics) (s : Sums) (bytes : List ℕ) → Balanced m s → Balanced (add_received m bytes) s
unfolding add_received
add_received-Balanced m s bytes b =
    let counted = count_received-Balanced m s (length bytes) b in
    elim (Bool-cases (leb 8 (length bytes))) [
      | inl e ↦ rw e (
          check_sequence-Balanced (count_received m (length bytes)) s (of_be_bytes 0 (take 8 bytes))
            counted)
      | inr e ↦ rw e counted
    ]

-- Whatever the threads of a test run call and whenever the counters for a second are drained: each
-- total is, in 32 bits, the sum of what the drains returned and what waits for the next one.
pub play-Balanced :
    (es : List Event) (m : Metrics) (s : Sums)
    → Balanced m s
    → Balanced (play m s es).0 (play m s es).1
play-Balanced [] m s b = b
play-Balanced (sent n bytes ∷ es) m s b =
    play-Balanced es (add_sent m n bytes) s (add_sent-Balanced m s n bytes b)
play-Balanced (polled hit raw ∷ es) m s b =
    play-Balanced es (add_poll m hit raw) s (add_poll-Balanced m s hit raw b)
play-Balanced (received bytes ∷ es) m s b =
    play-Balanced es (add_received m bytes) s (add_received-Balanced m s bytes b)
play-Balanced (failed ∷ es) m s b = play-Balanced es (add_decode_failure m) s (record {
  tx = b.tx;
  tx_bytes = b.tx_bytes;
  rx = b.rx;
  rx_bytes = b.rx_bytes;
  seq_gaps = b.seq_gaps;
})
play-Balanced (cancelled ∷ es) m s b = play-Balanced es (cancel m) s (record {
  tx = b.tx;
  tx_bytes = b.tx_bytes;
  rx = b.rx;
  rx_bytes = b.rx_bytes;
  seq_gaps = b.seq_gaps;
})
play-Balanced (drained ∷ es) m s b =
    play-Balanced es (drain_per_second_counters m).1 (plus s (drain_per_second_counters m).0)
      (drain-Balanced m s b)
