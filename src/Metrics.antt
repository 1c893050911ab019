-- ===== src/Metrics.antt =====
-- ican/perf/MetricsEngine.cpp: the counters of a test run. The atomic updates of one call are one
-- step, and times are in nanoseconds.
use i_can.Common.{
  ℕ, ◌+◌, ◌-◌, ◌*◌, Bool, true, false, ◌&&◌, ◌||◌, List, [], ◌∷◌, ltb, leb, ◌==◌, if◌then◌else◌,
  length, take,
}
use i_can.Common.Words.{u32_mod, add32, add64, sub64}
pub mod Sequence
pub mod Drained
mod Tests

-- MetricsEngineImpl
pub record Metrics : Type 0 where
  pub is_cancelled : Bool
  pub messages_sent : ℕ
  pub bytes_sent : ℕ
  pub messages_received : ℕ
  pub bytes_received : ℕ
  pub rx_polls : ℕ
  pub rx_hits : ℕ
  pub rx_raw_bytes : ℕ
  pub rx_sequence_gaps : ℕ
  pub rx_out_of_order : ℕ
  pub rx_duplicates : ℕ
  pub rx_decode_failures : ℕ
  pub rx_last_sequence : ℕ
  pub sec_tx : ℕ
  pub sec_tx_bytes : ℕ
  pub sec_rx : ℕ
  pub sec_rx_bytes : ℕ
  pub sec_seq_gaps : ℕ
  pub start_time : ℕ

-- MetricsEngine::reset, at the time `now`
abbrev pub reset : ℕ → Metrics
reset now = record {
  is_cancelled = false;
  messages_sent = 0;
  bytes_sent = 0;
  messages_received = 0;
  bytes_received = 0;
  rx_polls = 0;
  rx_hits = 0;
  rx_raw_bytes = 0;
  rx_sequence_gaps = 0;
  rx_out_of_order = 0;
  rx_duplicates = 0;
  rx_decode_failures = 0;
  rx_last_sequence = 0;
  sec_tx = 0;
  sec_tx_bytes = 0;
  sec_rx = 0;
  sec_rx_bytes = 0;
  sec_seq_gaps = 0;
  start_time = now;
}

abbrev pub cancel : Metrics → Metrics
cancel m = record m { is_cancelled = true }

abbrev pub add_sent : Metrics → ℕ → ℕ → Metrics
add_sent m messages bytes = record m {
  messages_sent = add32 m.messages_sent messages;
  bytes_sent = add32 m.bytes_sent bytes;
  sec_tx = add32 m.sec_tx messages;
  sec_tx_bytes = add32 m.sec_tx_bytes bytes;
}

unfoldable pub add_poll : Metrics → Bool → ℕ → Metrics
add_poll m hit raw_bytes =
    let polled = record m { rx_polls = add32 m.rx_polls 1 } in
    if hit
    then record polled {
      rx_hits = add32 m.rx_hits 1;
      rx_raw_bytes = add32 m.rx_raw_bytes raw_bytes;
    }
    else polled

-- The number that bytes stand for, the highest first.
abbrev pub of_be_bytes : ℕ → List ℕ → ℕ
of_be_bytes acc [] = acc
of_be_bytes acc (b ∷ bs) = of_be_bytes (acc * 256 + b) bs

-- The counters after a message of so many bytes, before its sequence number is looked at.
abbrev pub count_received : Metrics → ℕ → Metrics
count_received m length = record m {
  messages_received = add32 m.messages_received 1;
  bytes_received = add32 m.bytes_received (add32 length 4);
  sec_rx = add32 m.sec_rx 1;
  sec_rx_bytes = add32 m.sec_rx_bytes (add32 length 4);
}

-- What is counted of a sequence number that comes after another.
abbrev pub classify : Metrics → ℕ → ℕ → Metrics
classify m last seq =
    let expected = add64 last 1 in
    let gap = if ltb expected seq then sub64 seq expected else 1 in
    if seq == expected
    then m
    else if seq == last
    then record m { rx_duplicates = add32 m.rx_duplicates 1 }
    else if ltb seq last && ltb (sub64 last seq) 1000
    then record m { rx_out_of_order = add32 m.rx_out_of_order 1 }
    else record m {
      rx_sequence_gaps = add32 m.rx_sequence_gaps gap;
      sec_seq_gaps = add32 m.sec_seq_gaps gap;
    }

-- A number that is higher becomes the last one, and one that is lower by more than half of the range.
abbrev pub advance : Metrics → ℕ → ℕ → Metrics
advance m last seq =
    if ltb last seq || ltb 0x7fffffffffffffff (sub64 last seq)
    then record m { rx_last_sequence = seq }
    else m

-- addReceived from the sequence number on
unfoldable pub check_sequence : Metrics → ℕ → Metrics
check_sequence m seq =
    if m.messages_received == 1
    then record m { rx_last_sequence = seq }
    else advance (classify m m.rx_last_sequence seq) m.rx_last_sequence seq

-- MetricsEngine::addReceived
unfoldable pub add_received : Metrics → List ℕ → Metrics
add_received m bytes =
    let counted = count_received m (length bytes) in
    if leb 8 (length bytes) then check_sequence counted (of_be_bytes 0 (take 8 bytes)) else counted

abbrev pub add_decode_failure : Metrics → Metrics
add_decode_failure m = record m { rx_decode_failures = add32 m.rx_decode_failures 1 }

-- RateCounters, and drainPerSecondCounters
pub record RateCounters : Type 0 where
  pub tx : ℕ
  pub tx_bytes : ℕ
  pub rx : ℕ
  pub rx_bytes : ℕ
  pub seq_gaps : ℕ

abbrev pub drain_per_second_counters : Metrics → RateCounters × Metrics
drain_per_second_counters m = (
  record {
    tx = m.sec_tx;
    tx_bytes = m.sec_tx_bytes;
    rx = m.sec_rx;
    rx_bytes = m.sec_rx_bytes;
    seq_gaps = m.sec_seq_gaps;
  },
  record m { sec_tx = 0; sec_tx_bytes = 0; sec_rx = 0; sec_rx_bytes = 0; sec_seq_gaps = 0 },
)

-- BandwidthSnapshot, which is the counters and the time since the start
abbrev pub snapshot : Metrics → ℕ → Metrics × ℕ
snapshot m now = (m, now - m.start_time)
