-- ===== src/Dashboard.antt =====
-- ican/perf/DashboardMetricsEngine.cpp: what the reader thread makes of the packets of a batch, and
-- what the user interface reads. Times are in nanoseconds.
use i_can.Common.{
  ℕ, zero, suc, ◌+◌, ◌-◌, ◌*◌, ◌%◌, ◌^◌, Bool, true, false, not, ◌&&◌, List, [], ◌∷◌, ◌++◌, ltb,
  leb, ◌==◌, if◌then◌else◌, length, take, replicate,
}
use i_can.Common.Words.{add32, add64, sub32}
use i_can.Can.{Packet, is_eff}
pub mod Histogram
pub mod Recent
mod Tests

abbrev pub max_recent_frames : ℕ
max_recent_frames = 200

abbrev pub batch_size : ℕ
batch_size = 256

-- ParsedFrame, which has the fields of RecentFrame
pub record ParsedFrame : Type 0 where
  pub raw_id : ℕ
  pub len : ℕ
  pub flags : ℕ
  pub channel : ℕ
  pub is_extended : Bool
  pub timestamp_us : ℕ
  pub bytes : List ℕ

-- The frame of a packet, parsed outside the lock.
unfoldable pub parse : Packet → ParsedFrame
parse p =
    let f = p.frame in
    let clamped_len = if leb f.len 64 then f.len else 64 in
    record {
      raw_id = f.can_id % 2 ^ 29;
      len = clamped_len;
      flags = f.flags;
      channel = f.res0;
      is_extended = is_eff f.can_id;
      timestamp_us = p.timestamp_us;
      bytes = take clamped_len f.payload ++ replicate (64 - clamped_len) 0;
    }

-- IdInfo, with the id that it is kept under
pub record IdInfo : Type 0 where
  pub raw_id : ℕ
  pub count : ℕ
  pub is_extended : Bool
  pub last_seen_us : ℕ

-- The state that the reader thread changes.
pub record Dashboard : Type 0 where
  pub total_messages : ℕ
  pub total_bytes : ℕ
  pub sec_messages : ℕ
  pub sec_bytes : ℕ
  pub last_tx_count : ℕ
  pub sec_tx : ℕ
  pub start_time : ℕ
  pub id_counts : List IdInfo
  pub recent_buf : ℕ → ParsedFrame
  pub recent_head : ℕ
  pub recent_count : ℕ

-- `idCounts[p.rawId]`, which is made where it is missing, and the update of its fields
unfoldable pub count_id : List IdInfo → ParsedFrame → List IdInfo
count_id [] p =
    record {
      raw_id = p.raw_id;
      count = 1;
      is_extended = p.is_extended;
      last_seen_us = p.timestamp_us;
    }
    ∷ []
count_id (e ∷ es) p =
    let rest = count_id es p in
    if e.raw_id == p.raw_id
    then record e {
      count = add32 e.count 1;
      is_extended = p.is_extended;
      last_seen_us = p.timestamp_us;
    }
      ∷ es
    else e ∷ rest

-- The frame's place in the circular buffer.
abbrev pub keep_recent : Dashboard → ParsedFrame → Dashboard
keep_recent d p = record d {
  recent_buf = λ i. if i == d.recent_head then p else d.recent_buf i;
  recent_head = (d.recent_head + 1) % max_recent_frames;
  recent_count =
      if ltb d.recent_count max_recent_frames then d.recent_count + 1 else d.recent_count;
}

-- The updates under the lock, for one frame.
abbrev pub note_frame : Dashboard → ParsedFrame → Dashboard
note_frame d p = keep_recent (record d { id_counts = count_id d.id_counts p }) p

abbrev pub note_frames : Dashboard → List ParsedFrame → Dashboard
note_frames d [] = d
note_frames d (p ∷ ps) = note_frames (note_frame d p) ps

abbrev pub parse_all : List Packet → List ParsedFrame
parse_all [] = []
parse_all (p ∷ ps) = parse p ∷ parse_all ps

-- `batchBytes`
abbrev pub batch_bytes : List ParsedFrame → ℕ
batch_bytes [] = 0
batch_bytes (p ∷ ps) = p.len + 4 + batch_bytes ps

-- A round of readerLoop on the packets that were read. A batch has 256 packets at most, so the
-- count of its bytes does not wrap.
unfoldable pub reader_round : Dashboard → List Packet → Dashboard
reader_round d packets =
    let parsed = parse_all packets in
    let counted = record d {
      total_messages = add64 d.total_messages (length packets);
      total_bytes = add64 d.total_bytes (batch_bytes parsed);
      sec_messages = add32 d.sec_messages (length packets);
      sec_bytes = add32 d.sec_bytes (batch_bytes parsed);
    } in
    note_frames counted parsed

-- DashboardMetricsEngine::drainRateCounters
pub record RateCounters : Type 0 where
  pub messages : ℕ
  pub bytes : ℕ
  pub tx_messages : ℕ

abbrev pub drain_rate_counters : Dashboard → RateCounters × Dashboard
drain_rate_counters d = (
  record { messages = d.sec_messages; bytes = d.sec_bytes; tx_messages = d.sec_tx },
  record d { sec_messages = 0; sec_bytes = 0; sec_tx = 0 },
)

-- DashboardMetricsEngine::reset, at a time and for a client that wrote so many frames
abbrev pub reset : Dashboard → ℕ → ℕ → Dashboard
reset d now tx_count = record d {
  total_messages = 0;
  total_bytes = 0;
  sec_messages = 0;
  sec_bytes = 0;
  sec_tx = 0;
  last_tx_count = tx_count;
  start_time = now;
  id_counts = [];
  recent_head = 0;
  recent_count = 0;
}

-- What snapshot notes of the frames that the client wrote.
unfoldable pub sample_tx : Dashboard → ℕ → Dashboard
sample_tx d current_tx =
    let tx_delta = if leb d.last_tx_count current_tx then current_tx - d.last_tx_count else 0 in
    record d { sec_tx = add32 d.sec_tx tx_delta; last_tx_count = current_tx }

-- The ids of snapshot that were seen in the last 30 seconds, at a time in microseconds.
abbrev pub rx_unique_ids_30s : List IdInfo → ℕ → ℕ
rx_unique_ids_30s [] now_us = 0
rx_unique_ids_30s (e ∷ es) now_us =
    (if leb e.last_seen_us now_us && ltb (now_us - e.last_seen_us) 30000000 then 1 else 0)
    + rx_unique_ids_30s es now_us

-- `recentFrames` of snapshot from the `i`th on, newest first, of which `n` are left.
unfoldable pub recent_from : ℕ → Dashboard → ℕ → List ParsedFrame
recent_from zero d i = []
recent_from (suc n) d i =
    d.recent_buf ((d.recent_head + max_recent_frames - 1 - i) % max_recent_frames)
    ∷ recent_from n d (i + 1)

abbrev pub recent_frames : Dashboard → List ParsedFrame
recent_frames d = recent_from d.recent_count d 0
