-- ===== src/Ring/Memory.antt =====
-- The layout of the shared memory, and single bytes of a ring.
use i_can.Common.{ℕ, zero, suc, ◌+◌, ◌%◌, List, [], ◌∷◌, ◌==◌, if◌then◌else◌}
use i_can.Common.Words.{u32_mod}

-- `hdr->data`, by the offset of a byte.
abbrev pub Memory : Type 0
Memory = ℕ → ℕ

pub record RingCtrl : Type 0 where
  pub head : ℕ
  pub tail : ℕ

-- The diagnostic counters and the debug snapshot that a codec publishes in the header.
pub record CodecCounters : Type 0 where
  pub echo_count : ℕ
  pub overrun_count : ℕ
  pub calibration_count : ℕ
  pub error_count : ℕ
  pub status_count : ℕ
  pub truncated_count : ℕ
  pub zero_sentinel_count : ℕ
  pub transfer_seq : ℕ
  pub transfer_len : ℕ
  pub msgs_parsed : ℕ
  pub zeros_hit : ℕ
  pub dbg_head : List ℕ

-- `struct SharedRingHeader`. The paddings are left out; `bytes` is the array `data[]`.
pub record Header : Type 0 where
  pub magic : ℕ
  pub layout_version : ℕ
  pub rx_capacity : ℕ
  pub tx0_capacity : ℕ
  pub rx_produce_count : ℕ
  pub rx_dropped : ℕ
  pub tx_drain_count : ℕ
  pub tx_dropped : ℕ
  pub protocol_id : ℕ
  pub channel_count : ℕ
  pub codec : CodecCounters
  pub rx : RingCtrl
  pub tx0 : RingCtrl
  pub tx1 : RingCtrl
  pub tx1_capacity : ℕ
  pub bytes : Memory

-- SHARED_RING_MAGIC, SHARED_RX_CAPACITY, SHARED_TX0_CAPACITY and SHARED_TX1_CAPACITY
abbrev pub ring_magic : ℕ
ring_magic = 0xcafecafe

abbrev pub shared_rx_capacity : ℕ
shared_rx_capacity = 262144

abbrev pub shared_tx0_capacity : ℕ
shared_tx0_capacity = 16384

abbrev pub shared_tx1_capacity : ℕ
shared_tx1_capacity = 16384

-- shared_ring_tx0_data and shared_ring_tx1_data, as offsets into `data`; the RX data is at 0.
abbrev pub tx0_base : Header → ℕ
tx0_base h = h.rx_capacity

abbrev pub tx1_base : Header → ℕ
tx1_base h = h.rx_capacity + h.tx0_capacity

unfoldable pub store : Memory → ℕ → ℕ → Memory
store m i v j = if j == i then v else m j

module _ (base cap : ℕ) where
  -- The offset of the ring's byte at `pos + off`, a sum of uint32_t.
  abbrev pub ring_index : ℕ → ℕ → ℕ
  ring_index pos off = base + (pos + off) % u32_mod % cap

  -- `for (i ...) data[(pos + off + i) % cap] = bytes[i]`
  unfoldable pub write_at : ℕ → ℕ → List ℕ → Memory → Memory
  write_at pos off [] m = m
  write_at pos off (b ∷ bs) m = write_at pos (off + 1) bs (store m (ring_index pos off) b)

  -- `for (i = 0; i < n; i++) bytes[i] = data[(pos + off + i) % cap]`
  unfoldable pub read_at : Memory → ℕ → ℕ → ℕ → List ℕ
  read_at m pos off zero = []
  read_at m pos off (suc n) = m (ring_index pos off) ∷ read_at m pos (off + 1) n
