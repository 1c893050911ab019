-- ===== src/Ring/Io.antt =====
-- The functions of shared_ring_io.h.
use i_can.Common.{
  ℕ, ◌+◌, ◌/◌, ◌%◌, Bool, true, false, not, ◌&&◌, List, [], ◌∷◌, ltb, leb, ◌==◌, if◌then◌else◌,
  take, drop, get_or, replicate,
}
use i_can.Common.Words.{add32, sub32, le_bytes, of_le_bytes}
use i_can.Common.Outcome.{Outcome, ok, undefined, ◌>>=◌}
use i_can.Can.{Frame, can_mtu, canfd_mtu, can_max_dlen, frame_bytes, frame_of_bytes, memcpy}
use i_can.Ring.Memory.{Header, RingCtrl, tx0_base, write_at, read_at}

-- A `canfd_frame` after memset to 0.
abbrev pub zero_frame : Frame
zero_frame = record { can_id = 0; len = 0; flags = 0; res0 = 0; res1 = 0; payload = replicate 64 0 }

-- The frame built from the 16 bytes of a `can_frame`. The code copies `cf->len` bytes of payload
-- with no test of `len`; beyond 8 they were never read from the ring.
unfoldable pub classic_frame : List ℕ → ℕ → Outcome Frame
classic_frame buf channel =
    let len = get_or buf 4 0 in
    if leb len can_max_dlen
    then ok (record zero_frame {
      can_id = of_le_bytes (take 4 buf);
      len = len;
      res0 = channel;
      payload = memcpy (replicate 64 0) (drop 8 buf) len;
    })
    else undefined

-- shared_ring::writeRxFrame: the driver's side of the RX ring, whose data starts at `base`.
unfoldable pub write_rx_frame : Header → ℕ → Frame → ℕ → Header × Bool
write_rx_frame h base f timestamp_us =
    let entry_size : ℕ = 2 + 8 + canfd_mtu in
    let cap = h.rx_capacity in
    let head = h.rx.head in
    let rx_free = sub32 cap (sub32 head h.rx.tail) in
    let m0 = write_at base cap head 0 (canfd_mtu % 256 ∷ canfd_mtu / 256 ∷ []) h.bytes in
    let m1 = write_at base cap head 2 (le_bytes 8 timestamp_us) m0 in
    let m2 = write_at base cap head 10 (frame_bytes f) m1 in
    if ltb rx_free entry_size then (record h { rx_dropped = add32 h.rx_dropped 1 }, false) else (
      record h {
        bytes = m2;
        rx = record { head = add32 head entry_size; tail = h.rx.tail };
        rx_produce_count = add32 h.rx_produce_count 1;
      },
      true,
    )

-- `struct TxReadResult`
pub record TxReadResult : Type 0 where
  pub valid : Bool
  pub dropped : Bool
  pub frame : Frame
  pub bytes_consumed : ℕ

abbrev pub nothing_read : TxReadResult
nothing_read = record { valid = false; dropped = false; frame = zero_frame; bytes_consumed = 0 }

abbrev pub entry_dropped : ℕ → TxReadResult
entry_dropped size = record {
  valid = false;
  dropped = true;
  frame = zero_frame;
  bytes_consumed = size;
}

abbrev pub frame_read : Frame → ℕ → TxReadResult
frame_read f size = record { valid = true; dropped = false; frame = f; bytes_consumed = size }

-- The frame in an entry of one of the two sizes that pass the test.
unfoldable pub entry_frame : ℕ → List ℕ → Outcome Frame
entry_frame size buf = if size == can_mtu then classic_frame buf 0 else ok (frame_of_bytes buf)

-- shared_ring::readTxFrame, for the ring with control `ctrl` and `cap` bytes from `base` on.
unfoldable pub read_tx_frame : Header → RingCtrl → ℕ → ℕ → ℕ → Outcome (TxReadResult × Header)
read_tx_frame h ctrl base cap tail =
    let used = sub32 ctrl.head tail in
    let frame_size = of_le_bytes (read_at base cap h.bytes tail 0 2) in
    let entry_size = 2 + frame_size in
    if ltb used 2
    then ok (nothing_read, h)
    else if ltb used entry_size
    then ok (nothing_read, h)
    else if not (frame_size == can_mtu) && not (frame_size == canfd_mtu)
    then ok (entry_dropped entry_size, record h { tx_dropped = add32 h.tx_dropped 1 })
    else (entry_frame frame_size (read_at base cap h.bytes tail 2 frame_size) >>= λ f.
        ok (frame_read f entry_size, h))

-- The overload for the one ring of SLCAN and gs_usb devices, tx0.
abbrev pub read_tx0_frame : Header → ℕ → Outcome (TxReadResult × Header)
read_tx0_frame h tail = read_tx_frame h h.tx0 (tx0_base h) h.tx0_capacity tail
