-- ===== src/Client/Frames.antt =====
-- drainRxFrames and writeTxFrame of CANClientImpl, and the public calls that write a frame.
use i_can.Common.{
  ℕ, zero, suc, ◌+◌, ◌/◌, ◌%◌, Bool, true, false, not, ◌&&◌, Option, none, some, List, [], ◌∷◌, ltb,
  leb, ◌==◌, if◌then◌else◌, set, get_or,
}
use i_can.Common.Words.{add32, sub32, of_le_bytes}
use i_can.Common.Outcome.{Outcome, ok, stuck, ◌>>=◌}
use i_can.Can.{Frame, Packet, can_mtu, canfd_mtu, frame_bytes, frame_of_bytes}
use i_can.Ring.{Header, RingCtrl, ring_magic, tx0_base, tx1_base, write_at, read_at, classic_frame}
use i_can.Client.Readers.{ReaderSlot, max_channels, fan_out_packet}

-- The state of CANClientImpl that frames go through; `ring_header` is the mapped memory, with
-- `none` for the null pointer, and the two counters are arrays with an entry for each channel.
pub record Client : Type 0 where
  pub ring_header : Option Header
  pub readers : List ReaderSlot
  pub tx_write_count : List ℕ
  pub tx_writer_count : List ℕ

-- `ringHeader->magic != SHARED_RING_MAGIC` makes the header as good as absent.
abbrev pub usable : Option Header → Option Header
usable none = none
usable (some h) = if h.magic == ring_magic then some h else none

-- One round of the loop of drainRxFrames: it leaves the loop, skips an entry of so many bytes, or
-- delivers the packet of an entry of so many bytes.
pub data RxStep : Type 0 where
  stop : RxStep
  skip : ℕ → RxStep
  deliver : Packet → ℕ → RxStep

-- The frame in an entry of one of the two sizes that pass the test.
unfoldable pub rx_frame : ℕ → List ℕ → Outcome Frame
rx_frame size buf =
    if size == can_mtu then classic_frame buf (get_or buf 6 0) else ok (frame_of_bytes buf)

unfoldable pub read_rx_entry : Header → ℕ → ℕ → Outcome RxStep
read_rx_entry h head tail =
    let cap = h.rx_capacity in
    let avail = sub32 head tail in
    let frame_size = of_le_bytes (read_at 0 cap h.bytes tail 0 2) in
    let entry_size = 2 + 8 + frame_size in
    let timestamp_us = of_le_bytes (read_at 0 cap h.bytes tail 2 8) in
    if ltb avail 10
    then ok stop
    else if ltb avail entry_size
    then ok stop
    else if not (frame_size == can_mtu) && not (frame_size == canfd_mtu)
    then ok (skip entry_size)
    else (rx_frame frame_size (read_at 0 cap h.bytes tail 10 frame_size) >>= λ f.
        ok (deliver (record { timestamp_us = timestamp_us; frame = f }) entry_size))

-- CAN_CHANNEL of a frame, with channel 0 for a number that is no channel.
abbrev pub channel_of : Packet → ℕ
channel_of p = if ltb p.frame.res0 max_channels then p.frame.res0 else 0

-- Where the loop stands: its `tail`, the readers, and its `count`.
pub record Drained : Type 0 where
  pub tail : ℕ
  pub readers : List ReaderSlot
  pub count : ℕ

-- How a round goes on, with `again` for the rest of the loop.
abbrev pub drain_next : (Drained → Outcome Drained) → Drained → RxStep → Outcome Drained
drain_next again s stop = ok s
drain_next again s (skip n) = again (record s { tail = add32 s.tail n })
drain_next again s (deliver p n) = again (record {
  tail = add32 s.tail n;
  readers = fan_out_packet p (channel_of p) s.readers;
  count = s.count + 1;
})

unfoldable pub drain_loop : ℕ → Header → ℕ → Drained → Outcome Drained
drain_loop zero h head s = stuck
drain_loop (suc fuel) h head s =
    let round = read_rx_entry h head s.tail >>= drain_next (drain_loop fuel h head) s in
    if head == s.tail then ok s else round

-- A round takes 10 bytes at least, so one round more than the stored bytes is enough.
abbrev pub drain_on : Client → Option Header → Outcome (Client × ℕ)
drain_on c none = ok (c, 0)
drain_on c (some h) =
    if h.rx.head == h.rx.tail
    then ok (c, 0)
    else (drain_loop (suc (sub32 h.rx.head h.rx.tail)) h h.rx.head
          (record { tail = h.rx.tail; readers = c.readers; count = 0 })
        >>= λ s. ok (
          record c {
            ring_header = some (record h { rx = record { head = h.rx.head; tail = s.tail } });
            readers = s.readers;
          },
          s.count,
        ))

unfoldable pub drain_rx_frames : Client → Outcome (Client × ℕ)
drain_rx_frames c = drain_on c (usable c.ring_header)

-- Which TX ring a channel writes to: whether it is tx1.
abbrev pub uses_tx1 : Header → ℕ → Bool
uses_tx1 h channel = channel == 1 && leb 2 h.channel_count && ltb 0 h.tx1_capacity

-- The array of a ring and its control after an entry was written; `none` if it does not fit.
unfoldable pub enqueue : ℕ → ℕ → (ℕ → ℕ) → RingCtrl → Frame → Option ((ℕ → ℕ) × RingCtrl)
enqueue base cap m c f =
    let frame_size = canfd_mtu in
    let entry_size : ℕ = 2 + frame_size in
    let free = sub32 cap (sub32 c.head c.tail) in
    let m0 = write_at base cap c.head 0 (frame_size % 256 ∷ frame_size / 256 ∷ []) m in
    if ltb free entry_size
    then none
    else some (
      write_at base cap c.head 2 (frame_bytes f) m0,
      record { head = add32 c.head entry_size; tail = c.tail },
    )

-- `txWriteCount[channel].fetch_add(1)`, for a channel in range
abbrev pub count_write : List ℕ → ℕ → List ℕ
count_write counts channel =
    if ltb channel max_channels
    then set counts channel (add32 (get_or counts channel 0) 1)
    else counts

-- The header with the ring after a write.
abbrev pub place_tx0 : Header → Option ((ℕ → ℕ) × RingCtrl) → Option Header
place_tx0 h none = none
place_tx0 h (some (m, c)) = some (record h { bytes = m; tx0 = c })

abbrev pub place_tx1 : Header → Option ((ℕ → ℕ) × RingCtrl) → Option Header
place_tx1 h none = none
place_tx1 h (some (m, c)) = some (record h { bytes = m; tx1 = c })

abbrev pub enqueue_tx : Header → ℕ → Frame → Option Header
enqueue_tx h channel f =
    if uses_tx1 h channel
    then place_tx1 h (enqueue (tx1_base h) h.tx1_capacity h.bytes h.tx1 f)
    else place_tx0 h (enqueue (tx0_base h) h.tx0_capacity h.bytes h.tx0 f)

-- How writeTxFrame ends, on a ring that took the frame or did not.
unfoldable pub finish_write : Client → ℕ → Option Header → Client × Bool
finish_write c channel none = (c, false)
finish_write c channel (some h) =
    (record c { ring_header = some h; tx_write_count = count_write c.tx_write_count channel }, true)

-- writeTxFrame on the header that it found usable, if any.
abbrev pub write_on : Client → Frame → ℕ → Option Header → Client × Bool
write_on c f channel none = (c, false)
write_on c f channel (some h) = finish_write c channel (enqueue_tx h channel f)

unfoldable pub write_tx_frame : Client → Frame → ℕ → Client × Bool
unfolding finish_write
write_tx_frame c f channel = write_on c f channel (usable c.ring_header)
