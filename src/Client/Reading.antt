-- ===== src/Client/Reading.antt =====
-- The calls of class CANClient that read. The packets of one call go to the memory of the caller.
use i_can.Common.{
  ℕ, zero, suc, ◌+◌, ◌*◌, ◌/◌, ◌%◌, Bool, true, ◌&&◌, Option, none, some, List, [], ◌∷◌, ltb, ◌==◌,
  if◌then◌else◌, get_elem?,
}
use i_can.Common.Words.{u64_mod, add64}
use i_can.Common.Outcome.{Outcome, ok, undefined, stuck, ◌>>=◌}
use i_can.Can.{Packet}
use i_can.Client.Readers.{ReaderSlot, read_packet_from_reader}
use i_can.Client.Frames.{Client, drain_rx_frames}
use i_can.Client.Handles.{Handle, Heap, put, ensure_reader}

-- readPacketFromReader and readerEmpty for `_readerId`, of which -1 is `none`
abbrev pub read_from : List ReaderSlot → Option ℕ → Option Packet × List ReaderSlot
read_from readers none = (none, readers)
read_from readers (some i) = read_packet_from_reader readers i

abbrev pub reader_empty : List ReaderSlot → Option ℕ → Bool
reader_empty readers none = true
reader_empty readers (some i) = elim (get_elem? readers i) [
  | none ↦ true
  | some r ↦ r.tail == r.head
]

-- What the loop of readMany makes of a read, with what the rest of it reads.
abbrev pub collect :
    Option Packet → List ReaderSlot → List Packet × List ReaderSlot → List Packet × List ReaderSlot
collect none readers rest = ([], readers)
collect (some p) readers (ps, rest) = (p ∷ ps, rest)

-- The loop of readMany and readManyBlocking, of which `n` rounds are left.
unfoldable pub read_loop : ℕ → List ReaderSlot → Option ℕ → List Packet × List ReaderSlot
read_loop zero readers id = ([], readers)
read_loop (suc n) readers id =
    let (p, rs) = read_from readers id in collect p rs (read_loop n rs id)

-- drainIOKit for a timeout of 0, as read and readMany call it
unfoldable pub drain_iokit : Client → Outcome Client
drain_iokit c = elim c.ring_header [ none ↦ ok c | some h ↦ drain_rx_frames c >>= λ r. ok r.0 ]

abbrev pub with_readers : Client → List ReaderSlot → Client
with_readers c readers = record c { readers = readers }

-- readMany on an implementation that was found, and where `_impl` is null
abbrev pub read_some : Heap → Handle → ℕ → Option ℕ → Outcome (List Packet × Heap)
read_some heap h n none = undefined
read_some heap h n (some k) = drain_iokit (heap k) >>= λ c.
    let (ps, readers) = read_loop n c.readers h.reader_id in
    ok (ps, put heap k (with_readers c readers))

-- CANClient::readMany, for an array of packets; read does it for one packet.
unfoldable pub read_many : Heap → Handle → ℕ → Outcome (List Packet × Heap × Handle)
read_many heap h max_packets =
    let (heap', h') = ensure_reader heap h in
    if max_packets == 0
    then ok ([], heap, h)
    else (read_some heap' h' max_packets h'.impl >>= λ r. ok (r.0, r.1, h'))

abbrev pub read : Heap → Handle → Outcome (List Packet × Heap × Handle)
read heap h = read_many heap h 1

-- Time and the driver, as readManyBlocking sees them: the time base, what the clock shows first and
-- at its `n`th look after that, and what the `n`th wait for a notification does to the shared memory.
pub record Waiting : Type 0 where
  pub numer : ℕ
  pub denom : ℕ
  pub now : ℕ
  pub clock : ℕ → ℕ
  pub arrive : ℕ → Client → Client

-- nanosToAbs
abbrev pub nanos_to_abs : Waiting → ℕ → ℕ
nanos_to_abs w nanos = nanos * w.denom % u64_mod / w.numer

-- The loop of readManyBlocking from round `n` on, where no other thread waits at the same time.
unfoldable pub wait_loop : ℕ → Waiting → ℕ → ℕ → Client → Option ℕ → Outcome Client
wait_loop zero w n deadline c id = stuck
wait_loop (suc fuel) w n deadline c id =
    let again = drain_rx_frames (w.arrive n c) >>= λ r. wait_loop fuel w (n + 1) deadline r.0 id in
    if reader_empty c.readers id && ltb (w.clock n) deadline then again else ok c

-- The wait, if nothing is there and the timeout allows one.
abbrev pub wait_for : ℕ → Waiting → ℕ → Client → Option ℕ → Outcome Client
wait_for fuel w timeout_ms c id =
    let deadline = add64 w.now (nanos_to_abs w (timeout_ms * 1000000)) in
    let waited = wait_loop fuel w 0 deadline c id in
    if reader_empty c.readers id && ltb 0 timeout_ms then waited else ok c

-- The packets that are read at the end.
abbrev pub read_rest : ℕ → Option ℕ → Client → List Packet × Client
read_rest n id c = let (ps, readers) = read_loop n c.readers id in (ps, with_readers c readers)

-- CANClient::readManyBlocking on its implementation and reader slot, for up to `n` packets, where
-- the clock ends the wait within `fuel` looks.
unfoldable pub read_many_blocking :
    ℕ → Waiting → ℕ → Client → Option ℕ → ℕ → Outcome (List Packet × Client)
read_many_blocking fuel w timeout_ms c id n =
    drain_rx_frames c >>= λ r. (wait_for fuel w timeout_ms r.0 id >>= λ c'. ok (read_rest n id c'))
