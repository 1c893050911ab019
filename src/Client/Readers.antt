-- ===== src/Client/Readers.antt =====
-- The reader slots of CANClientImpl. Each is a FIFO of packets with its own positions.
use i_can.Common.{
  ℕ, ◌+◌, ◌%◌, Bool, true, false, not, ◌||◌, Option, none, some, List, [], ◌∷◌, map, ◌==◌,
  if◌then◌else◌, set, get_elem?,
}
use i_can.Common.Words.{add32}
use i_can.Can.{Packet}

-- kFrameFifoSize, kMaxChannels and kMaxReaders
abbrev pub frame_fifo_size : ℕ
frame_fifo_size = 2048

abbrev pub max_channels : ℕ
max_channels = 2

abbrev pub max_readers : ℕ
max_readers = 8

-- `struct ReaderSlot`; a channel of -1 is `none`.
pub record ReaderSlot : Type 0 where
  pub fifo : ℕ → Packet
  pub head : ℕ
  pub tail : ℕ
  pub epoch : ℕ
  pub channel : Option ℕ
  pub active : Bool

-- What registerReader stores in the first free slot.
abbrev pub fresh : ReaderSlot → ℕ → ReaderSlot
fresh r channel = record r { active = true; channel = some channel; head = 0; tail = 0; epoch = 0 }

-- The loop of registerReader from slot `i` on; -1 is `none`.
unfoldable pub register_from : ℕ → List ReaderSlot → ℕ → List ReaderSlot × Option ℕ
register_from i [] channel = ([], none)
register_from i (r ∷ rs) channel =
    let (rest, found) = register_from (i + 1) rs channel in
    if r.active then (r ∷ rest, found) else (fresh r channel ∷ rs, some i)

unfoldable pub register_reader : List ReaderSlot → ℕ → List ReaderSlot × Option ℕ
unfolding register_from
register_reader readers channel = register_from 0 readers channel

abbrev pub release : ReaderSlot → ReaderSlot
release r = record r { active = false; channel = none }

unfoldable pub unregister_reader : List ReaderSlot → ℕ → List ReaderSlot
unregister_reader readers idx = elim (get_elem? readers idx) [
  | none ↦ readers
  | some r ↦ set readers idx (release r)
]

-- The part of readPacketFromReader that comes after the choice of the slot.
unfoldable pub read_packet : ReaderSlot → Option Packet × ReaderSlot
read_packet r =
    if r.tail == r.head
    then (none, r)
    else (some (r.fifo r.tail), record r { tail = (r.tail + 1) % frame_fifo_size })

-- readPacketFromReader; the readers are as many as kMaxReaders.
unfoldable pub read_packet_from_reader : List ReaderSlot → ℕ → Option Packet × List ReaderSlot
read_packet_from_reader readers id = elim (get_elem? readers id) [
  | none ↦ (none, readers)
  | some r ↦ let (p, r') = read_packet r in (p, set readers id r')
]

abbrev pub update : (ℕ → Packet) → ℕ → Packet → ℕ → Packet
update fifo i p j = if j == i then p else fifo j

abbrev pub on_channel : ReaderSlot → ℕ → Bool
on_channel r channel = elim r.channel [ none ↦ false | some c ↦ c == channel ]

-- The body of fanOutPacket for one reader.
unfoldable pub offer : Packet → ℕ → ReaderSlot → ReaderSlot
offer p channel r =
    let next = (r.head + 1) % frame_fifo_size in
    if not r.active || not (on_channel r channel)
    then r
    else if next == r.tail
    then r
    else record r { fifo = update r.fifo r.head p; head = next; epoch = add32 r.epoch 1 }

unfoldable pub fan_out_packet : Packet → ℕ → List ReaderSlot → List ReaderSlot
fan_out_packet p channel readers = map (offer p channel) readers
