-- ===== src/Client/Handles.antt =====
-- The objects of class CANClient. Each refers to a CANClientImpl, which copies share, has a channel,
-- and owns a reader slot from its first read on. The implementations are a store, and a handle has
-- the place of its own in the store.
use i_can.Common.{
  ℕ, Bool, false, ◌&&◌, Option, none, some, [], ◌∷◌, ltb, ◌==◌, if◌then◌else◌, set, get_or,
  replicate,
}
use i_can.Common.{◌≡◌, ◌≢◌}
use i_can.Common.Words.{sub32}
use i_can.Ring.{zero_frame}
use i_can.Client.Readers.{ReaderSlot, max_channels, max_readers, register_reader, unregister_reader}
use i_can.Client.Frames.{Client}

-- CANClientImpl as its constructor leaves it
abbrev pub new_slot : ReaderSlot
new_slot = record {
  fifo = λ i. record { timestamp_us = 0; frame = zero_frame };
  head = 0;
  tail = 0;
  epoch = 0;
  channel = none;
  active = false;
}

abbrev pub new_client : Client
new_client = record {
  ring_header = none;
  readers = replicate max_readers new_slot;
  tx_write_count = 0 ∷ 0 ∷ [];
  tx_writer_count = 0 ∷ 0 ∷ [];
}

-- `_impl`, `_channel`, `_readerId` and `_isTxRegistered`; the null pointer and -1 are `none`.
pub record Handle : Type 0 where
  pub impl : Option ℕ
  pub channel : ℕ
  pub reader_id : Option ℕ
  pub is_tx_registered : Bool

-- What a pointer to an implementation may find.
abbrev pub Heap : Type 0
Heap = ℕ → Client

abbrev pub put {ℓ} : {A : Type ℓ} → (ℕ → A) → ℕ → A → ℕ → A
put f k x j = if j == k then x else f j

-- `if (_readerId >= 0 && _impl) _impl->unregisterReader(_readerId)`
unfoldable pub release_at : Heap → Option ℕ → Option ℕ → Heap
release_at heap none r = heap
release_at heap (some k) none = heap
release_at heap (some k) (some i) =
    put heap k (record (heap k) { readers = unregister_reader (heap k).readers i })

abbrev pub release_reader : Heap → Handle → Heap
release_reader heap h = release_at heap h.impl h.reader_id

-- The part of the destructor that takes the writer back.
abbrev pub unregister_writer : Heap → Handle → Option ℕ → Heap
unregister_writer heap h none = heap
unregister_writer heap h (some k) =
    let c = heap k in
    if h.is_tx_registered && ltb h.channel max_channels
    then put heap k (record c {
      tx_writer_count =
          set c.tx_writer_count h.channel (sub32 (get_or c.tx_writer_count h.channel 0) 1);
    })
    else heap

-- CANClient::~CANClient
unfoldable pub destroy : Heap → Handle → Heap
destroy heap h = unregister_writer (release_reader heap h) h h.impl

-- CANClient::CANClient(), for a new implementation at `k`
abbrev pub new_handle : ℕ → Handle
new_handle k = record { impl = some k; channel = 0; reader_id = none; is_tx_registered = false }

-- CANClient::CANClient(const CANClient&)
abbrev pub copy : Handle → Handle
copy other = record {
  impl = other.impl;
  channel = other.channel;
  reader_id = none;
  is_tx_registered = false;
}

-- CANClient::operator=(const CANClient&), for another object
abbrev pub assign : Handle → Handle → Handle
assign this other = record this { impl = other.impl; channel = other.channel; reader_id = none }

-- CANClient::CANClient(CANClient&&): the new object, and the old one after it
abbrev pub move : Handle → Handle
move other = record {
  impl = other.impl;
  channel = other.channel;
  reader_id = other.reader_id;
  is_tx_registered = false;
}

abbrev pub moved_from : Handle → Handle
moved_from other = record other { impl = none; reader_id = none }

-- CANClient::operator=(CANClient&&), for another object
abbrev pub move_assign : Handle → Handle → Handle
move_assign this other = record this {
  impl = other.impl;
  channel = other.channel;
  reader_id = other.reader_id;
}

-- CANClient::ensureReader
abbrev pub ensure_at : Heap → Handle → Option ℕ → Option ℕ → Heap × Handle
ensure_at heap h (some k) none =
    let (readers, id) = register_reader (heap k).readers h.channel in
    (put heap k (record (heap k) { readers = readers }), record h { reader_id = id })
ensure_at heap h none r = (heap, h)
ensure_at heap h (some k) (some i) = (heap, h)

unfoldable pub ensure_reader : Heap → Handle → Heap × Handle
ensure_reader heap h = ensure_at heap h h.impl h.reader_id

-- The objects that are alive, by the places where they stand, and the implementations.
pub record World : Type 0 where
  pub heap : Heap
  pub handles : ℕ → Option Handle

-- What a program does with its objects, one call after another. An object is made where none stands.
pub data Step : World → World → Type 0 where
  created :
      (w : World) (v k : ℕ)
      → w.handles v ≡ none
      → ((u : ℕ) (h : Handle) → w.handles u ≡ some h → h.impl ≢ some k)
      → Step w (record {
        heap = put w.heap k new_client;
        handles = put w.handles v (some (new_handle k));
      })
  copied :
      (w : World) (v u : ℕ) (h : Handle)
      → w.handles v ≡ none
      → w.handles u ≡ some h
      → Step w (record w { handles = put w.handles v (some (copy h)) })
  moved :
      (w : World) (v u : ℕ) (h : Handle)
      → w.handles v ≡ none
      → w.handles u ≡ some h
      → Step w
          (record w { handles = put (put w.handles u (some (moved_from h))) v (some (move h)) })
  assigned :
      (w : World) (v u : ℕ) (this h : Handle)
      → v ≢ u
      → w.handles v ≡ some this
      → w.handles u ≡ some h
      → Step w (record {
        heap = release_reader w.heap this;
        handles = put w.handles v (some (assign this h));
      })
  move_assigned :
      (w : World) (v u : ℕ) (this h : Handle)
      → v ≢ u
      → w.handles v ≡ some this
      → w.handles u ≡ some h
      → Step w (record {
        heap = release_reader w.heap this;
        handles = put (put w.handles u (some (moved_from h))) v (some (move_assign this h));
      })
  channel_set :
      (w : World) (v channel : ℕ) (h : Handle)
      → w.handles v ≡ some h
      → Step w (record w { handles = put w.handles v (some (record h { channel = channel })) })
  used :
      (w : World) (v : ℕ) (h : Handle)
      → w.handles v ≡ some h
      → Step w (record {
        heap = (ensure_reader w.heap h).0;
        handles = put w.handles v (some (ensure_reader w.heap h).1);
      })
  destroyed :
      (w : World) (v : ℕ) (h : Handle)
      → w.handles v ≡ some h
      → Step w (record { heap = destroy w.heap h; handles = put w.handles v none })

-- The worlds that a program reaches from one without objects.
pub data Reached : World → Type 0 where
  empty : Reached (record { heap = λ k. new_client; handles = λ v. none })
  next : {w w' : World} → Reached w → Step w w' → Reached w'
