-- ===== src/Client/Fifo.antt =====
-- A reader slot is a bounded queue of packets; registration hands out free slots.
use i_can.Common.{
  ℕ, zero, suc, ◌+◌, ◌%◌, ◌≤◌, ◌<◌, ◌≡◌, ◌≢◌, refl, ap, ap₂, ◌∙◌, true, false, not, ◌&&◌, ◌||◌,
  Option, none, some, List, [], ◌∷◌, ◌++◌, length, length-append, arith, ltb, ◌==◌, if◌then◌else◌,
  Bool-cases, inl, inr, ◌⊎◌, get_elem?, set, take, All, ltb→lt, ltb-false→le,
}
use i_can.Can.{Packet}
use i_can.Client.Readers.{
  ReaderSlot, read_packet, offer, on_channel, update, register_reader, register_from, fresh,
}

-- The `n` packets from slot position `t` on.
abbrev window : (ℕ → Packet) → ℕ → ℕ → List Packet
window fifo t zero = []
window fifo t (suc n) = fifo t ∷ window fifo ((t + 1) % 2048) n

-- The slot holds the packets `ps`, oldest first. It is full at 2047: one place stays free.
pub record Queued (r : ReaderSlot) (ps : List Packet) : Type 0 where
  pub tail_in : r.tail < 2048
  pub bounded : length ps ≤ 2047
  pub head_at : r.head ≡ (r.tail + length ps) % 2048
  pub stored : window r.fifo r.tail (length ps) ≡ ps

-- A place that is behind the window is not read.
window-update :
    (fifo : ℕ → Packet) (p : Packet) (t n d i : ℕ)
    → t < 2048
    → n + d < 2048
    → i ≡ (t + n + d) % 2048
    → window (update fifo i p) t n ≡ window fifo t n
window-update fifo p t zero d i h k e = refl
window-update fifo p t (suc n) d i h k e =
    ap₂ ◌∷◌ here
      (window-update fifo p ((t + 1) % 2048) n d i (omega arith) (omega arith) (omega arith))
  where
    here : update fifo i p t ≡ fifo t
    here = let ne : t ≢ i = omega arith in ground arith

window-snoc :
    (fifo : ℕ → Packet) (t n i : ℕ)
    → t < 2048
    → i ≡ (t + n) % 2048
    → window fifo t (suc n) ≡ window fifo t n ++ (fifo i ∷ [])
window-snoc fifo t zero i h e = ap (λ k. fifo k ∷ []) (omega arith)
window-snoc fifo t (suc n) i h e =
    ap (λ l. fifo t ∷ l) (window-snoc fifo ((t + 1) % 2048) n i (omega arith) (omega arith))

-- The new place is the last of the longer window.
window-push :
    (fifo : ℕ → Packet) (p : Packet) (t n i : ℕ)
    → t < 2048
    → n < 2047
    → i ≡ (t + n) % 2048
    → window (update fifo i p) t (suc n) ≡ window fifo t n ++ (p ∷ [])
window-push fifo p t n i h k e =
    window-snoc (update fifo i p) t n i h e
    ∙ ap₂ ◌++◌ (window-update fifo p t n 0 i h (omega arith) (omega arith)) (ap (λ x. x ∷ []) here)
  where
    here : update fifo i p i ≡ p
    here = ground arith

-- readPacketFromReader on a slot that holds `ps`: it returns the oldest packet and leaves the
-- others, or returns nothing and changes nothing if there is none.
pub read_packet_lem :
    (r : ReaderSlot) (ps : List Packet)
    → Queued r ps
    → (ps ≡ []) × (read_packet r ≡ (none, r))
      ⊎ ((p : Packet) × (qs : List Packet) × (ps ≡ p ∷ qs)
          × ((read_packet r).0 ≡ some p)
          × Queued (read_packet r).1 qs)
unfolding read_packet
read_packet_lem r [] q = inl (refl, ground (arith, q.head_at, q.tail_in))
read_packet_lem r (p ∷ qs) q = inr (
  p,
  qs,
  refl,
  rw some_left (ap some (heads q.stored)),
  rw some_left (record {
    tail_in = omega arith;
    bounded = omega (arith, q.bounded);
    head_at = omega (arith, q.head_at);
    stored = tails q.stored;
  }),
)
  where
    some_left : (r.tail == r.head) ≡ false
    some_left = ground (arith, q.head_at, q.tail_in, q.bounded)

    heads : {a b : Packet} {as' bs : List Packet} → a ∷ as' ≡ b ∷ bs → a ≡ b
    heads e = cc

    tails : {a b : Packet} {as' bs : List Packet} → a ∷ as' ≡ b ∷ bs → as' ≡ bs
    tails e = cc

-- fanOutPacket for one reader whose slot holds `ps`: an active reader on the packet's channel gets
-- the packet behind the others, unless 2047 are waiting; for any other reader, and for a full
-- one, the queue stays as it is, and the packet is lost to it without a count.
pub offer_lem :
    (r : ReaderSlot) (ps : List Packet) (p : Packet) (channel : ℕ)
    → Queued r ps
    → Queued
        (offer p channel r)
        (if (r.active && on_channel r channel) && ltb (length ps) 2047 then ps ++ (p ∷ []) else ps)
unfolding offer
offer_lem r ps p channel q = elim (Bool-cases (r.active && on_channel r channel)) [
  | inr away ↦ rw (away, other away) q
  | inl here ↦ elim (Bool-cases (ltb (length ps) 2047)) [
    | inl room ↦
        let n : length ps < 2047 = ltb→lt (length ps) 2047 room in
        rw (here, listening here, room, next_free n)
          (record {
            tail_in = q.tail_in;
            bounded = rw length-append (omega arith);
            head_at = omega (arith, q.head_at, length-append ps (p ∷ []));
            stored =
                ap (window (update r.fifo r.head p) r.tail) (longer ps)
                ∙ window-push r.fifo p r.tail (length ps) r.head q.tail_in n q.head_at
                ∙ ap (λ l. l ++ (p ∷ [])) q.stored;
          })
    | inr full ↦ rw (here, listening here, full, no_next (ltb-false→le (length ps) 2047 full)) q
  ]
]
  where
    other :
        (r.active && on_channel r channel) ≡ false
        → (not r.active || not (on_channel r channel)) ≡ true
    other e = ground arith

    listening :
        (r.active && on_channel r channel) ≡ true
        → (not r.active || not (on_channel r channel)) ≡ false
    listening e = ground arith

    next_free : length ps < 2047 → ((r.head + 1) % 2048 == r.tail) ≡ false
    next_free n = ground (arith, q.head_at, q.tail_in)

    no_next : 2047 ≤ length ps → ((r.head + 1) % 2048 == r.tail) ≡ true
    no_next n = ground (arith, q.head_at, q.tail_in, q.bounded)

    longer : (l : List Packet) → length (l ++ (p ∷ [])) ≡ suc (length l)
    longer l = omega (arith, length-append l (p ∷ []))

fresh-Queued : (r : ReaderSlot) (channel : ℕ) → Queued (fresh r channel) []
fresh-Queued r channel = record {
  tail_in = omega arith;
  bounded = omega arith;
  head_at = refl;
  stored = refl;
}

-- What a search from slot `k` on that returned `res` has found among the slots `rs`.
abbrev Registered : ℕ → List ReaderSlot → ℕ → List ReaderSlot × Option ℕ → Type 0
Registered k rs channel res =
    ((i : ℕ) × (r : ReaderSlot) × (get_elem? rs i ≡ some r)
      × (r.active ≡ false)
      × All (λ s. s.active ≡ true) (take i rs)
      × (res ≡ (set rs i (fresh r channel), some (k + i))))
    ⊎ (All (λ s. s.active ≡ true) rs × (res ≡ (rs, none)))

register_from_lem :
    (k : ℕ) (rs : List ReaderSlot) (channel : ℕ)
    → Registered k rs channel (register_from k rs channel)
unfolding register_from
register_from_lem k [] channel = inr (tt, refl)
register_from_lem k (r ∷ rs) channel = elim (Bool-cases r.active) [
  | inr free ↦
      inl (0, r, refl, free, tt, rw free (ap (λ j. (fresh r channel ∷ rs, some j)) (omega arith)))
  | inl busy ↦ elim (register_from_lem (k + 1) rs channel) [
    | inr (all, e) ↦ inr ((busy, all), simp (busy, e))
    | inl (i, s, at, free, before, e) ↦ inl (
      suc i,
      s,
      at,
      free,
      (busy, before),
      simp (busy, e) (ap (λ j. (r ∷ set rs i (fresh s channel), some j)) (omega arith)),
    )
  ]
]

-- registerReader: it takes the first slot that is not active, with an empty FIFO for the channel,
-- and leaves the other slots alone; or all slots are active, and it changes nothing.
pub register_reader_lem :
    (rs : List ReaderSlot) (channel : ℕ)
    → ((i : ℕ) × (r : ReaderSlot) × (get_elem? rs i ≡ some r)
        × (r.active ≡ false)
        × All (λ s. s.active ≡ true) (take i rs)
        × (register_reader rs channel ≡ (set rs i (fresh r channel), some i))
        × Queued (fresh r channel) [])
      ⊎ (All (λ s. s.active ≡ true) rs × (register_reader rs channel ≡ (rs, none)))
unfolding register_reader
register_reader_lem rs channel = elim (register_from_lem 0 rs channel) [
  | inr full ↦ inr full
  | inl (i, r, at, free, before, e) ↦ inl (
    i,
    r,
    at,
    free,
    before,
    e ∙ ap (λ j. (set rs i (fresh r channel), some j)) (omega arith),
    fresh-Queued r channel,
  )
]
