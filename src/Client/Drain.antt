-- ===== src/Client/Drain.antt =====
-- drainRxFrames on a ring that holds packets.
use i_can.Common.{
  ℕ, zero, suc, ◌+◌, ◌≤◌, ◌<◌, ◌≡◌, sym, subst, ap, ap₂, ◌∙◌, true, false, Option, none, some, List,
  [], ◌∷◌, ◌++◌, length, length-append, arith, All, if◌then◌else◌, Bool-cases, inl, inr,
  le→ltb-false, ◌==◌, take, drop, take-append,
}
use i_can.Common.Words.{add32, sub32, le_bytes, of_le_bytes}
use i_can.Common.Outcome.{ok}
use i_can.Can.{Packet, IsPacket}
use i_can.Can.Layout.{frame_of_bytes-frame_bytes}
use i_can.Ring.{Header, ring_magic, read_at}
use i_can.Ring.Queue.{IsCapacity, Holds, used-Holds, slice-Holds, pop-Holds}
use i_can.Ring.Receive.{rx_entry, rx_entries, HoldsPackets, length-rx_entry, length-rx_entries}
use i_can.Client.Readers.{ReaderSlot, fan_out_packet}
use i_can.Client.Frames.{
  Client, usable, deliver, rx_frame, read_rx_entry, channel_of, Drained, drain_loop, drain_on,
  drain_rx_frames,
}

-- The packets of a list go to the readers one by one, each to those of its channel.
abbrev pub deliver_all : List Packet → List ReaderSlot → List ReaderSlot
deliver_all [] readers = readers
deliver_all (p ∷ ps) readers = deliver_all ps (fan_out_packet p (channel_of p) readers)

take-length_append {ℓ} :
    {A : Type ℓ} (n : ℕ) (xs ys : List A) → length xs ≡ n → take n (xs ++ ys) ≡ xs
take-length_append n xs ys e = ap (λ k. take k (xs ++ ys)) (sym e) ∙ take-append xs ys

-- One round on a ring whose first entry is that of a packet.
read_rx_entry_front :
    (h : Header) (g : IsCapacity h.rx_capacity) (head tail : ℕ) (p : Packet) (rest : List ℕ)
    → IsPacket p
    → Holds 0 h.rx_capacity h.bytes (record { head = head; tail = tail }) (rx_entry p ++ rest)
    → read_rx_entry h head tail ≡ ok (deliver p 82)
unfolding read_rx_entry rx_frame
read_rx_entry_front h g head tail p rest v q =
    rw
      (
        le→ltb-false (sub32 head tail) 10 (omega (arith, avail)),
        at 0 2 (omega (arith, long)),
        le→ltb-false (sub32 head tail) 82 (omega (arith, avail)),
        at 2 8 (omega (arith, long)),
        at 10 72 (omega (arith, long)),
        take-length_append 64 p.frame.payload rest v.frame_ok.payload_size,
      )
      (ap₂ (λ t f. ok (deliver (record { timestamp_us = t; frame = f }) 82)) time
        (frame_of_bytes-frame_bytes p.frame v.frame_ok))
  where
    time : of_le_bytes (le_bytes 8 p.timestamp_us) ≡ p.timestamp_us
    time = let t = v.time_fits in omega arith

    long : length (rx_entry p ++ rest) ≡ 82 + length rest
    long = omega (arith, length-append (rx_entry p) rest, length-rx_entry p v)

    avail : sub32 head tail ≡ 82 + length rest
    avail = (used-Holds g q).0 ∙ long

    at :
        (off n : ℕ)
        → off + n ≤ length (rx_entry p ++ rest)
        → read_at 0 h.rx_capacity h.bytes tail off n ≡ take n (drop off (rx_entry p ++ rest))
    at off n l = slice-Holds g (rx_entry p ++ rest) off n q l

-- The whole loop on a ring of whole entries.
drain_loop_lem :
    (fuel : ℕ) (h : Header) (g : IsCapacity h.rx_capacity) (head : ℕ) (s : Drained)
    (ps : List Packet)
    → All IsPacket ps
    → Holds 0 h.rx_capacity h.bytes (record { head = head; tail = s.tail }) (rx_entries ps)
    → length ps < fuel
    → drain_loop fuel h head s
      ≡ ok (record { tail = head; readers = deliver_all ps s.readers; count = s.count + length ps })
unfolding drain_loop
drain_loop_lem zero h g head s ps vs q l = absurd (omega arith)
drain_loop_lem (suc fuel) h g head s [] vs q l =
    rw at_end
      (ap₂ (λ t n. ok (record { tail = t; readers = s.readers; count = n })) same (omega arith))
  where
    same : s.tail ≡ head
    same = omega (arith, q.head_is, q.tail_fits)

    at_end : (head == s.tail) ≡ true
    at_end = ground (arith, same)
drain_loop_lem (suc fuel) h g head s (p ∷ ps) vs q l =
    rw (more, read_rx_entry_front h g head s.tail p (rx_entries ps) vs.0 q)
      (drain_loop_lem fuel h g head
          (record {
            tail = add32 s.tail 82;
            readers = fan_out_packet p (channel_of p) s.readers;
            count = s.count + 1;
          })
          ps vs.1
          (subst
            (λ n.
              Holds 0 h.rx_capacity h.bytes (record { head = head; tail = add32 s.tail n })
                (rx_entries ps))
            (length-rx_entry p vs.0) (pop-Holds g (rx_entry p) (rx_entries ps) q))
          (omega arith)
        ∙ ap
            (λ n. ok (record {
              tail = head;
              readers = deliver_all ps (fan_out_packet p (channel_of p) s.readers);
              count = n;
            }))
            (omega arith))
  where
    more : (head == s.tail) ≡ false
    more = ground (
      arith,
      (used-Holds g q).0,
      length-append (rx_entry p) (rx_entries ps),
      length-rx_entry p vs.0,
    )

usable_inv : (o : Option Header) (h : Header) → usable o ≡ some h → o ≡ some h
usable_inv none h e = e
usable_inv (some h') h e = elim (Bool-cases (h'.magic == ring_magic)) [
  | inl good ↦ sym (ap (λ b. if b then some h' else none) good) ∙ e
  | inr bad ↦ absurd_none (sym (ap (λ b. if b then some h' else none) bad) ∙ e)
]
  where
    absurd_none : none ≡ some h → some h' ≡ some h
    absurd_none x = cc

-- drainRxFrames on an RX ring that holds the packets `ps`: every packet is delivered, in order, to
-- the readers of its channel, the count is theirs, and the tail has caught up with the head.
pub drain_rx_frames_lem :
    (c : Client) (h : Header) (ps : List Packet)
    → usable c.ring_header ≡ some h
    → IsCapacity h.rx_capacity
    → HoldsPackets 0 h ps
    → drain_rx_frames c
      ≡ ok (
        record c {
          ring_header = some (record h { rx = record { head = h.rx.head; tail = h.rx.head } });
          readers = deliver_all ps c.readers;
        },
        length ps,
      )
unfolding drain_rx_frames
drain_rx_frames_lem c h ps e g q = ap (drain_on c) e ∙ by_packets ps q
  where
    enough : (l : List Packet) → HoldsPackets 0 h l → length l < suc (sub32 h.rx.head h.rx.tail)
    enough l r = omega (arith, (used-Holds g r.bytes).0, length-rx_entries l r.packets)

    by_packets :
        (l : List Packet)
        → HoldsPackets 0 h l
        → drain_on c (some h)
          ≡ ok (
            record c {
              ring_header = some (record h { rx = record { head = h.rx.head; tail = h.rx.head } });
              readers = deliver_all l c.readers;
            },
            length l,
          )
    by_packets [] r =
        let same : h.rx.head ≡ h.rx.tail = omega (arith, r.bytes.head_is, r.bytes.tail_fits) in
        let at_end : (h.rx.head == h.rx.tail) ≡ true = ground arith in
        rw at_end (
          ap (λ o. ok (record c { ring_header = o }, 0)) (usable_inv c.ring_header h e)
          ∙ ap
              (λ t. ok (
                record c {
                  ring_header = some (record h { rx = record { head = h.rx.head; tail = t } });
                },
                0,
              ))
              (sym same))
    by_packets (p ∷ l) r =
        let some_left : length l < sub32 h.rx.head h.rx.tail =
          omega (arith, (used-Holds g r.bytes).0, length-rx_entries (p ∷ l) r.packets) in
        let more : (h.rx.head == h.rx.tail) ≡ false = ground arith in
        rw
          (
            more,
            drain_loop_lem (suc (sub32 h.rx.head h.rx.tail)) h g h.rx.head
                (record { tail = h.rx.tail; readers = c.readers; count = 0 }) (p ∷ l) r.packets
                r.bytes (enough (p ∷ l) r),
          )
          (ap
            (λ n. ok (
              record c {
                ring_header =
                    some (record h { rx = record { head = h.rx.head; tail = h.rx.head } });
                readers = deliver_all (p ∷ l) c.readers;
              },
              n,
            ))
            (omega arith))
