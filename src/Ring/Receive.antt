-- ===== src/Ring/Receive.antt =====
-- writeRxFrame against the queue of packets that the RX ring holds.
use i_can.Common.{
  ℕ, ◌+◌, ◌-◌, ◌*◌, ◌≤◌, ◌<◌, ◌≡◌, refl, sym, subst, subst₂, ap, ◌∙◌, true, false, List, [], ◌∷◌,
  ◌++◌, append-nil, append_assoc, length, length-append, arith, All, All-append, ltb, Bool-cases,
  inl, inr, ◌⊎◌, ltb→lt, ltb-false→le,
}
use i_can.Common.Words.{add32, sub32, le_bytes}
use i_can.Can.{Packet, IsPacket, frame_bytes}
use i_can.Ring.Memory.{Header, write_at}
use i_can.Ring.Bytes.{write_at-append}
use i_can.Ring.Io.{write_rx_frame}
use i_can.Ring.Queue.{IsCapacity, Holds, used-Holds, push-Holds}

-- The bytes of an RX entry: a size of two bytes, the timestamp, then the frame.
abbrev pub rx_entry : Packet → List ℕ
rx_entry p = 72 ∷ 0 ∷ (le_bytes 8 p.timestamp_us ++ frame_bytes p.frame)

abbrev pub rx_entries : List Packet → List ℕ
rx_entries [] = []
rx_entries (p ∷ ps) = rx_entry p ++ rx_entries ps

-- The RX ring at `base` holds the packets `ps`, oldest first.
pub record HoldsPackets (base : ℕ) (h : Header) (ps : List Packet) : Type 0 where
  pub bytes : Holds base h.rx_capacity h.bytes h.rx (rx_entries ps)
  pub packets : All IsPacket ps

pub length-rx_entry : (p : Packet) → IsPacket p → length (rx_entry p) ≡ 82
length-rx_entry p v = let e = v.frame_ok.payload_size in omega arith

pub length-rx_entries :
    (ps : List Packet) → All IsPacket ps → length (rx_entries ps) ≡ 82 * length ps
length-rx_entries [] h = refl
length-rx_entries (p ∷ ps) (v, h) =
    omega (
      arith,
      length-append (rx_entry p) (rx_entries ps),
      length-rx_entry p v,
      length-rx_entries ps h,
    )

rx_entries-append : (ps qs : List Packet) → rx_entries (ps ++ qs) ≡ rx_entries ps ++ rx_entries qs
rx_entries-append [] qs = refl
rx_entries-append (p ∷ ps) qs =
    ap (λ t. rx_entry p ++ t) (rx_entries-append ps qs)
    ∙ sym (append_assoc (rx_entry p) (rx_entries ps) (rx_entries qs))

-- The three loops of writeRxFrame write one entry.
write_entry :
    (base cap head : ℕ) (p : Packet) (m : ℕ → ℕ)
    → write_at base cap head 10 (frame_bytes p.frame) (
        write_at base cap head 2
          (le_bytes 8 p.timestamp_us)
          (write_at base cap head 0 (72 ∷ 0 ∷ []) m))
      ≡ write_at base cap head 0 (rx_entry p) m
write_entry base cap head p m = sym (
    write_at-append base cap (72 ∷ 0 ∷ []) (le_bytes 8 p.timestamp_us ++ frame_bytes p.frame) m head
      0
    ∙ write_at-append base cap (le_bytes 8 p.timestamp_us) (frame_bytes p.frame) _ head 2)

module _ {base : ℕ} (h : Header) (g : IsCapacity h.rx_capacity) where
  -- writeRxFrame on an RX ring that holds `ps`. Either one more entry of 82 bytes does not fit, and
  -- the frame is dropped and counted and nothing else changes; or it fits, the ring holds the
  -- packet behind the others, and it is counted.
  pub write_rx_frame_lem :
      (ps : List Packet) (p : Packet)
      → HoldsPackets base h ps
      → IsPacket p
      → (h.rx_capacity < 82 * (length ps + 1))
          × (write_rx_frame h base p.frame p.timestamp_us
              ≡ (record h { rx_dropped = add32 h.rx_dropped 1 }, false))
        ⊎ (82 * (length ps + 1) ≤ h.rx_capacity)
          × (let (h', done) = write_rx_frame h base p.frame p.timestamp_us in
              (done ≡ true)
              × HoldsPackets base h' (ps ++ (p ∷ []))
              × (h'.rx_produce_count ≡ add32 h.rx_produce_count 1)
              × (h'.rx_dropped ≡ h.rx_dropped))
  unfolding write_rx_frame
  write_rx_frame_lem ps p q v = elim (Bool-cases (ltb free 82)) [
    | inl full ↦ inl (omega (arith, ltb→lt free 82 full, free_is, size), rw full)
    | inr room ↦
        let fits : 82 * (length ps + 1) ≤ h.rx_capacity =
          omega (arith, ltb-false→le free 82 room, free_is, size) in
        inr (fits, rw room (refl, appended fits, refl, refl))
  ]
    where
      free : ℕ
      free = sub32 h.rx_capacity (sub32 h.rx.head h.rx.tail)

      size : length (rx_entries ps) ≡ 82 * length ps
      size = length-rx_entries ps q.packets

      free_is : free ≡ h.rx_capacity - length (rx_entries ps)
      free_is = let (a, b) = used-Holds g q.bytes in ap (sub32 h.rx_capacity) a ∙ b

      one : rx_entries (p ∷ []) ≡ rx_entry p
      one = append-nil (rx_entry p)

      appended :
          82 * (length ps + 1) ≤ h.rx_capacity
          → HoldsPackets base
              (record h {
                bytes = write_at base h.rx_capacity h.rx.head 10 (frame_bytes p.frame) (
                    write_at base h.rx_capacity h.rx.head 2
                      (le_bytes 8 p.timestamp_us)
                      (write_at base h.rx_capacity h.rx.head 0 (72 ∷ 0 ∷ []) h.bytes));
                rx = record { head = add32 h.rx.head 82; tail = h.rx.tail };
                rx_produce_count = add32 h.rx_produce_count 1;
              })
              (ps ++ (p ∷ []))
      appended fits = record {
        bytes =
            subst₂
              (λ m bs.
                Holds base h.rx_capacity m (record { head = add32 h.rx.head 82; tail = h.rx.tail })
                  bs)
              (sym (write_entry base h.rx_capacity h.rx.head p h.bytes))
              (ap (λ t. rx_entries ps ++ t) (sym one) ∙ sym (rx_entries-append ps (p ∷ [])))
              (subst
                (λ n.
                  Holds base h.rx_capacity
                    (write_at base h.rx_capacity h.rx.head 0 (rx_entry p) h.bytes)
                    (record { head = add32 h.rx.head n; tail = h.rx.tail })
                    (rx_entries ps ++ rx_entry p))
                (length-rx_entry p v)
                (push-Holds g (rx_entries ps) (rx_entry p) q.bytes
                  (omega (arith, size, length-rx_entry p v))));
        packets = All-append IsPacket ps (p ∷ []) q.packets (v, tt);
      }
