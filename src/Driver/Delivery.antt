-- ===== src/Driver/Delivery.antt =====
-- The frames of a bundle of transfers in the RX ring.
use i_can.Common.{
  ℕ, suc, ◌+◌, ◌*◌, ◌≤◌, ◌<◌, ◌≡◌, refl, sym, ap, subst, ◌∙◌, Bool, true, false, ◌||◌, inl, inr,
  List, [], ◌∷◌, ◌++◌, ltb, leb, if◌then◌else◌, arith, length, All, length-append, lt→ltb,
}
use i_can.Common.Words.{u64_mod}
use i_can.Can.{Frame, IsFrame, Packet, IsPacket}
use i_can.Ring.{Header, write_rx_frame}
use i_can.Ring.Queue.{IsCapacity}
use i_can.Ring.Receive.{HoldsPackets, write_rx_frame_lem}
use i_can.Driver.Receive.{Written, on_frame, on_frames}

-- The packet of a frame, with the time of its reading of the clock.
abbrev pub stamp : (ℕ → ℕ) → ℕ → Frame → Packet
stamp clock n f = record { timestamp_us = clock n; frame = f }

abbrev pub stamped : (ℕ → ℕ) → ℕ → List Frame → List Packet
stamped clock n [] = []
stamped clock n (f ∷ fs) = stamp clock n f ∷ stamped clock (suc n) fs

-- A queue of at most so many packets as have room with 82 bytes each: what finds no room is lost.
abbrev pub queued : ℕ → List Packet → Packet → List Packet
queued cap ps p = if leb (82 * (length ps + 1)) cap then ps ++ (p ∷ []) else ps

abbrev pub all_queued : ℕ → List Packet → List Packet → List Packet
all_queued cap ps [] = ps
all_queued cap ps (p ∷ qs) = all_queued cap (queued cap ps p) qs

pub all_queued-append :
    (cap : ℕ) (ps qs rs : List Packet)
    → all_queued cap ps (qs ++ rs) ≡ all_queued cap (all_queued cap ps qs) rs
all_queued-append cap ps [] rs = refl
all_queued-append cap ps (q ∷ qs) rs = all_queued-append cap (queued cap ps q) qs rs

-- The RX ring holds `ps`, and `wrote` says whether it holds more than at first.
pub record Holding (cap start : ℕ) (ps : List Packet) (w : Written) : Type 0 where
  pub capacity : w.header.rx_capacity ≡ cap
  pub packets : HoldsPackets 0 w.header ps
  pub grown : start ≤ length ps
  pub wrote : w.did_write ≡ ltb start (length ps)

capacity-write_rx_frame :
    (h : Header) (base : ℕ) (f : Frame) (t : ℕ)
    → (write_rx_frame h base f t).0.rx_capacity ≡ h.rx_capacity
unfolding write_rx_frame
capacity-write_rx_frame h base f t = ground arith

-- on_frame for what writeRxFrame returned.
abbrev written : Header × Bool → Written → Written
written r w = record { header = r.0; did_write = r.1 || w.did_write; readings = suc w.readings }

module _ {cap : ℕ} (start : ℕ) (ps : List Packet) (p : Packet) (w : Written)
    (h : Holding cap start ps w) where
  full-Holding :
      cap < 82 * (length ps + 1)
      → (dropped : ℕ)
      → Holding cap start
          (queued cap ps p)
          (written (record w.header { rx_dropped = dropped }, false) w)
  full-Holding l dropped =
      let full : leb (82 * (length ps + 1)) cap ≡ false = ground arith in
      rw full (record {
        capacity = h.capacity;
        packets = record { bytes = h.packets.bytes; packets = h.packets.packets };
        grown = h.grown;
        wrote = h.wrote;
      })

  fits-Holding :
      82 * (length ps + 1) ≤ cap
      → (r : Header × Bool) → r.0.rx_capacity ≡ w.header.rx_capacity
      → r.1 ≡ true
      → HoldsPackets 0 r.0 (ps ++ (p ∷ []))
      → Holding cap start (queued cap ps p) (written r w)
  fits-Holding l r same done q =
      let room : leb (82 * (length ps + 1)) cap ≡ true = ground arith in
      let longer : length (ps ++ (p ∷ [])) ≡ length ps + 1 = length-append ps (p ∷ []) in
      let more : start < length (ps ++ (p ∷ [])) = omega (arith, longer, h.grown) in
      rw room (record {
        capacity = same ∙ h.capacity;
        packets = q;
        grown = omega (arith, more);
        wrote = ap (λ b. b || w.did_write) done ∙ sym (lt→ltb start (length (ps ++ (p ∷ []))) more);
      })

module _ (clock : ℕ → ℕ) (ticks : (n : ℕ) → clock n < u64_mod) {cap : ℕ} (g : IsCapacity cap)
    (start : ℕ) where
  on_frame-Holding :
      (ps : List Packet) (f : Frame) (w : Written)
      → IsFrame f
      → Holding cap start ps w
      → Holding cap start (queued cap ps (stamp clock w.readings f)) (on_frame clock f w)
  unfolding on_frame
  on_frame-Holding ps f w v h =
      let p = stamp clock w.readings f in
      let fine : IsPacket p = record { time_fits = ticks w.readings; frame_ok = v } in
      let gw : IsCapacity w.header.rx_capacity = subst IsCapacity (sym h.capacity) g in
      elim (write_rx_frame_lem w.header gw ps p h.packets fine) [
        | inl (l, e) ↦
            subst (λ r. Holding cap start (queued cap ps p) (written r w)) (sym e)
              (full-Holding start ps p w h (omega (arith, l, h.capacity)) _)
        | inr (l, (done, q, _, _)) ↦
            fits-Holding start ps p w h (omega (arith, l, h.capacity))
              (write_rx_frame w.header 0 f (clock w.readings))
              (capacity-write_rx_frame w.header 0 f (clock w.readings)) done q
      ]

  pub on_frames-Holding :
      (fs : List Frame) (ps : List Packet) (w : Written)
      → All IsFrame fs
      → Holding cap start ps w
      → Holding cap start (all_queued cap ps (stamped clock w.readings fs)) (on_frames clock fs w)
  unfolding on_frames
  on_frames-Holding [] ps w v h = h
  on_frames-Holding (f ∷ fs) ps w (vf, v) h =
      on_frames-Holding fs (queued cap ps (stamp clock w.readings f)) (on_frame clock f w) v
        (on_frame-Holding ps f w vf h)
