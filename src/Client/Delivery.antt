-- ===== src/Client/Delivery.antt =====
-- What one reader has after drainRxFrames.
use i_can.Common.{
  ℕ, zero, suc, ◌+◌, ◌≤◌, ◌<◌, ◌≡◌, refl, sym, ap, ap₂, subst, ◌∙◌, Bool, true, false, ◌&&◌, none,
  some, List, [], ◌∷◌, ◌++◌, append-nil, append_assoc, ltb, ◌==◌, if◌then◌else◌, length,
  length-append, get_elem?, arith, Bool-cases, inl, inr, lt→ltb,
}
use i_can.Common.Outcome.{ok}
use i_can.Can.{Packet}
use i_can.Ring.{Header}
use i_can.Ring.Queue.{IsCapacity}
use i_can.Ring.Receive.{HoldsPackets}
use i_can.Client.Readers.{ReaderSlot, offer, on_channel, fan_out_packet}
use i_can.Client.Frames.{Client, usable, channel_of, drain_rx_frames}
use i_can.Client.Fifo.{Queued, offer_lem}
use i_can.Client.Drain.{deliver_all, drain_rx_frames_lem}

-- The packets for a channel.
abbrev pub arrivals : ℕ → List Packet → List Packet
arrivals channel [] = []
arrivals channel (p ∷ ps) =
    let rest = arrivals channel ps in if channel == channel_of p then p ∷ rest else rest

abbrev offer_all : List Packet → ReaderSlot → ReaderSlot
offer_all [] r = r
offer_all (p ∷ ps) r = offer_all ps (offer p (channel_of p) r)

deliver_all-cons :
    (ps : List Packet) (r : ReaderSlot) (rs : List ReaderSlot)
    → deliver_all ps (r ∷ rs) ≡ offer_all ps r ∷ deliver_all ps rs
unfolding fan_out_packet
deliver_all-cons [] r rs = refl
deliver_all-cons (p ∷ ps) r rs =
    deliver_all-cons ps (offer p (channel_of p) r) (fan_out_packet p (channel_of p) rs)

get_elem?-deliver_all :
    (ps : List Packet) (rs : List ReaderSlot) (i : ℕ) (r : ReaderSlot)
    → get_elem? rs i ≡ some r
    → get_elem? (deliver_all ps rs) i ≡ some (offer_all ps r)
get_elem?-deliver_all ps [] i r e = absurd (missing e)
  where
    missing : none ≡ some r → ⊥
    missing x = cc
get_elem?-deliver_all ps (s ∷ rs) zero r e =
    ap (λ l. get_elem? l 0) (deliver_all-cons ps s rs) ∙ ap (λ x. some (offer_all ps x)) (inside e)
  where
    inside : some s ≡ some r → s ≡ r
    inside x = cc
get_elem?-deliver_all ps (s ∷ rs) (suc i) r e =
    ap (λ l. get_elem? l (suc i)) (deliver_all-cons ps s rs) ∙ get_elem?-deliver_all ps rs i r e

offer-active : (p : Packet) (channel : ℕ) (r : ReaderSlot) → (offer p channel r).active ≡ r.active
unfolding offer
offer-active p channel r = ground arith

offer-channel :
    (p : Packet) (channel : ℕ) (r : ReaderSlot) → (offer p channel r).channel ≡ r.channel
unfolding offer
offer-channel p channel r = ground arith

heard :
    (r : ReaderSlot) (channel k : ℕ)
    → r.active ≡ true
    → r.channel ≡ some channel
    → (r.active && on_channel r k) ≡ (channel == k)
heard r channel k a c = rw (a, c) refl

-- One packet, for the reader or not.
offer-Queued :
    (p : Packet) (k : ℕ) (r : ReaderSlot) (qs : List Packet) (here : Bool)
    → (r.active && on_channel r k) ≡ here
    → Queued r qs
    → length qs < 2047
    → Queued (offer p k r) (if here then qs ++ (p ∷ []) else qs)
offer-Queued p k r qs here e q l =
    subst (λ b. Queued (offer p k r) (if b then qs ++ (p ∷ []) else qs))
      (ap₂ ◌&&◌ e (lt→ltb (length qs) 2047 l) ∙ and_true here) (offer_lem r qs p k q)
  where
    and_true : (b : Bool) → (b && true) ≡ b
    and_true true = refl
    and_true false = refl

offer-same :
    (p : Packet) (k : ℕ) (r : ReaderSlot) (qs : List Packet)
    → (r.active && on_channel r k) ≡ false
    → Queued r qs
    → Queued (offer p k r) qs
offer-same p k r qs e q =
    subst (λ b. Queued (offer p k r) (if b && ltb (length qs) 2047 then qs ++ (p ∷ []) else qs)) e
      (offer_lem r qs p k q)

offer_all-Queued :
    (ps : List Packet) (r : ReaderSlot) (qs : List Packet) (channel : ℕ)
    → r.active ≡ true
    → r.channel ≡ some channel
    → Queued r qs
    → length qs + length (arrivals channel ps) ≤ 2047
    → Queued (offer_all ps r) (qs ++ arrivals channel ps)
offer_all-Queued [] r qs channel a c q l = subst (Queued r) (sym (append-nil qs)) q
offer_all-Queued (p ∷ ps) r qs channel a c q l =
    let k = channel_of p in
    let a' = offer-active p k r ∙ a in
    let c' = offer-channel p k r ∙ c in
    elim (Bool-cases (channel == channel_of p)) [
      | inl mine ↦
          let room : length qs + suc (length (arrivals channel ps)) ≤ 2047 =
            subst
              (λ b.
                length qs + length (if b then p ∷ arrivals channel ps else arrivals channel ps)
                ≤ 2047)
              mine l in
          let next = offer-Queued p k r qs true (heard r channel k a c ∙ mine) q (omega arith) in
          rw mine (
            subst (Queued (offer_all ps (offer p k r)))
              (append_assoc qs (p ∷ []) (arrivals channel ps))
              (offer_all-Queued ps (offer p k r) (qs ++ (p ∷ [])) channel a' c' next
                (omega (arith, room, length-append qs (p ∷ [])))))
      | inr other ↦
          let room =
            subst
              (λ b.
                length qs + length (if b then p ∷ arrivals channel ps else arrivals channel ps)
                ≤ 2047)
              other l in
          rw other (
            offer_all-Queued ps (offer p k r) qs channel a' c'
              (offer-same p k r qs (heard r channel k a c ∙ other) q) room)
    ]

-- drainRxFrames on an RX ring that holds `ps`: a reader that is active on a channel, and whose slot
-- has room for the packets of that channel, has them behind those that it had.
pub drain_rx_frames-Queued :
    (c : Client) (h : Header) (ps : List Packet) (i : ℕ) (r : ReaderSlot) (channel : ℕ)
    (qs : List Packet)
    → usable c.ring_header ≡ some h
    → IsCapacity h.rx_capacity
    → HoldsPackets 0 h ps
    → get_elem? c.readers i ≡ some r
    → r.active ≡ true
    → r.channel ≡ some channel
    → Queued r qs
    → length qs + length (arrivals channel ps) ≤ 2047
    → (c' : Client) × (r' : ReaderSlot) × (drain_rx_frames c ≡ ok (c', length ps))
      × (get_elem? c'.readers i ≡ some r')
      × Queued r' (qs ++ arrivals channel ps)
drain_rx_frames-Queued c h ps i r channel qs u g q e a ch w l = (
  record c {
    ring_header = some (record h { rx = record { head = h.rx.head; tail = h.rx.head } });
    readers = deliver_all ps c.readers;
  },
  offer_all ps r,
  drain_rx_frames_lem c h ps u g q,
  get_elem?-deliver_all ps c.readers i r e,
  offer_all-Queued ps r qs channel a ch w l,
)
