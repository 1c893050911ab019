-- ===== src/Gsusb/Echo.antt =====
-- drainTx of the gs_usb codec on the queue of frames in the TX ring, and the number of frames
-- whose echo has not come.
use i_can.Common.{
  ℕ, zero, suc, ◌+◌, ◌≤◌, ◌<◌, ◌≡◌, refl, subst, Bool, true, false, not, ◌&&◌, some, List, ◌∷◌, ltb,
  arith, Bool-cases, inl, inr, ltb→lt, lt→ltb,
}
use i_can.Common.Words.{add32, sub32}
use i_can.Common.Outcome.{Outcome, ok, undefined, stuck, ◌>>=◌}
use i_can.Common.IoReturn.{is_success}
use i_can.Can.{Frame}
use i_can.Codec.{SendFn, DrainResult}
use i_can.Ring.{Header, TxReadResult, tx0_base, read_tx0_frame}
use i_can.Ring.Queue.{IsCapacity}
use i_can.Ring.Transmit.{HoldsFrames, read_tx_frame_front}
use i_can.Gsusb.Frames.{encode_tx_frame, RxResult, received, tx_echo, invalid, decode_rx_transfer}
use i_can.Gsusb.Codec.{
  EchoState, reset_echo, check_stall, handle_rx, process_rx_data, send_frame, drain_next,
  drain_loop, drain_tx,
}
use i_can.Gsusb.RoundTrip.{encode_tx_frame-ne-empty}

-- What drainTx did with a ring whose first frame is `f`.
pub record SentOne (send : SendFn) (h : Header) (c : EchoState) (f : Frame) (fs : List Frame)
    (r : DrainResult) (c' : EchoState) : Type 0 where
  pub bytes : r.sent ≡ some (encode_tx_frame f c.next_echo_id 76)
  pub answer : r.result ≡ send (encode_tx_frame f c.next_echo_id 76)
  pub numbered : c'.next_echo_id ≡ add32 c.next_echo_id 1
  pub refused : is_success r.result ≡ false → (r.header ≡ h) × (c'.echo_inflight ≡ c.echo_inflight)
  pub moved :
      is_success r.result ≡ true
      → HoldsFrames (tx0_base h) h.tx0_capacity r.header r.header.tx0 fs
        × (r.header.tx_drain_count ≡ add32 h.tx_drain_count 1)
        × (c'.echo_inflight ≡ c.echo_inflight + 1)

module _ (send : SendFn) (h : Header) (g : IsCapacity h.tx0_capacity) where
  -- drainTx of the gs_usb codec, with fewer than ten echoes to come and frames in the TX ring,
  -- sends the first frame alone, under the next echo id. If the transfer succeeds, the frame
  -- leaves the ring, and it and one more echo are counted; if not, the ring is as before.
  pub drain_tx_sends_one :
      (c : EchoState) (f : Frame) (fs : List Frame)
      → c.echo_inflight < 10
      → HoldsFrames (tx0_base h) h.tx0_capacity h h.tx0 (f ∷ fs)
      → (r : DrainResult) × (c' : EchoState) × (drain_tx send h c false ≡ ok (r, c'))
        × SentOne send h c f fs r c'
  unfolding drain_tx drain_loop drain_next send_frame
  drain_tx_sends_one c f fs l q =
      let (front, rest) = read_tx_frame_front g h h.tx0 f fs q in
      (
        (send_frame send h numbered (add32 h.tx0.tail 74) bytes).0,
        (send_frame send h numbered (add32 h.tx0.tail 74) bytes).1,
        rw (lt→ltb c.echo_inflight 10 l, front, encode_tx_frame-ne-empty f c.next_echo_id) refl,
        elim (Bool-cases (is_success (send bytes))) [
          | inl taken ↦ rw taken (record {
            bytes = refl;
            answer = refl;
            numbered = refl;
            refused = λ e. absurd (contradiction e taken);
            moved = λ e. (record { bytes = rest.bytes; frames = rest.frames }, refl, omega arith);
          })
          | inr refused ↦ rw refused (record {
            bytes = refl;
            answer = refl;
            numbered = refl;
            refused = λ e. (refl, refl);
            moved = λ e. absurd (contradiction refused e);
          })
        ],
      )
    where
      contradiction : {b : Bool} → b ≡ false → b ≡ true → ⊥
      contradiction e f = cc

      numbered : EchoState
      numbered = record c { next_echo_id = add32 c.next_echo_id 1 }

      bytes : List ℕ
      bytes = encode_tx_frame f c.next_echo_id 76

-- At most ten echoes are to come after an outcome of drainTx.
abbrev Within : Outcome (DrainResult × EchoState) → Type 0
Within (ok (r, c)) = c.echo_inflight ≤ 10
Within undefined = Unit
Within stuck = Unit

drain_next-Within :
    (again : Header → EchoState → ℕ → Outcome (DrainResult × EchoState)) (send : SendFn)
    (c : EchoState) (at : ℕ) (r : TxReadResult) (h : Header)
    → c.echo_inflight < 10
    → ((h' : Header) (c' : EchoState) (tail : ℕ)
        → c'.echo_inflight < 10
        → Within (again h' c' tail))
    → Within (drain_next again send c at (r, h))
unfolding drain_next send_frame
drain_next-Within again send c at r h l w = elim (Bool-cases (not r.valid && not r.dropped)) [
  | inl ended ↦ rw ended (omega arith)
  | inr more ↦ elim (Bool-cases r.dropped) [
    | inl bad ↦ rw (more, bad) (w _ _ _ l)
    | inr good ↦
        rw (more, good, encode_tx_frame-ne-empty r.frame c.next_echo_id)
          (elim (Bool-cases (is_success (send (encode_tx_frame r.frame c.next_echo_id 76)))) [
            | inl taken ↦ rw taken (omega arith)
            | inr refused ↦ rw refused (omega arith)
          ])
  ]
]

read-Within :
    (again : Header → EchoState → ℕ → Outcome (DrainResult × EchoState)) (send : SendFn)
    (c : EchoState) (at : ℕ) (o : Outcome (TxReadResult × Header))
    → c.echo_inflight < 10
    → ((h' : Header) (c' : EchoState) (tail : ℕ)
        → c'.echo_inflight < 10
        → Within (again h' c' tail))
    → Within (o >>= drain_next again send c at)
read-Within again send c at (ok (r, h)) l w = drain_next-Within again send c at r h l w
read-Within again send c at undefined l w = tt
read-Within again send c at stuck l w = tt

drain_loop-Within :
    (fuel : ℕ) (send : SendFn) (h : Header) (c : EchoState) (tail : ℕ)
    → c.echo_inflight < 10
    → Within (drain_loop fuel send h c tail)
unfolding drain_loop
drain_loop-Within zero send h c tail l = tt
drain_loop-Within (suc fuel) send h c tail l =
    read-Within (drain_loop fuel send) send c tail (read_tx0_frame h tail) l
      (λ h' c' t l'. drain_loop-Within fuel send h' c' t l')

drain_tx-Within :
    (send : SendFn) (h : Header) (c : EchoState) (tx_in_flight : Bool)
    → c.echo_inflight ≤ 10
    → Within (drain_tx send h c tx_in_flight)
unfolding drain_tx
drain_tx-Within send h c true l = l
drain_tx-Within send h c false l = elim (Bool-cases (ltb c.echo_inflight 10)) [
  | inl room ↦ rw room (
      drain_loop-Within (suc (sub32 h.tx0.head h.tx0.tail)) send h c h.tx0.tail
        (ltb→lt c.echo_inflight 10 room))
  | inr full ↦ rw full l
]

-- The states that the codec is in between its calls, from the opening of the channel on.
pub data Reached : EchoState → Type 0 where
  opened : (c : EchoState) → Reached (reset_echo c)
  drained :
      (send : SendFn) (h : Header) (c : EchoState) (tx_in_flight : Bool) (r : DrainResult)
      (c' : EchoState)
      → Reached c
      → drain_tx send h c tx_in_flight ≡ ok (r, c')
      → Reached c'
  processed : (c : EchoState) (bytes : List ℕ) → Reached c → Reached (process_rx_data c bytes).0
  ticked : (c : EchoState) (now : ℕ) → Reached c → Reached (check_stall now c).1

handle_rx-le :
    (c : EchoState) (r : RxResult) → c.echo_inflight ≤ 10 → (handle_rx c r).0.echo_inflight ≤ 10
handle_rx-le c tx_echo l = ground arith
handle_rx-le c (received f) l = l
handle_rx-le c invalid l = l

check_stall-le :
    (now : ℕ) (c : EchoState) → c.echo_inflight ≤ 10 → (check_stall now c).1.echo_inflight ≤ 10
unfolding check_stall
check_stall-le now c l = ground arith

-- Whatever the device sends and whenever the timer fires, at most ten frames wait for their echo.
pub Reached-le : {c : EchoState} → Reached c → c.echo_inflight ≤ 10
unfolding process_rx_data
Reached-le (opened c) = omega arith
Reached-le (drained send h c tx_in_flight r c' s e) =
    subst Within e (drain_tx-Within send h c tx_in_flight (Reached-le s))
Reached-le (processed c bytes s) = handle_rx-le c (decode_rx_transfer bytes) (Reached-le s)
Reached-le (ticked c now s) = check_stall-le now c (Reached-le s)
