-- ===== src/TxPath/Refinement.antt =====
-- The path implements a queue.
use i_can.Common.{
  ℕ, ◌+◌, ◌*◌, ◌≡◌, refl, sym, ap, subst, ◌∙◌, ◌==◌, true, false, some, List, [], ◌∷◌, All, leb,
  length, Bool-cases, inl, inr, arith,
}
use i_can.Common.Words.{add32}
use i_can.Common.Outcome.{ok}
use i_can.Common.IoReturn.{is_success, success}
use i_can.Can.{Frame, IsFrame}
use i_can.Codec.{SendFn, DrainResult, returned}
use i_can.Ring.{Header, ring_magic}
use i_can.Ring.Queue.{IsCapacity}
use i_can.Ring.Transmit.{read_tx_frame_front}
use i_can.Client.{Client, write_tx_frame}
use i_can.Client.Send.{HoldsBoth, write_tx_frame_lem}
use i_can.Pcan.{encode_tx_frame, drain_tx, ring0, send_frame}
use i_can.Pcan.Drain.{drain_tx_ring-front, drain_tx_ring_idle}
use i_can.TxPath.{
  Call, write, drain, accepted, drain_on, run_call, run, after_write, queue_call, queue_run,
}
use i_can.TxPath.Shape.{write_tx_frame-Shaped, is_usable}

-- The state of the path with `queue` waiting for channel 0, in a ring of `cap` bytes, and `fs1` in
-- the other ring.
pub record Ready (cap : ℕ) (queue fs1 : List Frame) (c : Client) : Type 0 where
  pub header : Header
  pub mapped : c.ring_header ≡ some header
  pub magic_ok : (header.magic == ring_magic) ≡ true
  pub cap_is : header.tx0_capacity ≡ cap
  pub sound0 : IsCapacity header.tx0_capacity
  pub sound1 : IsCapacity header.tx1_capacity
  pub both : HoldsBoth header queue fs1

write-Ready :
    (cap : ℕ) (queue fs1 : List Frame) (c : Client) (f : Frame)
    → Ready cap queue fs1 c
    → IsFrame f
    → Ready cap (after_write cap queue f) fs1 (write_tx_frame c f 0).0
write-Ready cap queue fs1 c f s v =
    elim (write_tx_frame_lem c s.header 0 queue fs1 f (is_usable c s.header s.mapped s.magic_ok)
      s.sound0 s.sound1 s.both v) [
        | inl (full, _, same) ↦
            let no : leb (74 * (length queue + 1)) cap ≡ false = ground (arith, full, s.cap_is) in
            rw no (subst (Ready cap queue fs1) (sym same) s)
        | inr (h', fits, _, changed, both) ↦
            let yes : leb (74 * (length queue + 1)) cap ≡ true = ground (arith, fits, s.cap_is) in
            let there : (write_tx_frame c f 0).0.ring_header ≡ some h' =
              ap (λ x. x.ring_header) changed in
            let shape = write_tx_frame-Shaped c s.header h' 0 f s.mapped s.magic_ok there in
            rw yes (record {
              header = h';
              mapped = there;
              magic_ok = ap (λ x. x == ring_magic) shape.magic ∙ s.magic_ok;
              cap_is = shape.tx0_capacity ∙ s.cap_is;
              sound0 = subst IsCapacity (sym shape.tx0_capacity) s.sound0;
              sound1 = subst IsCapacity (sym shape.tx1_capacity) s.sound1;
              both = both;
            })
      ]

-- A call on the path and on the queue.
abbrev Refines : SendFn → ℕ → List Frame → List Frame → Client → Call → Type 0
Refines send cap queue fs1 c call =
    (c' : Client) × (run_call send c call ≡ ok (c', (queue_call send cap queue call).1))
    × Ready cap (queue_call send cap queue call).0 fs1 c'

on_header :
    (send : SendFn) (c : Client) (h : Header) (r : DrainResult)
    → c.ring_header ≡ some h
    → drain_tx send h false ≡ ok r
    → run_call send c drain ≡ ok (record c { ring_header = some r.header }, accepted r)
on_header send c h r m e = ap (drain_on send c) m ∙ rw e refl

-- The header after the first frame of channel 0 was sent.
abbrev after_sent : Header → Header
after_sent h = record h {
  tx0 = record { head = h.tx0.head; tail = add32 h.tx0.tail 74 };
  tx_drain_count = add32 h.tx_drain_count 1;
}

-- The two answers to the transfer of a frame.
answer_taken :
    (send : SendFn) (h : Header) (bytes : List ℕ)
    → is_success (send bytes) ≡ true
    → send_frame send ring0 h (add32 h.tx0.tail 74) bytes
      ≡ record { header = after_sent h; sent = some bytes; result = send bytes }
unfolding send_frame
answer_taken send h bytes e = rw e refl

answer_refused :
    (send : SendFn) (h : Header) (bytes : List ℕ)
    → is_success (send bytes) ≡ false
    → send_frame send ring0 h (add32 h.tx0.tail 74) bytes
      ≡ record { header = h; sent = some bytes; result = send bytes }
unfolding send_frame
answer_refused send h bytes e = rw e refl

same-Ready :
    (cap : ℕ) (queue fs1 : List Frame) (c : Client) (s : Ready cap queue fs1 c)
    → Ready cap queue fs1 (record c { ring_header = some s.header })
same-Ready cap queue fs1 c s = record {
  header = s.header;
  mapped = refl;
  magic_ok = s.magic_ok;
  cap_is = s.cap_is;
  sound0 = s.sound0;
  sound1 = s.sound1;
  both = s.both;
}

drain-Refines :
    (send : SendFn) (cap : ℕ) (queue fs1 : List Frame) (c : Client)
    → Ready cap queue fs1 c
    → Refines send cap queue fs1 c drain
drain-Refines send cap [] fs1 c s =
    let idle = (drain_tx_ring_idle send ring0 s.header s.sound0 s.both.ring0).1 in
    (
      record c { ring_header = some s.header },
      on_header send c s.header (returned s.header success) s.mapped idle,
      same-Ready cap [] fs1 c s,
    )
drain-Refines send cap (f ∷ queue) fs1 c s =
    let h = s.header in
    let bytes = encode_tx_frame f 128 in
    let front = drain_tx_ring-front send ring0 h s.sound0 f queue s.both.ring0 in
    let (_, rest) = read_tx_frame_front s.sound0 h h.tx0 f queue s.both.ring0 in
    elim (Bool-cases (is_success (send bytes))) [
      | inl taken ↦ (
        record c { ring_header = some (after_sent h) },
        on_header send c h
              (record { header = after_sent h; sent = some bytes; result = send bytes }) s.mapped
              (front ∙ ap ok (answer_taken send h bytes taken))
            ∙ rw taken refl,
        rw taken (record {
          header = after_sent h;
          mapped = refl;
          magic_ok = s.magic_ok;
          cap_is = s.cap_is;
          sound0 = s.sound0;
          sound1 = s.sound1;
          both = record {
            ring0 = record { bytes = rest.bytes; frames = rest.frames };
            ring1 = record { bytes = s.both.ring1.bytes; frames = s.both.ring1.frames };
          };
        }),
      )
      | inr refused ↦ (
        record c { ring_header = some h },
        on_header send c h (record { header = h; sent = some bytes; result = send bytes }) s.mapped
              (front ∙ ap ok (answer_refused send h bytes refused))
            ∙ rw refused refl,
        rw refused (same-Ready cap (f ∷ queue) fs1 c s),
      )
    ]

-- The frames that calls write are frames.
abbrev pub IsCall : Call → Type 0
IsCall (write f) = IsFrame f
IsCall drain = Unit

call-Refines :
    (send : SendFn) (cap : ℕ) (queue fs1 : List Frame) (c : Client) (call : Call)
    → Ready cap queue fs1 c
    → IsCall call
    → Refines send cap queue fs1 c call
call-Refines send cap queue fs1 c (write f) s v =
    ((write_tx_frame c f 0).0, refl, write-Ready cap queue fs1 c f s v)
call-Refines send cap queue fs1 c drain s v = drain-Refines send cap queue fs1 c s

-- In any order of writes by a client and drains by the driver, on a usable header whose TX rings
-- hold frames, the adapter takes exactly the transfers of a queue of frames in which a write finds
-- room while the ring has 74 bytes for it, and a drain sends the oldest frame and drops it once it
-- is taken. At the end the ring holds what the queue holds, and the other ring what it held.
pub run-refines :
    (send : SendFn) (cap : ℕ) (queue fs1 : List Frame) (c : Client) (calls : List Call)
    → Ready cap queue fs1 c
    → All IsCall calls
    → (c' : Client) × (run send c calls ≡ ok (c', (queue_run send cap queue calls).1))
      × Ready cap (queue_run send cap queue calls).0 fs1 c'
unfolding run
run-refines send cap queue fs1 c [] s v = (c, refl, s)
run-refines send cap queue fs1 c (call ∷ calls) s (v, vs) =
    let (c1, e, s1) = call-Refines send cap queue fs1 c call s v in
    let (c2, f, s2) = run-refines send cap (queue_call send cap queue call).0 fs1 c1 calls s1 vs in
    (c2, rw (e, f) refl, s2)
