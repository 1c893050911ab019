-- ===== src/Driver/Dual.antt =====
-- DrainTxRing on the two endpoints of a PCAN device.
use i_can.Common.{
  ℕ, ◌≤◌, ◌<◌, ◌≡◌, refl, ap, ap₂, ◌∙◌, true, false, some, List, ◌∷◌, length, arith, ◌==◌, ◌&&◌,
  not, if◌then◌else◌, le→ltb-false,
}
use i_can.Common.Outcome.{ok, ◌>>=◌}
use i_can.Common.IoReturn.{IoReturn, not_ready, is_success}
use i_can.Driver.Answers.{Tells, dual_result-Tells}
use i_can.Can.{Frame}
use i_can.Ring.{Header}
use i_can.Ring.Queue.{IsCapacity}
use i_can.Codec.{SendFn}
use i_can.Pcan.Frames.{encode_tx_frame}
use i_can.Pcan.Codec.{Channels, ring0, ring1, ring_capacity, drain_tx_ring}
use i_can.Pcan.Stream.{RxCounts}
use i_can.Pcan.Drain.{drain_tx_ring-front}
use i_can.Pcan.Messages.{length-encode_tx_frame}
use i_can.Driver.State.{Driver, Pipe, Transfers, pcan, protocol_pcan, is_some}
use i_can.Driver.Transfer.{send_raw_bytes, send_raw_bytes_channel1}
use i_can.Driver.Drains.{
  drain_channel1, drain_dual, drain_single, is_dual, dual_or_throw, dual_result, drain_header,
  drain_tx_ring_of, after_drain,
}
use i_can.Driver.Fronts.{
  after_front, left_over, RingHolds, ring1-after_front, ring0-after_front, capacity1-after_front,
  front_left0, front_left1, front_sent, answer0, answer1,
}

-- A configured driver of a PCAN device that has its two endpoints and no transfer in flight.
pub record IsDual (u : Transfers) (d : Driver) : Type 0 where
  pub channels : Channels
  pub counts : RxCounts
  pub out0 : Pipe
  pub out1 : Pipe
  pub codec_is : d.codec ≡ pcan channels counts
  pub protocol : d.detected_protocol ≡ protocol_pcan
  pub configured : d.is_configured ≡ true
  pub pipe0 : d.bulk_out_pipe ≡ some out0
  pub pipe1 : d.data_out_pipe2 ≡ some out1
  pub buffer1 : d.has_tx_buffer2 ≡ true
  pub action1 : d.has_write_action2 ≡ true
  pub mapped1 : (n : ℕ) → n ≤ 4096 → u.maps_buffer2 n ≡ true
  pub idle0 : d.tx_in_flight ≡ false
  pub idle1 : d.tx_in_flight2 ≡ false

-- A transfer of some bytes, at most 4096, goes to the pipe, and its answer says whether it is in
-- flight then.
send_raw_lem :
    (u : Transfers) (d : Driver) (bytes : List ℕ)
    → IsDual u d
    → 0 < length bytes
    → length bytes ≤ 4096
    → send_raw_bytes u d bytes
      ≡ (u.bulk_out bytes, record d { tx_in_flight = is_success (u.bulk_out bytes) })
unfolding send_raw_bytes
send_raw_lem u d bytes v pos le =
    rw (v.configured, v.pipe0, v.idle0, le→ltb-false 4096 (length bytes) le) (ground arith)

-- The driver between the two drains.
abbrev pub between : Driver → IoReturn → Header → Driver
between d ret h = record d { tx_in_flight = is_success ret; ring_header = some h }

send_raw1_lem :
    (u : Transfers) (d : Driver) (ret : IoReturn) (h : Header) (bytes : List ℕ)
    → IsDual u d
    → 0 < length bytes
    → length bytes ≤ 4096
    → send_raw_bytes_channel1 u (between d ret h) bytes ≡ (
      u.data_out2 bytes,
      record (between d ret h) { tx_in_flight2 = is_success (u.data_out2 bytes) },
    )
unfolding send_raw_bytes_channel1
send_raw1_lem u d ret h bytes v pos le =
    rw
      (
        v.configured,
        v.pipe1,
        v.buffer1,
        v.idle1,
        v.mapped1 (length bytes) le,
        le→ltb-false 4096 (length bytes) le,
      )
      (ground arith)

-- The driver after both transfers were answered.
abbrev pub after_both : Driver → IoReturn → IoReturn → Header → Driver
after_both d ret0 ret1 h = record d {
  tx_in_flight = is_success ret0;
  tx_in_flight2 = is_success ret1;
  ring_header = some (after_front ring1 ret1 (after_front ring0 ret0 h));
}

module _ (u : Transfers) (d : Driver) (v : IsDual u d) (h : Header) where
  channel1_lem :
      (ret0 : IoReturn) (f : Frame) (fs : List Frame)
      → IsCapacity (ring_capacity ring1 h)
      → RingHolds ring1 h (f ∷ fs)
      → drain_channel1 u ret0 (between d ret0 h) h
        ≡ ok (
          dual_result ret0 (answer1 u f),
          record (between d ret0 (after_front ring1 (answer1 u f) h)) {
            tx_in_flight2 = is_success (answer1 u f);
          },
        )
  unfolding drain_channel1
  channel1_lem ret0 f fs g q =
      let (pos, le) = length-encode_tx_frame f q.frames.0 in
      let d0 = between d ret0 h in
      let bytes = encode_tx_frame f 128 in
      let sent = send_raw1_lem u d ret0 h bytes v pos (omega (arith, le)) in
      let send : SendFn = λ b. (send_raw_bytes_channel1 u d0 b).0 in
      ap
        (λ m. m >>= λ r.
          ok (dual_result ret0 r.result, after_drain (send_raw_bytes_channel1 u d0) d0 r))
        (ap (drain_tx_ring send ring1 h) v.idle1
          ∙ drain_tx_ring-front send ring1 h g f fs q
          ∙ ap ok (front_sent send ring1 h f (answer1 u f) (ap (λ p. p.0) sent)))
      ∙ ap
          (λ (p : IoReturn × Driver). ok (
            dual_result ret0 (answer1 u f),
            record p.1 { ring_header = some (after_front ring1 (answer1 u f) h) },
          ))
          sent

module _ (u : Transfers) (d : Driver) (v : IsDual u d) (h : Header) where
  dual_drains :
      (f0 : Frame) (fs0 : List Frame) (f1 : Frame) (fs1 : List Frame)
      → IsCapacity h.tx0_capacity
      → IsCapacity h.tx1_capacity
      → RingHolds ring0 h (f0 ∷ fs0)
      → RingHolds ring1 h (f1 ∷ fs1)
      → drain_dual u d h
        ≡ ok (
          dual_result (answer0 u f0) (answer1 u f1),
          after_both d (answer0 u f0) (answer1 u f1) h,
        )
  unfolding drain_dual
  dual_drains f0 fs0 f1 fs1 g0 g1 q0 q1 =
      let (pos, le) = length-encode_tx_frame f0 q0.frames.0 in
      let sent = send_raw_lem u d (encode_tx_frame f0 128) v pos (omega (arith, le)) in
      let send : SendFn = λ b. (send_raw_bytes u d b).0 in
      let h0 = after_front ring0 (answer0 u f0) h in
      ap (λ m. m >>= λ r. drain_channel1 u r.result (after_drain (send_raw_bytes u d) d r) r.header)
        (ap (drain_tx_ring send ring0 h) v.idle0
          ∙ drain_tx_ring-front send ring0 h g0 f0 fs0 q0
          ∙ ap ok (front_sent send ring0 h f0 (answer0 u f0) (ap (λ p. p.0) sent)))
      ∙ ap
          (λ (p : IoReturn × Driver).
            drain_channel1 u (answer0 u f0) (record p.1 { ring_header = some h0 }) h0)
          sent
      ∙ channel1_lem u d v h0 (answer0 u f0) f1 fs1 (capacity1-after_front (answer0 u f0) h g1)
          (ring1-after_front (answer0 u f0) h (f1 ∷ fs1) q1)

takes_dual :
    (u : Transfers) (d : Driver) (h : Header)
    → IsDual u d
    → drain_header u d (some h) ≡ drain_dual u d h
unfolding drain_header dual_or_throw
takes_dual u d h v =
    let out : is_some d.bulk_out_pipe ≡ true = ap is_some v.pipe0 in
    let two : is_dual d ≡ true =
      ap₂ (λ p q. (d.detected_protocol == protocol_pcan) && (p && q)) (ap is_some v.pipe1)
        (ap₂ (λ p q. p && q) v.buffer1 v.action1)
      ∙ ap (λ p. (p == protocol_pcan) && true) v.protocol in
    ap
      (λ b.
        if not b
        then ok (not_ready, d)
        else if is_dual d
        then dual_or_throw d.codec u d h
        else drain_single u d h)
      out
    ∙ ap (λ b. if b then dual_or_throw d.codec u d h else drain_single u d h) two
    ∙ ap (λ c. dual_or_throw c u d h) v.codec_is

-- DrainTxRing on a configured PCAN device with two endpoints and no transfer in flight, whose
-- buffer for the second can be mapped, where both TX rings hold frames: it sends the first frame of
-- each ring on its own endpoint. It returns the answer to the first transfer if that is neither
-- success nor busy, else the answer to the second if that is neither, else success, so that a
-- transfer which was refused as busy is told as success. After it, each ring has lost its first
-- frame exactly if its transfer succeeded, and exactly then is its transfer in flight.
pub drain_tx_ring_dual :
    (u : Transfers) (d : Driver) (h : Header) (f0 f1 : Frame) (fs0 fs1 : List Frame)
    → IsDual u d
    → d.ring_header ≡ some h
    → IsCapacity h.tx0_capacity
    → IsCapacity h.tx1_capacity
    → RingHolds ring0 h (f0 ∷ fs0)
    → RingHolds ring1 h (f1 ∷ fs1)
    → (ret : IoReturn) × (d' : Driver) × (h' : Header) × (drain_tx_ring_of u d ≡ ok (ret, d'))
      × Tells (answer0 u f0) (answer1 u f1) ret
      × (d'.ring_header ≡ some h')
      × RingHolds ring0 h' (left_over (answer0 u f0) f0 fs0)
      × RingHolds ring1 h' (left_over (answer1 u f1) f1 fs1)
      × (d'.tx_in_flight ≡ is_success (answer0 u f0))
      × (d'.tx_in_flight2 ≡ is_success (answer1 u f1))
unfolding drain_tx_ring_of
drain_tx_ring_dual u d h f0 f1 fs0 fs1 v e g0 g1 q0 q1 =
    let ret0 = answer0 u f0 in
    let ret1 = answer1 u f1 in
    let h0 = after_front ring0 ret0 h in
    (
      dual_result ret0 ret1,
      after_both d ret0 ret1 h,
      after_front ring1 ret1 h0,
      ap (drain_header u d) e ∙ takes_dual u d h v ∙ dual_drains u d v h f0 fs0 f1 fs1 g0 g1 q0 q1,
      dual_result-Tells ret0 ret1,
      refl,
      ring0-after_front ret1 h0 (left_over ret0 f0 fs0) (front_left0 ret0 h f0 fs0 g0 q0),
      front_left1 ret1 h0 f1 fs1 (capacity1-after_front ret0 h g1)
          (ring1-after_front ret0 h (f1 ∷ fs1) q1),
      refl,
      refl,
    )
