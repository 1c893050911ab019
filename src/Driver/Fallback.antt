-- ===== src/Driver/Fallback.antt =====
-- DrainTxRing on a PCAN device without its second data endpoint.
use i_can.Common.{
  ℕ, ◌≤◌, ◌<◌, ◌≡◌, refl, ap, ◌∙◌, Bool, true, false, ◌&&◌, not, inl, inr, none, some, List, ◌∷◌,
  ltb, leb, length, arith, if◌then◌else◌, Bool-cases, ◌==◌, le→ltb-false,
}
use i_can.Common.Outcome.{Outcome, ok, ◌>>=◌}
use i_can.Common.IoReturn.{IoReturn, success, not_ready}
use i_can.Can.{Frame}
use i_can.Ring.{Header}
use i_can.Ring.Queue.{IsCapacity}
use i_can.Codec.{SendFn, DrainResult}
use i_can.Pcan.Frames.{encode_tx_frame}
use i_can.Pcan.Codec.{Channels, ring0, ring1, drain_tx_ring}
use i_can.Pcan.Stream.{RxCounts}
use i_can.Pcan.Drain.{drain_tx_ring-front}
use i_can.Pcan.Messages.{length-encode_tx_frame}
use i_can.Driver.State.{Driver, Pipe, Transfers, pcan, CodecVariant, protocol_pcan, is_some}
use i_can.Driver.Transfer.{send_raw_bytes}
use i_can.Driver.Drains.{
  codec_drain_tx, after_drain, drain_second, drain_single, drain_header, is_dual, dual_or_throw,
  drain_tx_ring_of,
}
use i_can.Driver.Fronts.{
  RingHolds, after_front, answer0, front_sent, front_left0, ring1-after_front,
}

-- A configured driver of a PCAN device that has one data endpoint and no transfer in flight.
pub record IsFallback (d : Driver) : Type 0 where
  pub channels : Channels
  pub counts : RxCounts
  pub out0 : Pipe
  pub codec_is : d.codec ≡ pcan channels counts
  pub configured : d.is_configured ≡ true
  pub pipe0 : d.bulk_out_pipe ≡ some out0
  pub pipe1 : d.data_out_pipe2 ≡ none
  pub idle0 : d.tx_in_flight ≡ false

-- The driver after the transfer of the first frame was accepted; its codec is as before.
abbrev pub sent_first : Driver → Channels → RxCounts → Header → Driver
sent_first d c n h = record d { tx_in_flight = true; ring_header = some h; codec = pcan c n }

send_raw_single :
    (u : Transfers) (d : Driver) (bytes : List ℕ)
    → IsFallback d
    → 0 < length bytes
    → length bytes ≤ 4096
    → u.bulk_out bytes ≡ success
    → send_raw_bytes u d bytes ≡ (success, record d { tx_in_flight = true })
unfolding send_raw_bytes
send_raw_single u d bytes v pos le e =
    rw (v.configured, v.pipe0, v.idle0, e, le→ltb-false 4096 (length bytes) le) (ground arith)

-- With the first transfer in flight, the second drain is busy at once.
second_busy :
    (u : Transfers) (ret : IoReturn) (d : Driver) (c : Channels) (n : RxCounts) (h : Header)
    → drain_second u ret (sent_first d c n h) h ≡ ok (ret, sent_first d c n h)
unfolding drain_second codec_drain_tx drain_tx_ring
second_busy u ret d c n h = elim (Bool-cases (ltb 0 h.tx1_capacity && leb 2 h.channel_count)) [
  | inl e ↦ rw e refl
  | inr e ↦ rw e refl
]

single_drains :
    (u : Transfers) (d : Driver) (v : IsFallback d) (h : Header) (f : Frame) (fs : List Frame)
    → IsCapacity h.tx0_capacity
    → RingHolds ring0 h (f ∷ fs)
    → answer0 u f ≡ success
    → drain_single u d h
      ≡ ok (success, sent_first d v.channels v.counts (after_front ring0 success h))
unfolding drain_single codec_drain_tx
single_drains u d v h f fs g q e =
    let (pos, le) = length-encode_tx_frame f q.frames.0 in
    let sent = send_raw_single u d (encode_tx_frame f 128) v pos (omega (arith, le)) e in
    let send : SendFn = λ b. (send_raw_bytes u d b).0 in
    let h0 = after_front ring0 success h in
    let finish : DrainResult × CodecVariant → Outcome (IoReturn × Driver) = λ (r, c).
      drain_second u r.result (record (after_drain (send_raw_bytes u d) d r) { codec = c })
        r.header in
    ap (λ c. codec_drain_tx send h c d.tx_in_flight >>= finish) v.codec_is
    ∙ ap (λ m. m >>= (λ r. ok (r, pcan v.channels v.counts)) >>= finish)
        (ap (drain_tx_ring send ring0 h) v.idle0
          ∙ drain_tx_ring-front send ring0 h g f fs q
          ∙ ap ok (front_sent send ring0 h f success (ap (λ p. p.0) sent)))
    ∙ ap
        (λ (p : IoReturn × Driver).
          drain_second u success
            (record p.1 { ring_header = some h0; codec = pcan v.channels v.counts }) h0)
        sent
    ∙ second_busy u success d v.channels v.counts h0

never : (b : Bool) → (b && false) ≡ false
never true = refl
never false = refl

takes_single :
    (u : Transfers) (d : Driver) (h : Header)
    → IsFallback d
    → drain_header u d (some h) ≡ drain_single u d h
unfolding drain_header
takes_single u d h v =
    let out : is_some d.bulk_out_pipe ≡ true = ap is_some v.pipe0 in
    let one : is_dual d ≡ false =
      ap
        (λ p.
          (d.detected_protocol == protocol_pcan)
          && (is_some p && (d.has_tx_buffer2 && d.has_write_action2)))
        v.pipe1
      ∙ never (d.detected_protocol == protocol_pcan) in
    ap
      (λ b.
        if not b
        then ok (not_ready, d)
        else if is_dual d
        then dual_or_throw d.codec u d h
        else drain_single u d h)
      out
    ∙ ap (λ b. if b then dual_or_throw d.codec u d h else drain_single u d h) one

-- DrainTxRing on a configured PCAN device with one data endpoint and no transfer in flight, where the
-- ring of channel 0 holds frames, and the transfer of the first succeeds: that frame leaves its
-- ring, the transfer is in flight, and the frames of channel 1 all stay in theirs.
pub drain_tx_ring_fallback :
    (u : Transfers) (d : Driver) (h : Header) (f : Frame) (fs fs1 : List Frame)
    → IsFallback d
    → d.ring_header ≡ some h
    → IsCapacity h.tx0_capacity
    → RingHolds ring0 h (f ∷ fs)
    → RingHolds ring1 h fs1
    → answer0 u f ≡ success
    → (d' : Driver) × (h' : Header) × (drain_tx_ring_of u d ≡ ok (success, d'))
      × (d'.ring_header ≡ some h')
      × (d'.tx_in_flight ≡ true)
      × RingHolds ring0 h' fs
      × RingHolds ring1 h' fs1
unfolding drain_tx_ring_of
drain_tx_ring_fallback u d h f fs fs1 v e g q0 q1 a =
    let h0 = after_front ring0 success h in
    (
      sent_first d v.channels v.counts h0,
      h0,
      ap (drain_header u d) e ∙ takes_single u d h v ∙ single_drains u d v h f fs g q0 a,
      refl,
      refl,
      front_left0 success h f fs g q0,
      ring1-after_front success h fs1 q1,
    )
