-- ===== src/Driver/Arrivals.antt =====
-- What ReadCompleteBundled does to the RX ring.
use i_can.Common.{
  ℕ, ◌<◌, ◌≡◌, refl, sym, ap, ◌∙◌, false, ◌&&◌, ltb, some, List, if◌then◌else◌, arith, length,
  le→ltb-false,
}
use i_can.Common.Words.{u64_mod}
use i_can.Common.Outcome.{ok, ◌>>=◌}
use i_can.Can.{Frame, Packet}
use i_can.Ring.{Header}
use i_can.Ring.Queue.{IsCapacity}
use i_can.Ring.Receive.{HoldsPackets}
use i_can.Driver.State.{Driver, Transfers, CodecVariant}
use i_can.Driver.Slots.{BundledFn}
use i_can.Driver.Drains.{drain_tx_ring_of}
use i_can.Driver.Receive.{
  Receiving, Completion, resubmit, needs_drain_tx, after_completions, read_complete_bundled,
}
use i_can.Driver.Delivery.{stamped, all_queued}
use i_can.Driver.Bundles.{Decodes, complete_slots-Stores}

-- Submitting slots again leaves the ring and the codec alone.
resubmit_keeps :
    (io : BundledFn) (d : Driver)
    → ((resubmit io d).ring_header ≡ d.ring_header) × ((resubmit io d).codec ≡ d.codec)
resubmit_keeps io d = ground arith

no_drain :
    (u : Transfers) (io : BundledFn) (r : Receiving)
    → needs_drain_tx r.driver.codec ≡ false
    → after_completions u io r
      ≡ ok (resubmit io r.driver, r.did_write && (resubmit io r.driver).has_user_client)
unfolding after_completions
no_drain u io r e =
    let d = resubmit io r.driver in
    let same : needs_drain_tx d.codec ≡ false =
      ap needs_drain_tx (resubmit_keeps io r.driver).1 ∙ e in
    ap
      (λ b.
        if b
        then (drain_tx_ring_of u d >>= λ (ret, d'). ok (d', r.did_write && d.has_user_client))
        else ok (d, r.did_write && d.has_user_client))
      same

-- ReadCompleteBundled on a bundle of which the codec makes the frames `fs`, where the codec asks for
-- no drain at the end, and the RX ring holds the packets `ps`: it returns; the ring holds what a
-- queue holds that takes each frame in order, with the time of its reading of the clock, while it
-- has room for 82 bytes more; and the client is notified exactly if the ring has grown and there
-- is a client.
pub read_complete_delivers :
    (u : Transfers) (io : BundledFn) (clock : ℕ → ℕ) (index : ℕ) (d : Driver) (h : Header)
    (ps : List Packet) {e : CodecVariant} {xs : List Completion} {fs : List Frame}
    → ((n : ℕ) → clock n < u64_mod)
    → IsCapacity h.rx_capacity
    → d.ring_header ≡ some h
    → HoldsPackets 0 h ps
    → Decodes d.codec xs fs e
    → needs_drain_tx e ≡ false
    → let qs = all_queued h.rx_capacity ps (stamped clock 0 fs) in
      (d' : Driver) × (h' : Header) × (read_complete_bundled u io clock index xs d
        ≡ ok (d', ltb (length ps) (length qs) && d'.has_user_client))
      × (d'.ring_header ≡ some h')
      × (d'.codec ≡ e)
      × HoldsPackets 0 h' qs
unfolding read_complete_bundled
read_complete_delivers u io clock index d h ps ticks g r q decodes calm =
    let start : Receiving = record { driver = d; did_write = false; readings = 0 } in
    let same : ltb (length ps) (length ps) ≡ false = le→ltb-false _ _ (omega arith) in
    let (t, run, s) =
      complete_slots-Stores clock ticks g (length ps) index decodes ps start (record {
        header = h;
        header_is = r;
        codec_is = refl;
        holding = record { capacity = refl; packets = q; grown = omega arith; wrote = sym same };
      }) in
    let d' = resubmit io t.driver in
    let (ring_kept, codec_kept) = resubmit_keeps io t.driver in
    (
      d',
      s.header,
      ap (λ m. m >>= after_completions u io) run
          ∙ no_drain u io t (ap needs_drain_tx s.codec_is ∙ calm)
          ∙ ap (λ b. ok (d', b && d'.has_user_client)) s.holding.wrote,
      ring_kept ∙ s.header_is,
      codec_kept ∙ s.codec_is,
      s.holding.packets,
    )
