-- ===== src/Driver/Bundles.antt =====
-- ReadCompleteBundled on a bundle of transfers: the frames of all of them reach the RX ring.
use i_can.Common.{
  ℕ, suc, ◌+◌, ◌%◌, ◌<◌, ◌≡◌, refl, sym, ap, subst, ◌∙◌, Bool, true, false, ◌&&◌, ltb, some, List,
  [], ◌∷◌, ◌++◌, if◌then◌else◌, arith, length, All,
}
use i_can.Common.Words.{u64_mod}
use i_can.Common.Outcome.{Outcome, ok, undefined, stuck, ◌>>=◌}
use i_can.Common.IoReturn.{is_success}
use i_can.Can.{Frame, IsFrame, Packet}
use i_can.Ring.{Header}
use i_can.Ring.Queue.{IsCapacity}
use i_can.Ring.Receive.{HoldsPackets}
use i_can.Pcan.Stream as PcanStream
use i_can.Driver.State.{CodecVariant, slcan, gsusb, pcan}
use i_can.Driver.Receive.{
  Decoded, Receiving, Written, Completion, codec_process_rx_data, on_frame, on_frames, store_frames,
  decode_transfer, complete_slot, complete_slots, count_read, release,
}
use i_can.Driver.Delivery.{
  stamp, stamped, all_queued, all_queued-append, Holding, on_frames-Holding,
}

abbrev pub brings_bytes : Completion → Bool
brings_bytes x = is_success x.status && ltb 0 (length x.bytes)

-- The codec `c` makes the frames `fs` of the transfers of a bundle, in order, and is `e` then. A
-- transfer that failed or brought nothing is passed over.
pub data Decodes : CodecVariant → List Completion → List Frame → CodecVariant → Type 0 where
  none_left : {c : CodecVariant} → Decodes c [] [] c
  passed_over :
      {c e : CodecVariant} {xs : List Completion} {fs : List Frame} (x : Completion)
      → brings_bytes x ≡ false
      → Decodes c xs fs e
      → Decodes c (x ∷ xs) fs e
  decoded :
      {c e : CodecVariant} {xs : List Completion} {fs : List Frame} (x : Completion) (r : Decoded)
      → brings_bytes x ≡ true
      → codec_process_rx_data c x.bytes ≡ ok r
      → All IsFrame r.frames
      → Decodes r.codec xs fs e
      → Decodes c (x ∷ xs) (r.frames ++ fs) e

-- What the codecs publish leaves the rings alone.
record Publishes (r : Decoded) : Type 0 where
  same_capacity : (h : Header) → (r.publish h).rx_capacity ≡ h.rx_capacity
  same_packets :
      (h : Header) (ps : List Packet) → HoldsPackets 0 h ps → HoldsPackets 0 (r.publish h) ps

abbrev PublishesIf : Outcome Decoded → Type 0
PublishesIf (ok r) = Publishes r
PublishesIf undefined = Unit {0}
PublishesIf stuck = Unit {0}

pcan_publishes :
    (c : Outcome PcanStream.Parsed) (k : PcanStream.Parsed → CodecVariant) (bytes : List ℕ)
    → PublishesIf (
        c >>= λ p.
        ok (record { codec = k p; frames = p.frames; publish = PcanStream.publish bytes p }))
unfolding PcanStream.publish
pcan_publishes (ok p) k bytes = record {
  same_capacity = λ h. refl;
  same_packets = λ h ps q. record { bytes = q.bytes; packets = q.packets };
}
pcan_publishes undefined k bytes = tt
pcan_publishes stuck k bytes = tt

codec_publishes : (c : CodecVariant) (bytes : List ℕ) → PublishesIf (codec_process_rx_data c bytes)
unfolding codec_process_rx_data
codec_publishes (slcan a) bytes = record { same_capacity = λ h. refl; same_packets = λ h ps q. q }
codec_publishes (gsusb c) bytes = record { same_capacity = λ h. refl; same_packets = λ h ps q. q }
codec_publishes (pcan c n) bytes =
    pcan_publishes (PcanStream.process_rx_data n bytes) (λ p. pcan c p.counts) bytes

-- The driver's ring holds `ps`, of which there were `start` at first.
pub record Stores (cap start : ℕ) (ps : List Packet) (c : CodecVariant) (r : Receiving)
    : Type 0 where
  pub header : Header
  pub header_is : r.driver.ring_header ≡ some header
  pub codec_is : r.driver.codec ≡ c
  pub holding :
      Holding cap start ps
        (record { header = header; did_write = r.did_write; readings = r.readings })

readings-on_frames :
    (clock : ℕ → ℕ) (fs : List Frame) (w : Written)
    → (on_frames clock fs w).readings ≡ w.readings + length fs
unfolding on_frames on_frame
readings-on_frames clock [] w = omega arith
readings-on_frames clock (f ∷ fs) w = readings-on_frames clock fs (on_frame clock f w) ∙ omega arith

stamped-append :
    (clock : ℕ → ℕ) (n : ℕ) (fs gs : List Frame)
    → stamped clock n (fs ++ gs) ≡ stamped clock n fs ++ stamped clock (n + length fs) gs
stamped-append clock n [] gs = let e : n ≡ n + 0 = omega arith in ap (λ k. stamped clock k gs) e
stamped-append clock n (f ∷ fs) gs =
    let e : suc n + length fs ≡ n + suc (length fs) = omega arith in
    ap (λ t. stamp clock n f ∷ t)
      (stamped-append clock (suc n) fs gs
        ∙ ap (λ k. stamped clock (suc n) fs ++ stamped clock k gs) e)

module _ (clock : ℕ → ℕ) (ticks : (n : ℕ) → clock n < u64_mod) {cap : ℕ} (g : IsCapacity cap)
    (start : ℕ) where
  store_frames-Stores :
      (ps : List Packet) (c : CodecVariant) (r : Receiving) (d : Decoded)
      (s : Stores cap start ps c r)
      → All IsFrame d.frames
      → Publishes d
      → Stores cap start
          (all_queued cap ps (stamped clock r.readings d.frames))
          d.codec
          (store_frames clock s.header r d)
  unfolding store_frames
  store_frames-Stores ps c r d s v p =
      let w : Written = record {
        header = s.header;
        did_write = r.did_write;
        readings = r.readings;
      } in
      let qs = all_queued cap ps (stamped clock r.readings d.frames) in
      let h = on_frames-Holding clock ticks g start d.frames ps w v s.holding in
      let w' = on_frames clock d.frames w in
      record {
        header = d.publish w'.header;
        header_is = refl;
        codec_is = refl;
        holding = record {
          capacity = p.same_capacity w'.header ∙ h.capacity;
          packets = p.same_packets w'.header qs h.packets;
          grown = h.grown;
          wrote = h.wrote;
        };
      }

  -- A transfer that is decoded, up to the end of its round.
  complete_slot_decodes :
      (idx : ℕ) (x : Completion) (c : CodecVariant) (r : Receiving) (d : Decoded) (ps : List Packet)
      (s : Stores cap start ps c r)
      → brings_bytes x ≡ true
      → codec_process_rx_data c x.bytes ≡ ok d
      → complete_slot clock idx x r
        ≡ ok (release idx (count_read x.bytes (store_frames clock s.header r d)))
  unfolding complete_slot decode_transfer
  complete_slot_decodes idx x c r d ps s b e =
      let finish : Receiving → Outcome Receiving = λ t. ok (release idx (count_read x.bytes t)) in
      let keep : Decoded → Outcome Receiving = λ c. ok (store_frames clock s.header r c) in
      ap
        (λ b.
          if b
          then (decode_transfer clock x.bytes r.driver.ring_header r >>= finish)
          else ok (release idx r))
        b
      ∙ ap (λ h. decode_transfer clock x.bytes h r >>= finish) s.header_is
      ∙ ap (λ c. codec_process_rx_data c x.bytes >>= keep >>= finish) s.codec_is
      ∙ ap (λ m. m >>= keep >>= finish) e

  -- Freeing the slot of a transfer, and counting its bytes, leaves the ring alone.
  release-Stores :
      (idx : ℕ) (ps : List Packet) (c : CodecVariant) (r : Receiving)
      → Stores cap start ps c r
      → Stores cap start ps c (release idx r)
  release-Stores idx ps c r s = record {
    header = s.header;
    header_is = s.header_is;
    codec_is = s.codec_is;
    holding = s.holding;
  }

  counted-Stores :
      (bytes : List ℕ) (ps : List Packet) (c : CodecVariant) (r : Receiving)
      → Stores cap start ps c r
      → Stores cap start ps c (count_read bytes r)
  counted-Stores bytes ps c r s = record {
    header = s.header;
    header_is = s.header_is;
    codec_is = s.codec_is;
    holding = s.holding;
  }

passed :
    (clock : ℕ → ℕ) (idx : ℕ) (x : Completion) (r : Receiving)
    → brings_bytes x ≡ false
    → complete_slot clock idx x r ≡ ok (release idx r)
unfolding complete_slot
passed clock idx x r b =
    ap
      (λ b.
        if b
        then (decode_transfer clock x.bytes r.driver.ring_header r >>= λ t.
            ok (release idx (count_read x.bytes t)))
        else ok (release idx r))
      b

-- The packets of two transfers, one behind the other.
two_transfers :
    (clock : ℕ → ℕ) (cap : ℕ) (ps : List Packet) (n m : ℕ) (fs gs : List Frame)
    → m ≡ n + length fs
    → all_queued cap (all_queued cap ps (stamped clock n fs)) (stamped clock m gs)
      ≡ all_queued cap ps (stamped clock n (fs ++ gs))
two_transfers clock cap ps n m fs gs e =
    ap (λ k. all_queued cap (all_queued cap ps (stamped clock n fs)) (stamped clock k gs)) e
    ∙ sym (all_queued-append cap ps (stamped clock n fs) (stamped clock (n + length fs) gs))
    ∙ ap (all_queued cap ps) (sym (stamped-append clock n fs gs))

readings-store_frames :
    (clock : ℕ → ℕ) (h : Header) (r : Receiving) (d : Decoded)
    → (store_frames clock h r d).readings ≡ r.readings + length d.frames
unfolding store_frames
readings-store_frames clock h r d =
    readings-on_frames clock d.frames
      (record { header = h; did_write = r.did_write; readings = r.readings })

module _ (clock : ℕ → ℕ) (ticks : (n : ℕ) → clock n < u64_mod) {cap : ℕ} (g : IsCapacity cap)
    (start : ℕ) where
  pub complete_slots-Stores :
      {c e : CodecVariant} {xs : List Completion} {fs : List Frame} (index : ℕ)
      → Decodes c xs fs e
      → (ps : List Packet) (r : Receiving) → Stores cap start ps c r
      → (t : Receiving) × (complete_slots clock index xs r ≡ ok t)
        × Stores cap start (all_queued cap ps (stamped clock r.readings fs)) e t
  unfolding complete_slots
  complete_slots-Stores index none_left ps r s = (r, refl, s)
  complete_slots-Stores index (passed_over {c} {e} {xs} x b d) ps r s =
      let idx = index % 16 in
      let (t, run, stores) =
        complete_slots-Stores (suc index) d ps (release idx r)
          (release-Stores clock ticks g start idx ps c r s) in
      (
        t,
        ap (λ m. m >>= complete_slots clock (suc index) xs) (passed clock idx x r b) ∙ run,
        stores,
      )
  complete_slots-Stores index (decoded {c} {e} {xs} {fs} x d b run v rest) ps r s =
      let idx = index % 16 in
      let publishes = subst PublishesIf run (codec_publishes c x.bytes) in
      let qs = all_queued cap ps (stamped clock r.readings d.frames) in
      let r1 = store_frames clock s.header r d in
      let stored = store_frames-Stores clock ticks g start ps c r d s v publishes in
      let counted = counted-Stores clock ticks g start x.bytes qs d.codec r1 stored in
      let r2 = release idx (count_read x.bytes r1) in
      let (t, later, stores) =
        complete_slots-Stores (suc index) rest qs r2
          (release-Stores clock ticks g start idx qs d.codec (count_read x.bytes r1) counted) in
      (
        t,
        ap (λ m. m >>= complete_slots clock (suc index) xs)
              (complete_slot_decodes clock ticks g start idx x c r d ps s b run)
            ∙ later,
        subst (λ l. Stores cap start l e t)
            (two_transfers clock cap ps r.readings r2.readings d.frames fs
              (readings-store_frames clock s.header r d))
            stores,
      )
