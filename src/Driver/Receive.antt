-- ===== src/Driver/Receive.antt =====
-- ReadCompleteBundled: the transfers of a bundle are decoded into the RX ring.
use i_can.Common.{
  ℕ, suc, ◌%◌, Bool, false, ◌&&◌, ◌||◌, Option, none, some, List, [], ◌∷◌, ltb, if◌then◌else◌,
  length,
}
use i_can.Common.Words.{add32}
use i_can.Common.Outcome.{Outcome, ok, ◌>>=◌}
use i_can.Common.IoReturn.{IoReturn, is_success}
use i_can.Can.{Frame}
use i_can.Ring.{Header, write_rx_frame}
use i_can.Slcan.Lines.{process_bytes}
use i_can.Gsusb.Codec as GsusbCodec
use i_can.Pcan.Stream as PcanStream
use i_can.Driver.State.{Driver, Transfers, CodecVariant, slcan, gsusb, pcan, is_some}
use i_can.Driver.Slots.{BundledFn, rx_ring_size, submit_pending_reads, release_slot}
use i_can.Driver.Drains.{drain_tx_ring_of}

-- What a codec made of a transfer: its new state, the frames for `onFrame`, in order, and what it
-- publishes in the header, for which it is given none here.
pub record Decoded : Type 0 where
  pub codec : CodecVariant
  pub frames : List Frame
  pub publish : Header → Header

abbrev pub at_most_one : Option Frame → List Frame
at_most_one none = []
at_most_one (some f) = f ∷ []

-- std::visit of processRxData
unfoldable pub codec_process_rx_data : CodecVariant → List ℕ → Outcome Decoded
codec_process_rx_data (slcan a) bytes =
    let (a', fs) = process_bytes a bytes in
    ok (record { codec = slcan a'; frames = fs; publish = λ h. h })
codec_process_rx_data (gsusb c) bytes =
    let (e, f) = GsusbCodec.process_rx_data c.echo bytes in
    ok (record { codec = gsusb (record c { echo = e }); frames = at_most_one f; publish = λ h. h })
codec_process_rx_data (pcan c n) bytes = PcanStream.process_rx_data n bytes >>= λ p.
    ok (record { codec = pcan c p.counts; frames = p.frames; publish = PcanStream.publish bytes p })

-- The header, `didWriteFrame`, and how often the clock was read.
pub record Written : Type 0 where
  pub header : Header
  pub did_write : Bool
  pub readings : ℕ

-- The callback of processRxData; `clock` is the time in microseconds at each reading.
unfoldable pub on_frame : (ℕ → ℕ) → Frame → Written → Written
on_frame clock f w =
    let (h, done) = write_rx_frame w.header 0 f (clock w.readings) in
    record { header = h; did_write = done || w.did_write; readings = suc w.readings }

unfoldable pub on_frames : (ℕ → ℕ) → List Frame → Written → Written
unfolding on_frame
on_frames clock [] w = w
on_frames clock (f ∷ fs) w = on_frames clock fs (on_frame clock f w)

-- The driver, `didWriteFrame`, and how often the clock was read.
pub record Receiving : Type 0 where
  pub driver : Driver
  pub did_write : Bool
  pub readings : ℕ

-- The frames of a transfer are written to the ring.
unfoldable pub store_frames : (ℕ → ℕ) → Header → Receiving → Decoded → Receiving
unfolding on_frames
store_frames clock h r c =
    let w =
      on_frames clock c.frames
        (record { header = h; did_write = r.did_write; readings = r.readings }) in
    record {
      driver = record r.driver { codec = c.codec; ring_header = some (c.publish w.header) };
      did_write = w.did_write;
      readings = w.readings;
    }

-- A transfer that brought bytes is decoded, where there is a ring.
unfoldable pub decode_transfer : (ℕ → ℕ) → List ℕ → Option Header → Receiving → Outcome Receiving
unfolding store_frames
decode_transfer clock bytes none r = ok r
decode_transfer clock bytes (some h) r =
    codec_process_rx_data r.driver.codec bytes >>= λ c. ok (store_frames clock h r c)

-- A completion: its status, and the bytes that came.
pub record Completion : Type 0 where
  pub status : IoReturn
  pub bytes : List ℕ

abbrev pub count_read : List ℕ → Receiving → Receiving
count_read bytes r = record r {
  driver = record r.driver {
    read_complete_count = add32 r.driver.read_complete_count 1;
    read_complete_bytes = add32 r.driver.read_complete_bytes (length bytes);
  };
}

abbrev pub release : ℕ → Receiving → Receiving
release idx r = record r { driver = record r.driver { slots = release_slot idx r.driver.slots } }

-- The body of the loop of ReadCompleteBundled.
unfoldable pub complete_slot : (ℕ → ℕ) → ℕ → Completion → Receiving → Outcome Receiving
unfolding decode_transfer
complete_slot clock idx c r =
    if is_success c.status && ltb 0 (length c.bytes)
    then (decode_transfer clock c.bytes r.driver.ring_header r >>= λ r'.
        ok (release idx (count_read c.bytes r')))
    else ok (release idx r)

-- The loop, from the slot `index` on; the sum of its slots does not reach 2 ^ 32.
unfoldable pub complete_slots : (ℕ → ℕ) → ℕ → List Completion → Receiving → Outcome Receiving
unfolding complete_slot
complete_slots clock index [] r = ok r
complete_slots clock index (c ∷ cs) r =
    complete_slot clock (index % rx_ring_size) c r >>= λ r'. complete_slots clock (suc index) cs r'

-- needsDrainTx of the codecs
abbrev pub needs_drain_tx : CodecVariant → Bool
needs_drain_tx (slcan a) = false
needs_drain_tx (gsusb c) = c.echo.needs_drain_tx
needs_drain_tx (pcan c n) = false

-- The slots that ReadCompleteBundled submits again.
abbrev pub resubmit : BundledFn → Driver → Driver
resubmit io d =
    if d.is_running
    then record d { slots = (submit_pending_reads io (is_some d.bulk_in_pipe) d.slots).1 }
    else d

-- ReadCompleteBundled after its loop: the driver, and whether it calls NotifyRxDataAvailable.
unfoldable pub after_completions : Transfers → BundledFn → Receiving → Outcome (Driver × Bool)
after_completions u io r =
    let d = resubmit io r.driver in
    let notified = r.did_write && d.has_user_client in
    if needs_drain_tx d.codec
    then (drain_tx_ring_of u d >>= λ (ret, d'). ok (d', notified))
    else ok (d, notified)

-- USBCANDriver::ReadCompleteBundled_Impl
unfoldable pub read_complete_bundled :
    Transfers → BundledFn → (ℕ → ℕ) → ℕ → List Completion → Driver → Outcome (Driver × Bool)
unfolding complete_slots after_completions
read_complete_bundled u io clock index completions d =
    complete_slots clock index completions (record { driver = d; did_write = false; readings = 0 })
    >>= after_completions u io
