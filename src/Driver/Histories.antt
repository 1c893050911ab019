-- ===== src/Driver/Histories.antt =====
-- The driver through any calls of its operations.
use i_can.Common.{ℕ, ◌≡◌, Bool, not, ◌&&◌, ltb, leb, Option, none, some, List, if_both, arith}
use i_can.Common.Outcome.{Outcome, ok, undefined, stuck, ◌>>=◌}
use i_can.Common.IoReturn.{IoReturn}
use i_can.Ring.{Header}
use i_can.Codec.{DrainResult}
use i_can.Pcan.Codec.{ring0, ring1, drain_tx_ring}
use i_can.Driver.State.{Driver, Transfers, CodecVariant, slcan, gsusb, pcan, is_some}
use i_can.Driver.Transfer.{send_raw_bytes, send_raw_bytes_channel1}
use i_can.Driver.Drains.{
  after_sending, after_drain, through_tx1, back_through_tx1, is_dual, codec_drain_tx, drain_second,
  drain_single, drain_channel1, drain_dual, dual_result, dual_or_throw, drain_header,
  drain_tx_ring_of,
}
use i_can.Driver.Valid.{IsValid}

-- What a transfer leaves alone.
pub record Sends (d e : Driver) : Type 0 where
  pub same_in : e.bulk_in_pipe ≡ d.bulk_in_pipe
  pub same_out : e.bulk_out_pipe ≡ d.bulk_out_pipe
  pub same_buffer : e.has_tx_buffer ≡ d.has_tx_buffer
  pub same_configured : e.is_configured ≡ d.is_configured
  pub same_running : e.is_running ≡ d.is_running
  pub same_write : e.has_write_action ≡ d.has_write_action
  pub same_read : e.has_read_action ≡ d.has_read_action
  pub same_buffer2 : e.has_tx_buffer2 ≡ d.has_tx_buffer2
  pub same_write2 : e.has_write_action2 ≡ d.has_write_action2

pub Sends-IsValid : (d e : Driver) → Sends d e → IsValid d → IsValid e
Sends-IsValid d e s v = ground arith

pub Sends-refl : (d : Driver) → Sends d d
Sends-refl d = ground arith

pub Sends-trans : (a b c : Driver) → Sends a b → Sends b c → Sends a c
Sends-trans a b c s t = ground arith

pub send_raw_bytes-Sends :
    (u : Transfers) (d : Driver) (bytes : List ℕ) → Sends d (send_raw_bytes u d bytes).1
unfolding send_raw_bytes
send_raw_bytes-Sends u d bytes = ground arith

send_raw_bytes_channel1-Sends :
    (u : Transfers) (d : Driver) (bytes : List ℕ) → Sends d (send_raw_bytes_channel1 u d bytes).1
unfolding send_raw_bytes_channel1
send_raw_bytes_channel1-Sends u d bytes = ground arith

after_sending-Sends :
    (send : List ℕ → IoReturn × Driver) (d : Driver) (sent : Option (List ℕ))
    → ((bytes : List ℕ) → Sends d (send bytes).1)
    → Sends d (after_sending send d sent)
after_sending-Sends send d none h = Sends-refl d
after_sending-Sends send d (some bytes) h = h bytes

after_drain-Sends :
    (send : List ℕ → IoReturn × Driver) (d : Driver) (r : DrainResult)
    → ((bytes : List ℕ) → Sends d (send bytes).1)
    → Sends d (after_drain send d r)
after_drain-Sends send d r h = ground (arith, after_sending-Sends send d r.sent h)

-- A run that returns leaves the driver so.
abbrev pub Returns : Driver → Outcome (IoReturn × Driver) → Type 0
Returns d (ok r) = Sends d r.1
Returns d undefined = Unit {0}
Returns d stuck = Unit {0}

Returns-bind :
    {A : Type 0} (d : Driver) (m : Outcome A) (k : A → Outcome (IoReturn × Driver))
    → ((a : A) → Returns d (k a))
    → Returns d (m >>= k)
Returns-bind d (ok a) k h = h a
Returns-bind d undefined k h = tt
Returns-bind d stuck k h = tt

Returns-trans :
    (d e : Driver) (m : Outcome (IoReturn × Driver)) → Sends d e → Returns e m → Returns d m
Returns-trans d e (ok r) s h = Sends-trans d e r.1 s h
Returns-trans d e undefined s h = tt
Returns-trans d e stuck s h = tt

with_codec-Sends : (d e : Driver) (c : CodecVariant) → Sends d e → Sends d (record e { codec = c })
with_codec-Sends d e c s = ground arith

drain_second-Returns :
    (u : Transfers) (ret : IoReturn) (d : Driver) (h : Header) → Returns d (drain_second u ret d h)
unfolding drain_second
drain_second-Returns u ret d h =
    if_both (Returns d) (ltb 0 h.tx1_capacity && leb 2 h.channel_count)
      (Returns-bind d
        (codec_drain_tx (λ b. (send_raw_bytes u d b).0) (through_tx1 h) d.codec d.tx_in_flight)
        (λ (r, c).
          ok
            (ret, record (after_drain (send_raw_bytes u d) d (back_through_tx1 h r)) { codec = c }))
        (λ (r, c).
          with_codec-Sends d (after_drain (send_raw_bytes u d) d (back_through_tx1 h r)) c (
            after_drain-Sends (send_raw_bytes u d) d (back_through_tx1 h r)
              (send_raw_bytes-Sends u d))))
      (Sends-refl d)

drain_single-Returns : (u : Transfers) (d : Driver) (h : Header) → Returns d (drain_single u d h)
unfolding drain_single
drain_single-Returns u d h =
    Returns-bind d (codec_drain_tx (λ b. (send_raw_bytes u d b).0) h d.codec d.tx_in_flight)
      (λ (r, c).
        drain_second u r.result (record (after_drain (send_raw_bytes u d) d r) { codec = c })
          r.header)
      (λ (r, c).
        let sent : Driver = record (after_drain (send_raw_bytes u d) d r) { codec = c } in
        Returns-trans d sent (drain_second u r.result sent r.header)
          (with_codec-Sends d (after_drain (send_raw_bytes u d) d r) c
            (after_drain-Sends (send_raw_bytes u d) d r (send_raw_bytes-Sends u d)))
          (drain_second-Returns u r.result sent r.header))

drain_channel1-Returns :
    (u : Transfers) (ret : IoReturn) (d : Driver) (h : Header)
    → Returns d (drain_channel1 u ret d h)
unfolding drain_channel1
drain_channel1-Returns u ret d h =
    Returns-bind d (drain_tx_ring (λ b. (send_raw_bytes_channel1 u d b).0) ring1 h d.tx_in_flight2)
      (λ r. ok (dual_result ret r.result, after_drain (send_raw_bytes_channel1 u d) d r))
      (λ r. after_drain-Sends (send_raw_bytes_channel1 u d) d r (send_raw_bytes_channel1-Sends u d))

drain_dual-Returns : (u : Transfers) (d : Driver) (h : Header) → Returns d (drain_dual u d h)
unfolding drain_dual
drain_dual-Returns u d h =
    Returns-bind d (drain_tx_ring (λ b. (send_raw_bytes u d b).0) ring0 h d.tx_in_flight)
      (λ r. drain_channel1 u r.result (after_drain (send_raw_bytes u d) d r) r.header)
      (λ r.
        let sent : Driver = after_drain (send_raw_bytes u d) d r in
        Returns-trans d sent (drain_channel1 u r.result sent r.header)
          (after_drain-Sends (send_raw_bytes u d) d r (send_raw_bytes-Sends u d))
          (drain_channel1-Returns u r.result sent r.header))

dual_or_throw-Returns :
    (c : CodecVariant) (u : Transfers) (d : Driver) (h : Header) → Returns d (dual_or_throw c u d h)
unfolding dual_or_throw
dual_or_throw-Returns (pcan c n) u d h = drain_dual-Returns u d h
dual_or_throw-Returns (slcan a) u d h = tt
dual_or_throw-Returns (gsusb c) u d h = tt

drain_header-Returns :
    (u : Transfers) (d : Driver) (h : Option Header) → Returns d (drain_header u d h)
unfolding drain_header
drain_header-Returns u d none = Sends-refl d
drain_header-Returns u d (some h) =
    if_both (Returns d) (not (is_some d.bulk_out_pipe)) (Sends-refl d) (
      if_both (Returns d) (is_dual d) (dual_or_throw-Returns d.codec u d h)
        (drain_single-Returns u d h))

pub drain_tx_ring-Returns : (u : Transfers) (d : Driver) → Returns d (drain_tx_ring_of u d)
unfolding drain_tx_ring_of
drain_tx_ring-Returns u d = drain_header-Returns u d d.ring_header

-- What a run that returns says of its driver.
abbrev pub Ensures {ℓ} : {A : Type ℓ} → (A → Type 0) → Outcome A → Type 0
Ensures P (ok a) = P a
Ensures P undefined = Unit {0}
Ensures P stuck = Unit {0}

pub Sends-flight : (d : Driver) (b : Bool) → Sends d (record d { tx_in_flight = b })
Sends-flight d b = ground arith

pub Sends-flight2 : (d : Driver) (b : Bool) → Sends d (record d { tx_in_flight2 = b })
Sends-flight2 d b = ground arith
