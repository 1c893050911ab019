-- ===== src/Driver/Reachable.antt =====
-- The drains and the completions leave the set-up of the driver alone.
use i_can.Common.{
  ℕ, suc, ◌%◌, ◌≡◌, subst, Bool, false, ◌&&◌, ltb, Option, none, some, List, [], ◌∷◌, if_both,
  arith, length,
}
use i_can.Common.Outcome.{Outcome, ok, undefined, stuck, ◌>>=◌}
use i_can.Common.IoReturn.{IoReturn, is_success}
use i_can.Ring.{Header}
use i_can.Driver.State.{Driver, Transfers, CodecVariant}
use i_can.Driver.Slots.{BundledFn}
use i_can.Driver.Drains.{drain_tx_ring_of, send_data, drain_again, write_complete, write_complete2}
use i_can.Driver.Receive.{
  Receiving, Completion, Decoded, codec_process_rx_data, store_frames, decode_transfer, count_read,
  release, complete_slot, complete_slots, resubmit, needs_drain_tx, after_completions,
  read_complete_bundled,
}
use i_can.Driver.Histories.{
  Sends, Sends-refl, Sends-trans, send_raw_bytes-Sends, Sends-flight, Sends-flight2, Returns,
  drain_tx_ring-Returns, Ensures,
}

pub Ensures-bind :
    {A B : Type 0} (P : B → Type 0) (Q : A → Type 0) (m : Outcome A) (k : A → Outcome B)
    → Ensures Q m
    → ((a : A) → Q a → Ensures P (k a))
    → Ensures P (m >>= k)
Ensures-bind P Q (ok a) k q h = h a q
Ensures-bind P Q undefined k q h = tt
Ensures-bind P Q stuck k q h = tt

pub Ensures-ok :
    {A : Type 0} (P : A → Type 0) (m : Outcome A) (a : A) → Ensures P m → m ≡ ok a → P a
Ensures-ok P m a h e = subst (Ensures P) e h

Returns-Ensures :
    (d : Driver) (m : Outcome (IoReturn × Driver)) → Returns d m → Ensures (λ p. Sends d p.1) m
Returns-Ensures d (ok r) h = h
Returns-Ensures d undefined h = tt
Returns-Ensures d stuck h = tt

pub drain_tx_ring_of-Ensures :
    (u : Transfers) (d : Driver) → Ensures (λ p. Sends d p.1) (drain_tx_ring_of u d)
drain_tx_ring_of-Ensures u d = Returns-Ensures d (drain_tx_ring_of u d) (drain_tx_ring-Returns u d)

pub send_data-Ensures :
    (u : Transfers) (d : Driver) (bytes : List ℕ) → Ensures (λ p. Sends d p.1) (send_data u d bytes)
unfolding send_data
send_data-Ensures u d bytes =
    if_both (Ensures (λ p. Sends d p.1)) (ltb 0 (length bytes)) (send_raw_bytes-Sends u d bytes)
      (drain_tx_ring_of-Ensures u d)

drain_again-Ensures :
    (u : Transfers) (status : IoReturn) (d e : Driver)
    → Sends d e
    → Ensures (Sends d) (drain_again u status e)
drain_again-Ensures u status d e s =
    if_both (Ensures (Sends d)) (is_success status && e.is_running)
      (Ensures-bind (Sends d) (λ (p : IoReturn × Driver). Sends e p.1) (drain_tx_ring_of u e)
        (λ (r, d'). ok d') (drain_tx_ring_of-Ensures u e) (λ p h. Sends-trans d e p.1 s h))
      s

pub write_complete-Ensures :
    (u : Transfers) (status : IoReturn) (d : Driver) → Ensures (Sends d) (write_complete u status d)
unfolding write_complete
write_complete-Ensures u status d =
    drain_again-Ensures u status d (record d { tx_in_flight = false }) (Sends-flight d false)

pub write_complete2-Ensures :
    (u : Transfers) (status : IoReturn) (d : Driver)
    → Ensures (Sends d) (write_complete2 u status d)
unfolding write_complete2
write_complete2-Ensures u status d =
    drain_again-Ensures u status d (record d { tx_in_flight2 = false }) (Sends-flight2 d false)

decoded-Sends :
    (d : Driver) (c : CodecVariant) (h : Option Header)
    → Sends d (record d { codec = c; ring_header = h })
decoded-Sends d c h = ground arith

stored-Sends :
    (clock : ℕ → ℕ) (h : Header) (r : Receiving) (c : Decoded)
    → Sends r.driver (store_frames clock h r c).driver
unfolding store_frames
stored-Sends clock h r c = decoded-Sends r.driver c.codec _

pub anything : {A : Type 0} (m : Outcome A) → Ensures (λ _. Unit {0}) m
anything (ok a) = tt
anything undefined = tt
anything stuck = tt

decode_transfer-Ensures :
    (clock : ℕ → ℕ) (bytes : List ℕ) (h : Option Header) (r : Receiving)
    → Ensures (λ s. Sends r.driver s.driver) (decode_transfer clock bytes h r)
unfolding decode_transfer
decode_transfer-Ensures clock bytes none r = Sends-refl r.driver
decode_transfer-Ensures clock bytes (some h) r =
    Ensures-bind (λ s. Sends r.driver s.driver) (λ c. Unit {0})
      (codec_process_rx_data r.driver.codec bytes) (λ c. ok (store_frames clock h r c))
      (anything (codec_process_rx_data r.driver.codec bytes)) (λ c _. stored-Sends clock h r c)

release-Sends : (idx : ℕ) (bytes : List ℕ) (r : Receiving) → Sends r.driver (release idx r).driver
release-Sends idx bytes r = ground arith

counted-Sends :
    (idx : ℕ) (bytes : List ℕ) (r : Receiving)
    → Sends r.driver (release idx (count_read bytes r)).driver
counted-Sends idx bytes r = ground arith

complete_slot-Ensures :
    (clock : ℕ → ℕ) (idx : ℕ) (c : Completion) (r : Receiving)
    → Ensures (λ s. Sends r.driver s.driver) (complete_slot clock idx c r)
unfolding complete_slot
complete_slot-Ensures clock idx c r =
    let P = λ (s : Receiving). Sends r.driver s.driver in
    if_both (Ensures P) (is_success c.status && ltb 0 (length c.bytes))
      (Ensures-bind P P (decode_transfer clock c.bytes r.driver.ring_header r)
        (λ s. ok (release idx (count_read c.bytes s)))
        (decode_transfer-Ensures clock c.bytes r.driver.ring_header r)
        (λ s h.
          Sends-trans r.driver s.driver (release idx (count_read c.bytes s)).driver h
            (counted-Sends idx c.bytes s)))
      (release-Sends idx c.bytes r)

Ensures-mono :
    (d e : Driver)
    → Sends d e
    → (m : Outcome Receiving) → Ensures (λ s. Sends e s.driver) m
    → Ensures (λ s. Sends d s.driver) m
Ensures-mono d e s (ok r) h = Sends-trans d e r.driver s h
Ensures-mono d e s undefined h = tt
Ensures-mono d e s stuck h = tt

complete_slots-Ensures :
    (clock : ℕ → ℕ) (index : ℕ) (cs : List Completion) (r : Receiving)
    → Ensures (λ s. Sends r.driver s.driver) (complete_slots clock index cs r)
unfolding complete_slots
complete_slots-Ensures clock index [] r = Sends-refl r.driver
complete_slots-Ensures clock index (c ∷ cs) r =
    let P = λ (s : Receiving). Sends r.driver s.driver in
    Ensures-bind P P (complete_slot clock (index % 16) c r)
      (λ s. complete_slots clock (suc index) cs s) (complete_slot-Ensures clock (index % 16) c r)
      (λ s h.
        Ensures-mono r.driver s.driver h (complete_slots clock (suc index) cs s)
          (complete_slots-Ensures clock (suc index) cs s))

resubmit-Sends : (io : BundledFn) (d : Driver) → Sends d (resubmit io d)
resubmit-Sends io d = ground arith

Ensures-later :
    (d e : Driver)
    → Sends d e
    → (m : Outcome (Driver × Bool)) → Ensures (λ p. Sends e p.0) m
    → Ensures (λ p. Sends d p.0) m
Ensures-later d e s (ok p) h = Sends-trans d e p.0 s h
Ensures-later d e s undefined h = tt
Ensures-later d e s stuck h = tt

after_completions-Ensures :
    (u : Transfers) (io : BundledFn) (r : Receiving)
    → Ensures (λ p. Sends r.driver p.0) (after_completions u io r)
unfolding after_completions
after_completions-Ensures u io r =
    let d = resubmit io r.driver in
    let s = resubmit-Sends io r.driver in
    let P = λ (p : Driver × Bool). Sends r.driver p.0 in
    if_both (Ensures P) (needs_drain_tx d.codec)
      (Ensures-bind P (λ (p : IoReturn × Driver). Sends d p.1) (drain_tx_ring_of u d)
        (λ (ret, d'). ok (d', r.did_write && d.has_user_client)) (drain_tx_ring_of-Ensures u d)
        (λ p h. Sends-trans r.driver d p.1 s h))
      s

pub read_complete_bundled-Ensures :
    (u : Transfers) (io : BundledFn) (clock : ℕ → ℕ) (index : ℕ) (cs : List Completion) (d : Driver)
    → Ensures (λ p. Sends d p.0) (read_complete_bundled u io clock index cs d)
unfolding read_complete_bundled
read_complete_bundled-Ensures u io clock index cs d =
    let start : Receiving = record { driver = d; did_write = false; readings = 0 } in
    Ensures-bind (λ p. Sends d p.0) (λ (r : Receiving). Sends d r.driver)
      (complete_slots clock index cs start) (after_completions u io)
      (complete_slots-Ensures clock index cs start)
      (λ r h.
        Ensures-later d r.driver h (after_completions u io r) (after_completions-Ensures u io r))
