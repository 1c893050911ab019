-- ===== src/Driver/Reads.antt =====
-- The reads in flight, through any calls of SubmitPendingReads, completions and stops.
use i_can.Common.{
  ℕ, zero, suc, ◌≤◌, ◌<◌, ◌≡◌, ◌≢◌, refl, sym, ap, subst, Bool, true, inl, inr, none, some, List,
  [], ◌∷◌, arith, length, All, get_elem?, replicate, lt→ltb,
}
use i_can.Common.IoReturn.{success}
use i_can.Driver.Slots.{
  RxSlotState, free, inflight, ready, Slots, BundledFn, submit_bundle, submit_pending_reads,
  release_slot, no_reads,
}
use i_can.Driver.Runs.{pending_lem}
use i_can.Driver.Marks.{
  count_inflight, count_inflight-le, IsUsed, IsCounted, IsBundled, submit-IsCounted,
  release-IsCounted,
}

-- What happens to the slots while the driver runs: a call of SubmitPendingReads, with any answer of
-- a pipe that accepts at most what it is offered, the completion of a read in flight, or a stop.
pub data Step (s t : Slots) : Type 0 where
  submit :
      (io : BundledFn) (ready_for_io : Bool)
      → IsBundled io
      → t ≡ (submit_pending_reads io ready_for_io s).1
      → Step s t
  complete : (i : ℕ) → get_elem? s.states i ≡ some inflight → t ≡ release_slot i s → Step s t
  stop : t ≡ no_reads → Step s t

pub data Reached : Slots → Type 0 where
  start : Reached no_reads
  next : {s t : Slots} → Reached s → Step s t → Reached t

All-replicate : (n : ℕ) → All IsUsed (replicate n free)
All-replicate zero = tt
All-replicate (suc n) = (inr refl, All-replicate n)

no_reads-IsCounted : IsCounted no_reads
no_reads-IsCounted = record { size = refl; used = All-replicate 16; counted = refl }

Step-IsCounted : {s t : Slots} → Step s t → IsCounted s → IsCounted t
Step-IsCounted {s} (submit io r honest e) c =
    subst IsCounted (sym e) (submit-IsCounted io r s honest c)
Step-IsCounted {s} (complete i h e) c = subst IsCounted (sym e) (release-IsCounted s i h c)
Step-IsCounted (stop e) c = subst IsCounted (sym e) no_reads-IsCounted

-- Through any calls of SubmitPendingReads, completions of reads in flight and stops, in any order,
-- there are 16 slots, each free or in flight, and fRxSlotsInFlight is the number of those that are
-- in flight.
pub Reached-IsCounted : {s : Slots} → Reached s → IsCounted s
Reached-IsCounted start = no_reads-IsCounted
Reached-IsCounted (next r st) = Step-IsCounted st (Reached-IsCounted r)

-- A pipe that accepts a part, at least, of what it is offered.
pub record IsAccepting (io : BundledFn) : Type 0 where
  pub bundled : IsBundled io
  pub takes : (start n : ℕ) → 0 < n → 0 < (io start n).1
  pub succeeds : (start n : ℕ) → (io start n).0 ≡ success

all_inflight :
    (l : List RxSlotState) → All IsUsed l → All (λ s. s ≢ free) l → count_inflight l ≡ length l
all_inflight [] h b = refl
all_inflight (inflight ∷ l) (p, h) (q, b) = ap suc (all_inflight l h b)
all_inflight (free ∷ l) (p, h) (q, b) = absurd (q refl)
all_inflight (ready ∷ l) (inl p, h) (q, b) = cc
all_inflight (ready ∷ l) (inr p, h) (q, b) = cc

-- A pipe that takes a part of each bundle adds it to the reads in flight.
accepted :
    (io : BundledFn) (s : Slots) (k n : ℕ)
    → IsAccepting io
    → s.in_flight ≤ 16
    → n ≤ 15
    → 0 < (submit_bundle io (some (k, suc n)) s).1.in_flight
unfolding submit_bundle
accepted io s k n h l m =
    let le : (io k (suc n)).1 ≤ suc n = h.bundled k (suc n) in
    let takes : 0 < (io k (suc n)).1 = h.takes k (suc n) (omega arith) in
    rw (h.succeeds k (suc n)) (rw (lt→ltb 0 (io k (suc n)).1 takes) (omega arith))

idle_bundle :
    (io : BundledFn) (s : Slots) → 0 < s.in_flight → 0 < (submit_bundle io none s).1.in_flight
unfolding submit_bundle
idle_bundle io s h = h

-- In any such state, a running driver whose pipe accepts at least a part of what it is offered has
-- a read in flight after SubmitPendingReads.
pub submit_keeps_reading :
    (io : BundledFn) {s : Slots}
    → Reached s
    → IsAccepting io
    → 0 < (submit_pending_reads io true s).1.in_flight
unfolding submit_pending_reads
submit_keeps_reading io {s} r h =
    let c = Reached-IsCounted r in
    let below : s.in_flight ≤ 16 = omega (arith, c.counted, c.size, count_inflight-le s.states) in
    elim (pending_lem s.states (let e = c.size in omega arith)) [
      | inl (busy, e) ↦
          subst (λ p. 0 < (submit_bundle io p s).1.in_flight) (sym e)
            (idle_bundle io s (omega (arith, c.counted, c.size, all_inflight s.states c.used busy)))
      | inr (pre, n, run, fits, e) ↦
          subst (λ p. 0 < (submit_bundle io p s).1.in_flight) (sym e)
            (accepted io s (length pre) n h below (omega arith))
    ]
