-- ===== src/Driver/Slots.antt =====
-- The slots of the RX ring: SubmitPendingReads, and what StartAsyncRead, StopAsyncRead and
-- ReadCompleteBundled do to the slots.
use i_can.Common.{
  ℕ, zero, suc, ◌+◌, ◌-◌, ◌%◌, Bool, not, ◌&&◌, Option, none, some, List, [], ◌∷◌, ltb, ◌==◌,
  if◌then◌else◌, set, replicate,
}
use i_can.Common.Words.{add32}
use i_can.Common.IoReturn.{IoReturn, success, not_ready, is_success}

-- RX_RING_SIZE
abbrev pub rx_ring_size : ℕ
rx_ring_size = 16

pub data RxSlotState : Type 0 where
  free inflight ready : RxSlotState

-- fRxSlotState and fRxSlotsInFlight
pub record Slots : Type 0 where
  pub states : List RxSlotState
  pub in_flight : ℕ

-- AsyncIOBundled for the first slot and the number of slots: its result, and how many it accepted.
abbrev pub BundledFn : Type 0
BundledFn = ℕ → ℕ → IoReturn × ℕ

-- The first loop of SubmitPendingReads from slot `i` on, with startIdx, which is none for
-- UINT32_MAX, and count.
unfoldable pub free_run : ℕ → Option ℕ → ℕ → List RxSlotState → Option ℕ × ℕ
free_run i start count [] = (start, count)
free_run i none count (free ∷ l) = free_run (suc i) (some i) (suc count) l
free_run i (some k) count (free ∷ l) = free_run (suc i) (some k) (suc count) l
free_run i none count (s ∷ l) = free_run (suc i) none count l
free_run i (some k) count (s ∷ l) = (some k, count)

-- Its second loop: the free slots that stand first, among the first `n`.
unfoldable pub leading_free : ℕ → List RxSlotState → ℕ
leading_free zero l = 0
leading_free (suc n) [] = 0
leading_free (suc n) (free ∷ l) = suc (leading_free n l)
leading_free (suc n) (s ∷ l) = 0

unfoldable pub bundle_of : List RxSlotState → Option ℕ × ℕ → Option (ℕ × ℕ)
bundle_of l (none, count) = none
bundle_of l (some k, count) =
    let total = if k + count == rx_ring_size then count + leading_free k l else count in
    if total == 0 then none else some (k, if ltb rx_ring_size total then rx_ring_size else total)

-- The first slot and the number of slots that SubmitPendingReads submits, if any.
unfoldable pub pending : List RxSlotState → Option (ℕ × ℕ)
unfolding free_run leading_free bundle_of
pending l = bundle_of l (free_run 0 none 0 l)

-- The loop that marks the accepted slots, `n` of them from `at` on.
unfoldable pub mark_inflight : ℕ → ℕ → List RxSlotState → List RxSlotState
mark_inflight zero at l = l
mark_inflight (suc n) at l = mark_inflight n (suc at) (set l (at % rx_ring_size) inflight)

abbrev pub mark_slots : ℕ → ℕ → Slots → Slots
mark_slots n at s = record { states = mark_inflight n at s.states; in_flight = add32 s.in_flight n }

unfoldable pub submit_bundle : BundledFn → Option (ℕ × ℕ) → Slots → IoReturn × Slots
submit_bundle io none s = (success, s)
submit_bundle io (some (k, n)) s =
    let (ret, accepted) = io k n in
    (ret, if is_success ret && ltb 0 accepted then mark_slots accepted k s else s)

-- USBCANDriver::SubmitPendingReads; `ready_for_io` says that the driver is running and has a pipe.
unfoldable pub submit_pending_reads : BundledFn → Bool → Slots → IoReturn × Slots
unfolding submit_bundle
submit_pending_reads io ready_for_io s =
    if not ready_for_io then (not_ready, s) else submit_bundle io (pending s.states) s

-- ReadCompleteBundled on a slot.
unfoldable pub release_slot : ℕ → Slots → Slots
release_slot idx s = record {
  states = set s.states idx free;
  in_flight = if ltb 0 s.in_flight then s.in_flight - 1 else s.in_flight;
}

-- All slots free, as StartAsyncRead has them before it submits, and StopAsyncRead leaves them.
abbrev pub no_reads : Slots
no_reads = record { states = replicate rx_ring_size free; in_flight = 0 }
