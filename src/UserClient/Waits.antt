-- ===== src/UserClient/Waits.antt =====
-- fPendingCompletion: the completions that WaitForData stores and that the driver, a later call or
-- Close completes. An action is a number.
use i_can.Common.{
  ℕ, Bool, true, false, not, ◌&&◌, Option, none, some, List, ◌∷◌, ◌==◌, if◌then◌else◌,
}
use i_can.Common.IoReturn.{IoReturn, success, aborted}
use i_can.Ring.{Header, ring_magic}

-- fPendingCompletion, and the calls of AsyncCompletion, the latest first.
pub record Waits : Type 0 where
  pub pending : Option ℕ
  pub completed : List (ℕ × IoReturn)

-- AsyncCompletion on what the exchange of fPendingCompletion gave, if it gave an action.
abbrev pub complete : Option ℕ → IoReturn → List (ℕ × IoReturn) → List (ℕ × IoReturn)
complete none r done = done
complete (some a) r done = (a, r) ∷ done

-- The test of both race checks.
abbrev pub has_data : Option Header → Bool
has_data none = false
has_data (some h) = (h.magic == ring_magic) && not (h.rx.head == h.rx.tail)

-- fPendingCompletion is exchanged for null, and the action that was there is completed.
unfoldable pub take_pending : IoReturn → Waits → Waits
take_pending r w = record { pending = none; completed = complete w.pending r w.completed }

-- WaitForData up to the first check: whether it has returned.
unfoldable pub check_first : Option Header → ℕ → Waits → Bool × Waits
check_first ring a w =
    if has_data ring
    then (true, record w { completed = (a, success) ∷ w.completed })
    else (false, w)

-- WaitForData stores the completion, and aborts one that was there.
unfoldable pub store_completion : ℕ → Waits → Waits
store_completion a w = record {
  pending = some a;
  completed = complete w.pending aborted w.completed;
}

-- The second check of WaitForData.
unfoldable pub check_second : Option Header → Waits → Waits
unfolding take_pending
check_second ring w = if has_data ring then take_pending success w else w

-- WaitForData on an open client, where nothing else runs.
unfoldable pub wait_for_data : Option Header → ℕ → Waits → Waits
unfolding check_first store_completion check_second
wait_for_data ring a w =
    let (returned, checked) = check_first ring a w in
    if returned then checked else check_second ring (store_completion a checked)

-- USBCANUserClient::NotifyRxDataAvailable
unfoldable pub notify_rx_data_available : Waits → Waits
unfolding take_pending
notify_rx_data_available w = take_pending success w

-- The part of Close that cancels the pending completion.
unfoldable pub cancel_pending : Waits → Waits
unfolding take_pending
cancel_pending w = take_pending aborted w
