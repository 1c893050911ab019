-- ===== src/UserClient/Wakeups.antt =====
-- WaitForData against the driver: the steps of a call, the driver's writes and its notifications, in
-- any order.
use i_can.Common.{
  ℕ, ◌≡◌, ◌≢◌, ◌⊎◌, inl, inr, refl, sym, ap, subst, ◌∙◌, true, Option, none, List, [], ◌∷◌,
  if◌then◌else◌, Bool-cases,
}
use i_can.Common.Options.{Option-cases}
use i_can.Ring.{Header}
use i_can.UserClient.Waits.{
  Waits, has_data, check_first, store_completion, check_second, notify_rx_data_available,
  cancel_pending,
}

-- Where a call of WaitForData stands.
pub data Waiter : Type 0 where
  outside : Waiter
  checked : ℕ → Waiter
  stored : Waiter

-- Where the driver stands in ReadCompleteBundled: after a frame that was written it has still to
-- notify the client.
pub data Notifier : Type 0 where
  quiet wrote : Notifier

-- The ring, the completions, both threads, and the actions that the client has handed over.
pub record Shared : Type 0 where
  pub ring : Option Header
  pub waits : Waits
  pub waiter : Waiter
  pub notifier : Notifier
  pub handed : List ℕ

abbrev pub at_first : ℕ → Shared → Shared
at_first a s =
    let (returned, w) = check_first s.ring a s.waits in
    record s { waits = w; waiter = if returned then outside else checked a; handed = a ∷ s.handed }

pub data Step (s t : Shared) : Type 0 where
  -- A call of WaitForData, in its three atomic parts.
  first : (a : ℕ) → s.waiter ≡ outside → t ≡ at_first a s → Step s t
  store :
      (a : ℕ)
      → s.waiter ≡ checked a
      → t ≡ record s { waits = store_completion a s.waits; waiter = stored }
      → Step s t
  second :
      s.waiter ≡ stored
      → t ≡ record s { waits = check_second s.ring s.waits; waiter = outside }
      → Step s t
  -- The driver writes to the RX ring, and notifies the client some time after.
  write : (ring : Option Header) → t ≡ record s { ring = ring; notifier = wrote } → Step s t
  notify :
      s.notifier ≡ wrote
      → t ≡ record s { waits = notify_rx_data_available s.waits; notifier = quiet }
      → Step s t
  -- The client takes frames from the ring, or the ring is reset: that brings no data.
  consume :
      (ring : Option Header)
      → (has_data ring ≡ true → has_data s.ring ≡ true)
      → t ≡ record s { ring = ring }
      → Step s t
  -- Close, which no call of WaitForData overlaps.
  close : s.waiter ≡ outside → t ≡ record s { waits = cancel_pending s.waits } → Step s t

abbrev pub idle : Option Header → Shared
idle ring = record {
  ring = ring;
  waits = record { pending = none; completed = [] };
  waiter = outside;
  notifier = quiet;
  handed = [];
}

pub data Reached : Shared → Type 0 where
  start : (ring : Option Header) → Reached (idle ring)
  next : {s t : Shared} → Reached s → Step s t → Reached t

-- A completion waits beside data in the ring only while a check or a notification is to come.
abbrev IsAwake : Shared → Type 0
IsAwake s =
    s.waits.pending ≢ none → has_data s.ring ≡ true → (s.waiter ≡ stored) ⊎ (s.notifier ≡ wrote)

first_pending :
    (ring : Option Header) (a : ℕ) (w : Waits) → (check_first ring a w).1.pending ≡ w.pending
unfolding check_first
first_pending ring a w = elim (Bool-cases (has_data ring)) [ inl e ↦ rw e refl | inr e ↦ rw e refl ]

second_pending :
    (ring : Option Header) (w : Waits) → has_data ring ≡ true → (check_second ring w).pending ≡ none
unfolding check_second
second_pending ring w e = rw e refl

first-IsAwake : (a : ℕ) (s : Shared) → s.waiter ≡ outside → IsAwake s → IsAwake (at_first a s)
first-IsAwake a s o h = λ p d. elim (h (λ e. p (first_pending s.ring a s.waits ∙ e)) d) [
  | inl w ↦ absurd (cc)
  | inr n ↦ inr n
]

Step-IsAwake : (s t : Shared) → Step s t → IsAwake s → IsAwake t
unfolding notify_rx_data_available cancel_pending
Step-IsAwake s t (first a o e) h = subst IsAwake (sym e) (first-IsAwake a s o h)
Step-IsAwake s t (store a o e) h = λ p d. inl (ap (λ x. x.waiter) e)
Step-IsAwake s t (second o e) h = λ p d. absurd (
    p (
      ap (λ x. x.waits.pending) e
      ∙ second_pending s.ring s.waits (sym (ap (λ x. has_data x.ring) e) ∙ d)))
Step-IsAwake s t (write ring e) h = λ p d. inr (ap (λ x. x.notifier) e)
Step-IsAwake s t (notify o e) h = λ p d. absurd (p (ap (λ x. x.waits.pending) e))
Step-IsAwake s t (consume ring keep e) h = subst IsAwake (sym e) (λ p d. h p (keep d))
Step-IsAwake s t (close o e) h = λ p d. absurd (p (ap (λ x. x.waits.pending) e))

Reached-IsAwake : {s : Shared} → Reached s → IsAwake s
Reached-IsAwake (start ring) = λ p d. absurd (p refl)
Reached-IsAwake (next {s} {t} r st) = Step-IsAwake s t st (Reached-IsAwake r)

-- No wake-up is lost: in whatever order the parts of the calls of WaitForData, the driver's writes
-- and notifications, the client's reads and Close run, once no call is under way and the driver has
-- notified the client of what it wrote, no completion is left waiting while the ring has data.
pub no_lost_wakeup :
    {s : Shared}
    → Reached s
    → s.waiter ≡ outside
    → s.notifier ≡ quiet
    → has_data s.ring ≡ true
    → s.waits.pending ≡ none
no_lost_wakeup {s} r o q d = elim (Option-cases s.waits.pending) [
  | inl e ↦ e
  | inr (a, e) ↦ elim (Reached-IsAwake r (λ n. absurd (cc)) d) [
    | inl w ↦ absurd (cc)
    | inr n ↦ absurd (cc)
  ]
]
