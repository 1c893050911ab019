-- ===== src/UserClient/Conserved.antt =====
-- The completions that the client hands over, and what becomes of them.
use i_can.Common.{
  ℕ, ◌+◌, ◌≡◌, refl, sym, ap, subst, inl, inr, Option, none, some, List, [], ◌∷◌, ◌==◌,
  if◌then◌else◌, arith, Bool-cases,
}
use i_can.Common.IoReturn.{IoReturn, success, aborted}
use i_can.Ring.{Header}
use i_can.UserClient.Waits.{
  Waits, has_data, complete, take_pending, check_first, store_completion, check_second,
  notify_rx_data_available, cancel_pending,
}
use i_can.UserClient.Wakeups.{
  Waiter, outside, checked, stored, Shared, at_first, Step, first, store, second, write, notify,
  consume, close, Reached, start, next,
}

-- How often an action was completed, waits, and is in the hands of a call.
abbrev pub times : ℕ → List ℕ → ℕ
times a [] = 0
times a (b ∷ l) = (if a == b then 1 else 0) + times a l

abbrev pub times_completed : ℕ → List (ℕ × IoReturn) → ℕ
times_completed a [] = 0
times_completed a ((b, r) ∷ l) = (if a == b then 1 else 0) + times_completed a l

abbrev pub times_pending : ℕ → Option ℕ → ℕ
times_pending a none = 0
times_pending a (some b) = if a == b then 1 else 0

abbrev pub times_held : ℕ → Waiter → ℕ
times_held a (checked b) = if a == b then 1 else 0
times_held a outside = 0
times_held a stored = 0

-- Every action that was handed over was completed, waits, or is in the hands of a call, as often as
-- it was handed over.
abbrev pub IsConserved : Shared → Type 0
IsConserved s =
    (a : ℕ)
    → times a s.handed
      ≡ times_completed a s.waits.completed
        + (times_pending a s.waits.pending + times_held a s.waiter)

-- Completing what is pending moves it.
take_pending_times :
    (a : ℕ) (r : IoReturn) (p : Option ℕ) (l : List (ℕ × IoReturn))
    → times_completed a (complete p r l) ≡ times_completed a l + times_pending a p
take_pending_times a r none l = omega arith
take_pending_times a r (some b) l = omega arith

taken-IsConserved :
    (r : IoReturn) (a : ℕ) (w : Waits)
    → times_completed a (take_pending r w).completed + times_pending a (take_pending r w).pending
      ≡ times_completed a w.completed + times_pending a w.pending
unfolding take_pending
taken-IsConserved r a w = omega (arith, take_pending_times a r w.pending w.completed)

second-IsConserved :
    (ring : Option Header) (a : ℕ) (w : Waits)
    → times_completed a (check_second ring w).completed
        + times_pending a (check_second ring w).pending
      ≡ times_completed a w.completed + times_pending a w.pending
unfolding check_second
second-IsConserved ring a w = elim (Bool-cases (has_data ring)) [
  | inl e ↦ rw e (taken-IsConserved success a w)
  | inr e ↦ rw e refl
]

first-IsConserved :
    (s : Shared) (b : ℕ) → s.waiter ≡ outside → IsConserved s → IsConserved (at_first b s)
unfolding check_first
first-IsConserved s b o h a =
    let old = h a in
    let none_held : times_held a s.waiter ≡ 0 = ap (times_held a) o in
    elim (Bool-cases (has_data s.ring)) [
      | inl e ↦ rw e (omega (arith, old, none_held))
      | inr e ↦ rw e (omega (arith, old, none_held))
    ]

Step-IsConserved : (s t : Shared) → Step s t → IsConserved s → IsConserved t
unfolding store_completion notify_rx_data_available cancel_pending
Step-IsConserved s t (first b o e) h = subst IsConserved (sym e) (first-IsConserved s b o h)
Step-IsConserved s t (store b o e) h = subst IsConserved (sym e) (λ a. omega (
  arith,
  h a,
  ap (times_held a) o,
  take_pending_times a aborted s.waits.pending s.waits.completed,
))
Step-IsConserved s t (second o e) h =
    subst IsConserved (sym e)
      (λ a. omega (arith, h a, ap (times_held a) o, second-IsConserved s.ring a s.waits))
Step-IsConserved s t (write ring e) h = subst IsConserved (sym e) h
Step-IsConserved s t (notify o e) h =
    subst IsConserved (sym e) (λ a. omega (arith, h a, taken-IsConserved success a s.waits))
Step-IsConserved s t (consume ring keep e) h = subst IsConserved (sym e) h
Step-IsConserved s t (close o e) h =
    subst IsConserved (sym e) (λ a. omega (arith, h a, taken-IsConserved aborted a s.waits))

-- In whatever order those parts run, each action that was handed to WaitForData was completed, waits
-- in fPendingCompletion or is in the hands of the call, as often in all as it was handed over: none
-- is lost, and none is completed twice.
pub Reached-IsConserved : {s : Shared} → Reached s → IsConserved s
Reached-IsConserved (start ring) = λ a. omega arith
Reached-IsConserved (next {s} {t} r st) = Step-IsConserved s t st (Reached-IsConserved r)
