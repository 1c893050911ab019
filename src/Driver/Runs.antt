-- ===== src/Driver/Runs.antt =====
-- The run of slots that SubmitPendingReads submits, and the slots after it.
use i_can.Common.{
  ℕ, suc, ◌+◌, ◌≤◌, ◌≡◌, ◌≢◌, refl, ap, ap₂, ◌∙◌, ◌⊎◌, inl, inr, Option, none, some, List, [], ◌∷◌,
  ◌++◌, arith, length, All, replicate, length-append, length-replicate,
}
use i_can.Driver.Slots.{
  RxSlotState, free, inflight, ready, free_run, leading_free, bundle_of, pending,
}

abbrev pub IsBusy : RxSlotState → Type 0
IsBusy s = s ≢ free

-- No free slot stands at the front.
abbrev pub StartsBusy : List RxSlotState → Type 0
StartsBusy [] = Unit {0}
StartsBusy (s ∷ l) = IsBusy s

-- The slots `l` have a first run of `n` free slots behind `pre`.
pub record FirstRun (l pre : List RxSlotState) (n : ℕ) : Type 0 where
  pub post : List RxSlotState
  pub slots : l ≡ pre ++ (replicate n free ++ post)
  pub before : All IsBusy pre
  pub behind : StartsBusy post

-- The first loop once a free slot was found: it counts the free slots up to the next one.
counted :
    (i k count : ℕ) (l : List RxSlotState)
    → (n : ℕ) × (post : List RxSlotState) × (l ≡ replicate n free ++ post)
      × StartsBusy post
      × (free_run i (some k) count l ≡ (some k, count + n))
unfolding free_run
counted i k count [] = (0, [], refl, tt, ap (λ (t : ℕ). (some k, t)) (omega arith))
counted i k count (free ∷ l) =
    let (n, post, e, b, r) = counted (suc i) k (suc count) l in
    (suc n, post, ap (λ t. free ∷ t) e, b, r ∙ ap (λ (t : ℕ). (some k, t)) (omega arith))
counted i k count (inflight ∷ l) =
    (0, inflight ∷ l, refl, (λ e. cc), ap (λ (t : ℕ). (some k, t)) (omega arith))
counted i k count (ready ∷ l) =
    (0, ready ∷ l, refl, (λ e. cc), ap (λ (t : ℕ). (some k, t)) (omega arith))

-- What was found behind a busy slot.
later :
    (i : ℕ) (s : RxSlotState)
    → IsBusy s
    → (l : List RxSlotState) {r : Option ℕ × ℕ}
    → (All IsBusy l × (r ≡ (none, 0)))
      ⊎ ((pre : List RxSlotState) × (n : ℕ) × FirstRun l pre (suc n)
          × (r ≡ (some (suc i + length pre), suc n)))
    → (All IsBusy (s ∷ l) × (r ≡ (none, 0)))
      ⊎ ((pre : List RxSlotState) × (n : ℕ) × FirstRun (s ∷ l) pre (suc n)
          × (r ≡ (some (i + length pre), suc n)))
later i s b l (inl (h, e)) = inl ((b, h), e)
later i s b l (inr (pre, n, run, e)) = inr (
  s ∷ pre,
  n,
  record {
    post = run.post;
    slots = ap (λ t. s ∷ t) run.slots;
    before = (b, run.before);
    behind = run.behind;
  },
  e ∙ ap (λ (j : ℕ). (some j, suc n)) (omega arith),
)

-- The first loop finds the first run.
first_run :
    (i : ℕ) (l : List RxSlotState)
    → (All IsBusy l × (free_run i none 0 l ≡ (none, 0)))
      ⊎ ((pre : List RxSlotState) × (n : ℕ) × FirstRun l pre (suc n)
          × (free_run i none 0 l ≡ (some (i + length pre), suc n)))
unfolding free_run
first_run i [] = inl (tt, refl)
first_run i (free ∷ l) =
    let (n, post, e, b, r) = counted (suc i) i 1 l in
    inr (
      [],
      n,
      record { post = post; slots = ap (λ t. free ∷ t) e; before = tt; behind = b },
      r ∙ ap₂ (λ (j t : ℕ). (some j, t)) (omega arith) (omega arith),
    )
first_run i (inflight ∷ l) = later i inflight (λ e. cc) l (first_run (suc i) l)
first_run i (ready ∷ l) = later i ready (λ e. cc) l (first_run (suc i) l)

-- The second loop adds nothing: a run that does not start at slot 0 has a busy slot there.
leading_busy :
    (pre post : List RxSlotState) → All IsBusy pre → leading_free (length pre) (pre ++ post) ≡ 0
unfolding leading_free
leading_busy [] post h = refl
leading_busy (free ∷ pre) post (b, h) = absurd (b refl)
leading_busy (inflight ∷ pre) post h = refl
leading_busy (ready ∷ pre) post h = refl

run_fits : {l pre : List RxSlotState} {n : ℕ} → FirstRun l pre n → length pre + n ≤ length l
run_fits {l} {pre} {n} run = omega (
  arith,
  ap length run.slots,
  length-append pre (replicate n free ++ run.post),
  length-append (replicate n free) run.post,
  length-replicate n free,
)

bundle_lem :
    (l pre : List RxSlotState) (n : ℕ)
    → length l ≤ 16
    → FirstRun l pre (suc n)
    → bundle_of l (some (length pre), suc n) ≡ some (length pre, suc n)
unfolding bundle_of
bundle_lem l pre n h run =
    let fits : length pre + suc n ≤ length l = run_fits run in
    let none_led : leading_free (length pre) l ≡ 0 =
      ap (leading_free (length pre)) run.slots
      ∙ leading_busy pre (replicate (suc n) free ++ run.post) run.before in
    rw none_led (ground arith)

-- On at most 16 slots, SubmitPendingReads submits the first run of free slots, whole, and no run
-- that goes round the end; or no slot is free, and it submits nothing.
pub pending_lem :
    (l : List RxSlotState)
    → length l ≤ 16
    → (All IsBusy l × (pending l ≡ none))
      ⊎ ((pre : List RxSlotState) × (n : ℕ) × FirstRun l pre (suc n)
          × (length pre + suc n ≤ 16)
          × (pending l ≡ some (length pre, suc n)))
unfolding pending
pending_lem l h = elim (first_run 0 l) [
  | inl (busy, e) ↦ inl (busy, ap (bundle_of l) e)
  | inr (pre, n, run, e) ↦ inr (
    pre,
    n,
    run,
    (let fits : length pre + suc n ≤ length l = run_fits run in omega arith),
    ap (bundle_of l) e
        ∙ ap (λ (j : ℕ). bundle_of l (some j, suc n)) (omega arith)
        ∙ bundle_lem l pre n h run,
  )
]
