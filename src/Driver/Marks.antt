-- ===== src/Driver/Marks.antt =====
-- How the number of reads in flight follows the states of the RX slots.
use i_can.Common.{
  ℕ, zero, suc, ◌+◌, ◌-◌, ◌%◌, ◌≤◌, ◌≡◌, refl, sym, ap, ap₂, subst, ◌∙◌, Bool, true, false, ◌&&◌,
  ◌⊎◌, inl, inr, some, List, [], ◌∷◌, ◌++◌, arith, ltb, length, All, set, get_elem?, replicate,
  length-append, length-set, append_assoc, Bool-cases,
}
use i_can.Common.IoReturn.{is_success}
use i_can.Driver.Slots.{
  RxSlotState, free, inflight, ready, Slots, BundledFn, mark_inflight, submit_bundle,
  submit_pending_reads, release_slot,
}
use i_can.Driver.Runs.{FirstRun, pending_lem}

abbrev pub count_inflight : List RxSlotState → ℕ
count_inflight [] = 0
count_inflight (inflight ∷ l) = suc (count_inflight l)
count_inflight (free ∷ l) = count_inflight l
count_inflight (ready ∷ l) = count_inflight l

abbrev pub IsUsed : RxSlotState → Type 0
IsUsed s = (s ≡ inflight) ⊎ (s ≡ free)

-- There are 16 slots, each free or in flight, and the counter says how many are in flight.
pub record IsCounted (s : Slots) : Type 0 where
  pub size : length s.states ≡ 16
  pub used : All IsUsed s.states
  pub counted : s.in_flight ≡ count_inflight s.states

All-set {ℓ κ} :
    {A : Type ℓ} (P : A → Type κ) (l : List A) (i : ℕ) (v : A) → All P l → P v → All P (set l i v)
All-set P [] i v h p = h
All-set P (x ∷ l) zero v (hx, h) p = (p, h)
All-set P (x ∷ l) (suc i) v (hx, h) p = (hx, All-set P l i v h p)

mark_inflight-IsUsed :
    (n at : ℕ) (l : List RxSlotState) → All IsUsed l → All IsUsed (mark_inflight n at l)
unfolding mark_inflight
mark_inflight-IsUsed zero at l h = h
mark_inflight-IsUsed (suc n) at l h =
    mark_inflight-IsUsed n (suc at) (set l (at % 16) inflight)
      (All-set IsUsed l (at % 16) inflight h (inl refl))

count_inflight-append :
    (l m : List RxSlotState) → count_inflight (l ++ m) ≡ count_inflight l + count_inflight m
count_inflight-append [] m = omega arith
count_inflight-append (inflight ∷ l) m = omega (arith, count_inflight-append l m)
count_inflight-append (free ∷ l) m = omega (arith, count_inflight-append l m)
count_inflight-append (ready ∷ l) m = omega (arith, count_inflight-append l m)

count_inflight-replicate : (n : ℕ) → count_inflight (replicate n inflight) ≡ n
count_inflight-replicate zero = refl
count_inflight-replicate (suc n) = ap suc (count_inflight-replicate n)

pub count_inflight-le : (l : List RxSlotState) → count_inflight l ≤ length l
count_inflight-le [] = omega arith
count_inflight-le (inflight ∷ l) = omega (arith, count_inflight-le l)
count_inflight-le (free ∷ l) = omega (arith, count_inflight-le l)
count_inflight-le (ready ∷ l) = omega (arith, count_inflight-le l)

set_middle :
    (pre rest : List RxSlotState) (x v : RxSlotState)
    → set (pre ++ (x ∷ rest)) (length pre) v ≡ pre ++ (v ∷ rest)
set_middle [] rest x v = refl
set_middle (y ∷ pre) rest x v = ap (λ t. y ∷ t) (set_middle pre rest x v)

-- The accepted slots of a run are in flight, and the others are as before.
mark_run :
    (n : ℕ) (pre rest : List RxSlotState)
    → length pre + n ≤ 16
    → mark_inflight n (length pre) (pre ++ (replicate n free ++ rest))
      ≡ pre ++ (replicate n inflight ++ rest)
unfolding mark_inflight
mark_run zero pre rest h = refl
mark_run (suc n) pre rest h =
    let here : length pre % 16 ≡ length pre = omega arith in
    let moved : suc (length pre) ≡ length (pre ++ (inflight ∷ [])) =
      omega (arith, length-append pre (inflight ∷ [])) in
    let behind = replicate n free ++ rest in
    ap (λ j. mark_inflight n (suc (length pre)) (set (pre ++ (free ∷ behind)) j inflight)) here
    ∙ ap (mark_inflight n (suc (length pre))) (set_middle pre behind free inflight)
    ∙ ap₂ (mark_inflight n) moved (sym (append_assoc pre (inflight ∷ []) behind))
    ∙ mark_run n (pre ++ (inflight ∷ [])) rest (omega (arith, moved))
    ∙ append_assoc pre (inflight ∷ []) (replicate n inflight ++ rest)

replicate_split :
    (a b : ℕ) (rest : List RxSlotState)
    → replicate (a + b) free ++ rest ≡ replicate a free ++ (replicate b free ++ rest)
replicate_split zero b rest =
    let e : 0 + b ≡ b = omega arith in ap (λ k. replicate k free ++ rest) e
replicate_split (suc a) b rest =
    let e : suc a + b ≡ suc (a + b) = omega arith in
    ap (λ k. replicate k free ++ rest) e ∙ ap (λ t. free ∷ t) (replicate_split a b rest)

count_free : (n : ℕ) → count_inflight (replicate n free) ≡ 0
count_free zero = refl
count_free (suc n) = count_free n

length-mark_inflight : (n at : ℕ) (l : List RxSlotState) → length (mark_inflight n at l) ≡ length l
unfolding mark_inflight
length-mark_inflight zero at l = refl
length-mark_inflight (suc n) at l =
    length-mark_inflight n (suc at) (set l (at % 16) inflight) ∙ length-set l (at % 16) inflight

-- A run of free slots of which `a` were accepted: so many more are in flight.
count-mark_run :
    (l pre : List RxSlotState) (n a : ℕ)
    → FirstRun l pre n
    → length pre + n ≤ 16
    → a ≤ n
    → count_inflight (mark_inflight a (length pre) l) ≡ count_inflight l + a
count-mark_run l pre n a run h le =
    let split : replicate n free ++ run.post
        ≡ replicate a free ++ (replicate (n - a) free ++ run.post) =
      (let e : n ≡ a + (n - a) = omega arith in ap (λ k. replicate k free ++ run.post) e)
      ∙ replicate_split a (n - a) run.post in
    let shape = run.slots ∙ ap (λ t. pre ++ t) split in
    let rest = replicate (n - a) free ++ run.post in
    let marked = ap (mark_inflight a (length pre)) shape ∙ mark_run a pre rest (omega arith) in
    omega (
      arith,
      ap count_inflight marked,
      ap count_inflight shape,
      count_inflight-append pre (replicate a inflight ++ rest),
      count_inflight-append pre (replicate a free ++ rest),
      count_inflight-append (replicate a inflight) rest,
      count_inflight-append (replicate a free) rest,
      count_inflight-replicate a,
      count_free a,
    )

-- The pipe accepts at most what it is offered.
abbrev pub IsBundled : BundledFn → Type 0
IsBundled io = (start count : ℕ) → (io start count).1 ≤ count

submitted :
    (io : BundledFn) (s : Slots) (pre : List RxSlotState) (n : ℕ)
    → IsBundled io
    → IsCounted s
    → FirstRun s.states pre n
    → length pre + n ≤ 16
    → IsCounted (submit_bundle io (some (length pre, n)) s).1
unfolding submit_bundle
submitted io s pre n honest c run h =
    let a = (io (length pre) n).1 in
    let le : a ≤ n = honest (length pre) n in
    elim (Bool-cases (is_success (io (length pre) n).0 && ltb 0 a)) [
      | inl e ↦ rw e (record {
        size = length-mark_inflight a (length pre) s.states ∙ c.size;
        used = mark_inflight-IsUsed a (length pre) s.states c.used;
        counted = omega (
          arith,
          c.counted,
          c.size,
          count_inflight-le s.states,
          count-mark_run s.states pre n a run h le,
        );
      })
      | inr e ↦ rw e c
    ]

pub submit-IsCounted :
    (io : BundledFn) (ready_for_io : Bool) (s : Slots)
    → IsBundled io
    → IsCounted s
    → IsCounted (submit_pending_reads io ready_for_io s).1
unfolding submit_pending_reads
submit-IsCounted io false s honest c = c
submit-IsCounted io true s honest c = elim (pending_lem s.states (let e = c.size in omega arith)) [
  | inl (busy, e) ↦ subst (λ p. IsCounted (submit_bundle io p s).1) (sym e) c
  | inr (pre, n, run, fits, e) ↦
      subst (λ p. IsCounted (submit_bundle io p s).1) (sym e)
        (submitted io s pre (suc n) honest c run fits)
]

count-release :
    (l : List RxSlotState) (i : ℕ)
    → get_elem? l i ≡ some inflight
    → count_inflight l ≡ suc (count_inflight (set l i free))
count-release [] i h = cc
count-release (inflight ∷ l) zero h = refl
count-release (free ∷ l) zero h = cc
count-release (ready ∷ l) zero h = cc
count-release (inflight ∷ l) (suc i) h = ap suc (count-release l i h)
count-release (free ∷ l) (suc i) h = count-release l i h
count-release (ready ∷ l) (suc i) h = count-release l i h

pub release-IsCounted :
    (s : Slots) (i : ℕ)
    → get_elem? s.states i ≡ some inflight
    → IsCounted s
    → IsCounted (release_slot i s)
unfolding release_slot
release-IsCounted s i h c = record {
  size = length-set s.states i free ∙ c.size;
  used = All-set IsUsed s.states i free c.used (inr refl);
  counted =
      let e : s.in_flight ≡ suc (count_inflight (set s.states i free)) =
        c.counted ∙ count-release s.states i h in
      ground (arith, e);
}
