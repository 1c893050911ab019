-- ===== src/Client/Waits.antt =====
-- The wait of readManyBlocking: how many rounds it goes, and where it ends.
use i_can.Common.{
  ℕ, zero, suc, ◌+◌, ◌≡◌, ◌≤◌, ◌<◌, ◌⊎◌, inl, inr, refl, subst, Bool, true, false, Option, ltb,
  ◌&&◌, Bool-cases, arith,
}
use i_can.Common.Outcome.{ok}
use i_can.Client.Frames.{Client, drain_rx_frames}
use i_can.Client.Reading.{reader_empty, Waiting, wait_loop}

-- From `c` at the look `n`, the wait goes `k` rounds and comes to `e`: before each round the reader has
-- no packet and the clock shows less than the deadline, and in it some frames may arrive, and
-- drainRxFrames takes them from the ring.
pub data Rounds (w : Waiting) (deadline : ℕ) (id : Option ℕ)
    : ℕ → Client → ℕ → Client → Type 0 where
  none_more : {n : ℕ} {c : Client} → Rounds w deadline id n c 0 c
  round :
      {n k taken : ℕ} {c c1 e : Client}
      → reader_empty c.readers id ≡ true
      → w.clock n < deadline
      → drain_rx_frames (w.arrive n c) ≡ ok (c1, taken)
      → Rounds w deadline id (n + 1) c1 k e
      → Rounds w deadline id n c (suc k) e

-- Why a wait ends at the look `n`: the reader has a packet, or the clock shows the deadline.
abbrev pub IsOver : Waiting → ℕ → Option ℕ → ℕ → Client → Type 0
IsOver w deadline id n c = (reader_empty c.readers id ≡ false) ⊎ (deadline ≤ w.clock n)

both_true : (a b : Bool) → (a && b) ≡ true → (a ≡ true) × (b ≡ true)
both_true true true e = (refl, refl)
both_true true false e = cc
both_true false b e = cc

module _ (w : Waiting) (deadline : ℕ) (id : Option ℕ) where
  over :
      (b : Bool) (n : ℕ)
      → (b && ltb (w.clock n) deadline) ≡ false
      → (b ≡ false) ⊎ (deadline ≤ w.clock n)
  over false n e = inl refl
  over true n e = inr (ground (arith, e))

  too_late : (b : Bool) (n : ℕ) → deadline ≤ w.clock n → (b && ltb (w.clock n) deadline) ≡ false
  too_late false n l = refl
  too_late true n l = ground (arith, l)

  module _ (Good : Client → Type 0)
      (turns : (n : ℕ) (c : Client)
        → Good c
        → (c' : Client) × (k : ℕ) × (drain_rx_frames (w.arrive n c) ≡ ok (c', k)) × Good c') where
    -- What the wait from the look `n` on came to, in at most `m` rounds.
    abbrev pub Ended : ℕ → ℕ → Client → Client → Type 0
    Ended m n c c' =
        (k : ℕ) × (k ≤ m)
        × Rounds w deadline id n c k c'
        × IsOver w deadline id (n + k) c'
        × Good c'

    stop_now :
        (rounds n : ℕ) (c : Client)
        → Good c
        → (reader_empty c.readers id && ltb (w.clock n) deadline) ≡ false
        → (c' : Client) × (wait_loop (suc rounds) w n deadline c id ≡ ok c') × Ended rounds n c c'
    unfolding wait_loop
    stop_now rounds n c g e =
        let here : n ≡ n + 0 = omega arith in
        (
          c,
          rw e refl,
          (
            0,
            omega arith,
            none_more,
            subst (λ x. IsOver w deadline id x c) here (over (reader_empty c.readers id) n e),
            g,
          ),
        )

    wait_from :
        (rounds n : ℕ) (c : Client)
        → Good c
        → deadline ≤ w.clock (n + rounds)
        → (c' : Client) × (wait_loop (suc rounds) w n deadline c id ≡ ok c') × Ended rounds n c c'
    unfolding wait_loop
    wait_from zero n c g late =
        let now : n + 0 ≡ n = omega arith in
        stop_now zero n c g
          (too_late (reader_empty c.readers id) n (subst (λ x. deadline ≤ w.clock x) now late))
    wait_from (suc rounds) n c g late =
        elim (Bool-cases (reader_empty c.readers id && ltb (w.clock n) deadline)) [
          | inr e ↦ stop_now (suc rounds) n c g e
          | inl early ↦
              let (c1, taken, e, g1) = turns n c g in
              let (empty, below) =
                both_true (reader_empty c.readers id) (ltb (w.clock n) deadline) early in
              let later : n + suc rounds ≡ n + 1 + rounds = omega arith in
              let (c', f, (k, le, run, end, g')) =
                wait_from rounds (n + 1) c1 g1 (subst (λ x. deadline ≤ w.clock x) later late) in
              let there : n + 1 + k ≡ n + suc k = omega arith in
              (
                c',
                rw (early, e) f,
                (
                  suc k,
                  omega (arith, le),
                  round empty (ground (arith, below)) e run,
                  subst (λ x. IsOver w deadline id x c') there end,
                  g',
                ),
              )
        ]

    -- The wait of readManyBlocking. For a property of the state under which, at each look, what
    -- arrives and drainRxFrames after it return to a state with the property: if the clock shows the
    -- deadline at the look `m`, the loop ends after `k` rounds, at most `m`. Before each of them the
    -- reader had no packet and the clock showed less than the deadline, each took what had arrived
    -- from the ring, and after the last the reader has a packet or the clock shows the deadline.
    pub wait_loop-ends :
        (m : ℕ) (c : Client)
        → Good c
        → deadline ≤ w.clock m
        → (c' : Client) × (wait_loop (suc m) w 0 deadline c id ≡ ok c') × Ended m 0 c c'
    wait_loop-ends m c g late =
        let now : m ≡ 0 + m = omega arith in
        wait_from m 0 c g (subst (λ x. deadline ≤ w.clock x) now late)
