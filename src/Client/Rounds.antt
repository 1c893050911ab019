-- ===== src/Client/Rounds.antt =====
-- The loop of drainRxFrames ends, whatever bytes the ring holds.
use i_can.Common.{
  ℕ, zero, suc, ◌+◌, ◌-◌, ◌≤◌, ◌<◌, ◌≡◌, ◌≢◌, refl, sym, subst, not, ◌&&◌, some, List, arith, ltb,
  Bool-cases, inl, inr, ltb-false→le, ◌==◌,
}
use i_can.Common.Words.{u32_mod, add32, sub32, of_le_bytes}
use i_can.Common.Outcome.{Outcome, ok, undefined, stuck, ◌>>=◌, >>=-ne-stuck}
use i_can.Can.{Frame, can_mtu, canfd_mtu}
use i_can.Ring.{Header, read_at, classic_frame}
use i_can.Client.Frames.{
  Client, usable, RxStep, stop, skip, deliver, rx_frame, read_rx_entry, Drained, drain_next,
  drain_loop, drain_on, drain_rx_frames,
}

-- What a round of the loop has taken from the ring.
abbrev taken : RxStep → ℕ
taken stop = 10
taken (skip n) = n
taken (deliver p n) = n

-- The bounds on what a round takes, where it returns.
abbrev Bounded : ℕ → Outcome RxStep → Type 0
Bounded avail (ok stop) = Unit {0}
Bounded avail (ok (skip n)) = (10 ≤ n) × (n ≤ avail)
Bounded avail (ok (deliver p n)) = (10 ≤ n) × (n ≤ avail)
Bounded avail undefined = Unit {0}
Bounded avail stuck = ⊥

rx_frame-ne-stuck : (size : ℕ) (buf : List ℕ) → rx_frame size buf ≢ stuck
unfolding rx_frame classic_frame
rx_frame-ne-stuck size buf = ground arith

deliver-Bounded :
    (avail n ts : ℕ) (o : Outcome Frame)
    → o ≢ stuck
    → (10 ≤ n) × (n ≤ avail)
    → Bounded avail (o >>= λ f. ok (deliver (record { timestamp_us = ts; frame = f }) n))
deliver-Bounded avail n ts (ok f) h b = b
deliver-Bounded avail n ts undefined h b = tt
deliver-Bounded avail n ts stuck h b = absurd (h refl)

read_rx_entry-Bounded :
    (h : Header) (head tail : ℕ) → Bounded (sub32 head tail) (read_rx_entry h head tail)
unfolding read_rx_entry
read_rx_entry-Bounded h head tail = elim (Bool-cases (ltb avail 10)) [
  | inl few ↦ rw few tt
  | inr some_left ↦ elim (Bool-cases (ltb avail (10 + size))) [
    | inl part ↦ rw (some_left, part) tt
    | inr whole ↦
        let b : (10 ≤ 10 + size) × (10 + size ≤ avail) = (omega arith, ltb-false→le _ _ whole) in
        elim (Bool-cases (not (size == can_mtu) && not (size == canfd_mtu))) [
          | inl bad ↦ rw (some_left, whole) (rw bad b)
          | inr good ↦
              rw (some_left, whole)
                (rw good (deliver-Bounded avail (10 + size) _ _ (rx_frame-ne-stuck size _) b))
        ]
  ]
]
  where
    avail : ℕ
    avail = sub32 head tail

    size : ℕ
    size = of_le_bytes (read_at 0 h.rx_capacity h.bytes tail 0 2)

sub32-add32 :
    (head tail n : ℕ)
    → head < u32_mod
    → tail < u32_mod
    → n ≤ sub32 head tail
    → (sub32 head (add32 tail n) ≡ sub32 head tail - n) × (add32 tail n < u32_mod)
sub32-add32 head tail n hh ht h = (omega arith, omega arith)

-- A round goes on with fewer stored bytes, or ends the loop.
next-ne-stuck :
    (fuel head : ℕ) (again : Drained → Outcome Drained) (s : Drained) (o : Outcome RxStep)
    → ((s' : Drained) → s'.tail < u32_mod → sub32 head s'.tail < fuel → again s' ≢ stuck)
    → head < u32_mod
    → s.tail < u32_mod
    → sub32 head s.tail < suc fuel
    → Bounded (sub32 head s.tail) o
    → (o >>= drain_next again s) ≢ stuck
next-ne-stuck fuel head again s (ok stop) ih hh ht l b = λ e. cc
next-ne-stuck fuel head again s (ok (skip n)) ih hh ht l b =
    let (e, t) = sub32-add32 head s.tail n hh ht b.1 in ih _ t (omega (arith, e))
next-ne-stuck fuel head again s (ok (deliver p n)) ih hh ht l b =
    let (e, t) = sub32-add32 head s.tail n hh ht b.1 in ih _ t (omega (arith, e))
next-ne-stuck fuel head again s undefined ih hh ht l b = λ e. cc
next-ne-stuck fuel head again s stuck ih hh ht l b = absurd b

-- The loop ends within a round for each stored byte and one more, whatever the ring holds.
drain_loop-ne-stuck :
    (fuel : ℕ) (h : Header) (head : ℕ) (s : Drained)
    → head < u32_mod
    → s.tail < u32_mod
    → sub32 head s.tail < fuel
    → drain_loop fuel h head s ≢ stuck
unfolding drain_loop
drain_loop-ne-stuck zero h head s hh ht l = absurd (omega arith)
drain_loop-ne-stuck (suc fuel) h head s hh ht l = elim (Bool-cases (head == s.tail)) [
  | inl done ↦ rw done (λ e. cc)
  | inr more ↦ rw more (
      next-ne-stuck fuel head (drain_loop fuel h head) s (read_rx_entry h head s.tail)
        (λ s' t l'. drain_loop-ne-stuck fuel h head s' hh t l') hh ht l
        (read_rx_entry-Bounded h head s.tail))
]

-- drainRxFrames never runs out of rounds: on any header, whatever bytes its ring holds, the loop
-- ends, with a result or with the undefined copy of a classic frame that is too long.
pub drain_rx_frames-ne-stuck :
    (c : Client) (h : Header)
    → usable c.ring_header ≡ some h
    → h.rx.head < u32_mod
    → h.rx.tail < u32_mod
    → drain_rx_frames c ≢ stuck
unfolding drain_rx_frames
drain_rx_frames-ne-stuck c h e hh ht =
    subst (λ o. drain_on c o ≢ stuck) (sym e)
      (elim (Bool-cases (h.rx.head == h.rx.tail)) [
        | inl none_there ↦ rw none_there (λ x. cc)
        | inr more ↦ rw more (
            >>=-ne-stuck _ _ (
              drain_loop-ne-stuck (suc (sub32 h.rx.head h.rx.tail)) h h.rx.head _ hh ht
                (omega arith)))
      ])
