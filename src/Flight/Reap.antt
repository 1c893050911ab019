-- ===== src/Flight/Reap.antt =====
-- What the reaper does to the acknowledgements that the window tracks.
use i_can.Common.{
  ℕ, zero, suc, ◌+◌, ◌-◌, ◌/◌, ◌%◌, ◌^◌, ◌<◌, ◌≤◌, ◌≡◌, refl, sym, ap, ap₂, subst, ◌∙◌, Bool, true,
  false, ltb, leb, ◌==◌, arith, Bool-cases, inl, inr, ltb-false→le, ltb→lt,
}
use i_can.Common.Words.{add64, test_bit}
use i_can.Common.Bits.{popcount, count_from, popcount_lem, count_from-append, count_from-le}
use native.Mathlib.Nat.{zero-div}
use i_can.Flight.{FlightWindow, put_word, can_reap, reap_word, reap_loop, reap}
use i_can.Flight.Tracking.{bit_of, Tracks, put_word_same, put_word_other}

pub no_bits : (k : ℕ) → test_bit k 0 ≡ false
no_bits k = ap (λ q. q % 2 == 1) (zero-div (2 ^ k))

reaped_bits :
    (acked : ℕ → Bool) (w : FlightWindow) (seq : ℕ)
    → Tracks acked w
    → w.base_seq + 64 ≤ seq
    → seq < w.base_seq + 64 + 16384
    → bit_of (put_word (w.base_seq % 16384 / 64) 0 w.ack_bitmap) seq ≡ acked seq
reaped_bits acked w seq t l r = elim (Bool-cases (ltb seq (w.base_seq + 16384))) [
  | inl inside ↦
      let a = t.aligned in
      let near = ltb→lt seq (w.base_seq + 16384) inside in
      ap (test_bit (seq % 16384 % 64))
        (put_word_other _ 0 w.ack_bitmap (seq % 16384 / 64) (λ e. omega arith))
      ∙ t.bits seq (omega arith) near
  | inr beyond ↦
      let a = t.aligned in
      let far = ltb-false→le seq (w.base_seq + 16384) beyond in
      let word : seq % 16384 / 64 ≡ w.base_seq % 16384 / 64 = omega arith in
      ap (λ j. test_bit (seq % 16384 % 64) (put_word (w.base_seq % 16384 / 64) 0 w.ack_bitmap j))
        word
      ∙ ap (test_bit (seq % 16384 % 64)) (put_word_same _ 0 w.ack_bitmap)
      ∙ no_bits (seq % 16384 % 64)
      ∙ sym (t.sent_only seq (omega (arith, t.head_le)))
]

reaped_count :
    (acked : ℕ → Bool) (w : FlightWindow)
    → Tracks acked w
    → w.base_seq + 64 < 2 ^ 64
    → add64 w.total_confirmed (popcount 64 (w.ack_bitmap (w.base_seq % 16384 / 64)))
      ≡ count_from acked 0 (w.base_seq + 64)
reaped_count acked w t l =
    let a = t.aligned in
    let word : popcount 64 (w.ack_bitmap (w.base_seq % 16384 / 64))
        ≡ count_from acked w.base_seq 64 =
      popcount_lem 64 (w.ack_bitmap (w.base_seq % 16384 / 64)) acked w.base_seq (λ i h.
        ap₂ (λ k j. test_bit k (w.ack_bitmap j)) (omega arith) (omega arith)
        ∙ t.bits (w.base_seq + i) (omega arith) (omega arith)) in
    let zero_add : 0 + w.base_seq ≡ w.base_seq = omega arith in
    let split : count_from acked 0 (w.base_seq + 64)
        ≡ count_from acked 0 w.base_seq + count_from acked w.base_seq 64 =
      count_from-append acked 0 w.base_seq 64
      ∙ ap (λ s. count_from acked 0 w.base_seq + count_from acked s 64) zero_add in
    omega (arith, word, t.confirmed, split, count_from-le acked 0 (w.base_seq + 64))

-- One word is reaped, outside the grace window.
reap_word-Tracks :
    {acked : ℕ → Bool} (w : FlightWindow)
    → Tracks acked w
    → can_reap w.head_seq w ≡ true
    → Tracks acked (reap_word w)
unfolding reap_word
reap_word-Tracks {acked} w t can =
    let hl = t.head_lt in
    let bl = t.base_le in
    let al = t.aligned in
    let past : w.base_seq + 64 + 8000 ≤ w.head_seq = ground (arith, can) in
    let moved : add64 w.base_seq 64 ≡ w.base_seq + 64 = omega arith in
    let word = w.base_seq % 16384 / 64 in
    rw moved (record {
      aligned = omega arith;
      base_le = omega arith;
      head_le = omega (arith, t.head_le);
      head_lt = hl;
      sent_only = t.sent_only;
      bits = λ seq l r. reaped_bits acked w seq t l r;
      sent = omega (arith, t.sent);
      confirmed = reaped_count acked w t (omega arith);
    })

reap_word-next :
    (w : FlightWindow)
    → w.base_seq + 64 < 2 ^ 64
    → ((reap_word w).base_seq ≡ w.base_seq + 64) × ((reap_word w).head_seq ≡ w.head_seq)
unfolding reap_word
reap_word-next w l = (omega arith, refl)

-- The loop, with fuel for the distance to the head, stops where its condition fails.
reap_loop-Tracks :
    {acked : ℕ → Bool} (fuel : ℕ) (w : FlightWindow)
    → Tracks acked w
    → w.head_seq ≤ w.base_seq + fuel
    → Tracks acked (reap_loop fuel w.head_seq w)
      × (can_reap w.head_seq (reap_loop fuel w.head_seq w) ≡ false)
      × ((reap_loop fuel w.head_seq w).head_seq ≡ w.head_seq)
unfolding reap_loop
reap_loop-Tracks zero w t l = (t, let x = t.head_lt in let y = t.base_le in ground arith, refl)
reap_loop-Tracks {acked} (suc fuel) w t l = elim (Bool-cases (can_reap w.head_seq w)) [
  | inl more ↦
      let hl = t.head_lt in
      let bl = t.base_le in
      let past : w.base_seq + 64 + 8000 ≤ w.head_seq = ground (arith, more) in
      let (b, h) = reap_word-next w (omega arith) in
      let (x, y, z) =
        reap_loop-Tracks fuel (reap_word w) (reap_word-Tracks w t more) (omega (arith, b, h)) in
      rw more (
        subst
          (λ n.
            Tracks acked (reap_loop fuel n (reap_word w))
            × (can_reap n (reap_loop fuel n (reap_word w)) ≡ false)
            × ((reap_loop fuel n (reap_word w)).head_seq ≡ n))
          h (x, y, z))
  | inr done ↦ rw done (t, done, refl)
]

still_close :
    (base head : ℕ)
    → base < 2 ^ 63
    → leb (add64 (add64 base 64) 8000) head ≡ false
    → head < base + 8064
still_close base head b e = ground (arith, e)

pub reap-Tracks :
    {acked : ℕ → Bool} (w : FlightWindow)
    → Tracks acked w
    → Tracks acked (reap w)
      × ((reap w).head_seq ≡ w.head_seq)
      × (w.head_seq < (reap w).base_seq + 8064)
unfolding reap
reap-Tracks w t =
    let (x, y, z) = reap_loop-Tracks (w.head_seq - w.base_seq) w t (omega arith) in
    (
      x,
      z,
      still_close (reap_loop (w.head_seq - w.base_seq) w.head_seq w).base_seq w.head_seq
          (let b = x.base_le in let h = t.head_lt in omega (arith, b, z)) y,
    )
