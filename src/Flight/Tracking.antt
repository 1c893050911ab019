-- ===== src/Flight/Tracking.antt =====
-- What sending and receiving do to the acknowledgements that the window tracks.
use i_can.Common.{
  ℕ, suc, ◌+◌, ◌/◌, ◌%◌, ◌^◌, ◌<◌, ◌≤◌, ◌≡◌, ◌≢◌, refl, sym, ap, subst, ◌∙◌, Bool, true, false, ltb,
  ◌==◌, if◌then◌else◌, arith, Bool-cases, inl, inr, le→ltb-false, lt→ltb, ltb-false→le,
}
use i_can.Common.Words.{add64, sub64, set_bit, test_bit}
use i_can.Common.Bits.{count_from, test_bit-set_bit, test_bit-set_bit_other, count_from_ext}
use i_can.Flight.{FlightWindow, on_tx_sent, on_rx_received, put_word}

-- The bit that stands for a sequence number.
abbrev pub bit_of : (ℕ → ℕ) → ℕ → Bool
bit_of m seq = test_bit (seq % 16384 % 64) (m (seq % 16384 / 64))

-- The window tracks the acknowledgements `acked`: those of the numbers from the base on are in the
-- bitmap, and those below it are counted.
pub record Tracks (acked : ℕ → Bool) (w : FlightWindow) : Type 0 where
  pub aligned : w.base_seq % 64 ≡ 0
  pub base_le : w.base_seq ≤ w.head_seq
  pub head_le : w.head_seq ≤ w.base_seq + 16384
  pub head_lt : w.head_seq < 2 ^ 63
  pub sent_only : (seq : ℕ) → w.head_seq ≤ seq → acked seq ≡ false
  pub bits :
      (seq : ℕ) → w.base_seq ≤ seq → seq < w.base_seq + 16384 → bit_of w.ack_bitmap seq ≡ acked seq
  pub sent : w.total_sent ≡ w.base_seq
  pub confirmed : w.total_confirmed ≡ count_from acked 0 w.base_seq

-- `acked` with one number more.
abbrev pub with_ack : ℕ → (ℕ → Bool) → ℕ → Bool
with_ack seq acked n = if n == seq then true else acked n

pub put_word_same : (i v : ℕ) (m : ℕ → ℕ) → put_word i v m i ≡ v
unfolding put_word
put_word_same i v m = let e : (i == i) ≡ true = ground arith in rw e refl

pub put_word_other : (i v : ℕ) (m : ℕ → ℕ) (j : ℕ) → j ≢ i → put_word i v m j ≡ m j
unfolding put_word
put_word_other i v m j h = let e : (j == i) ≡ false = ground (arith, h) in rw e refl

-- Sending the next frame, while the window has room for it.
pub on_tx_sent-Tracks :
    {acked : ℕ → Bool} (w : FlightWindow) (seq : ℕ)
    → Tracks acked w
    → w.head_seq ≤ seq
    → seq < w.base_seq + 16384
    → suc seq < 2 ^ 63
    → Tracks acked (on_tx_sent seq w)
unfolding on_tx_sent
on_tx_sent-Tracks w seq t l r b =
    let e : add64 seq 1 ≡ suc seq = omega arith in
    record {
      aligned = t.aligned;
      base_le = let x = t.base_le in omega arith;
      head_le = omega arith;
      head_lt = omega arith;
      sent_only = λ n h. t.sent_only n (omega arith);
      bits = t.bits;
      sent = t.sent;
      confirmed = t.confirmed;
    }

-- Two numbers of one window that differ have different bits.
bit_differs :
    (base seq n : ℕ)
    → base ≤ seq
    → seq < base + 16384
    → base ≤ n
    → n < base + 16384
    → n ≢ seq
    → n % 16384 / 64 ≡ seq % 16384 / 64
    → n % 16384 % 64 ≢ seq % 16384 % 64
bit_differs base seq n a b c d h e f = h (omega arith)

bit_set :
    (base seq n : ℕ) (m : ℕ → ℕ)
    → base ≤ seq
    → seq < base + 16384
    → base ≤ n
    → n < base + 16384
    → bit_of (put_word (seq % 16384 / 64) (set_bit (seq % 16384 % 64) (m (seq % 16384 / 64))) m) n
      ≡ (if n == seq then true else bit_of m n)
bit_set base seq n m a b c d = elim (Bool-cases (n == seq)) [
  | inl e ↦
      let same : n ≡ seq = ground (arith, e) in
      rw e (
        subst
          (λ k.
            bit_of
              (put_word (seq % 16384 / 64) (set_bit (seq % 16384 % 64) (m (seq % 16384 / 64))) m) k
            ≡ true)
          (sym same)
          (ap (test_bit (seq % 16384 % 64)) (put_word_same _ _ m)
            ∙ test_bit-set_bit (seq % 16384 % 64) (m (seq % 16384 / 64))))
  | inr e ↦
      let differ : n ≢ seq = ground (arith, e) in
      rw e (elim (Bool-cases (n % 16384 / 64 == seq % 16384 / 64)) [
        | inl f ↦
            let word : n % 16384 / 64 ≡ seq % 16384 / 64 = ground (arith, f) in
            ap
              (λ j. test_bit (n % 16384 % 64) (
                put_word (seq % 16384 / 64) (set_bit (seq % 16384 % 64) (m (seq % 16384 / 64))) m
                  j))
              word
            ∙ ap (test_bit (n % 16384 % 64)) (put_word_same _ _ m)
            ∙ test_bit-set_bit_other (n % 16384 % 64) (seq % 16384 % 64) (m (seq % 16384 / 64))
                (bit_differs base seq n a b c d differ word)
            ∙ ap (λ j. test_bit (n % 16384 % 64) (m j)) (sym word)
        | inr f ↦
            ap (test_bit (n % 16384 % 64))
              (put_word_other _ _ m (n % 16384 / 64) (ground (arith, f)))
      ])
]

-- The counters of the receiver do not matter.
recounted :
    {acked : ℕ → Bool} (w : FlightWindow) (a b c : ℕ)
    → Tracks acked w
    → Tracks acked (record w { rx_calls = a; rx_stale_rejects = b; rx_reaped_rejects = c })
recounted w a b c t = record {
  aligned = t.aligned;
  base_le = t.base_le;
  head_le = t.head_le;
  head_lt = t.head_lt;
  sent_only = t.sent_only;
  bits = t.bits;
  sent = t.sent;
  confirmed = t.confirmed;
}

late_ack :
    {acked : ℕ → Bool} (w : FlightWindow) (seq : ℕ)
    → Tracks acked w
    → seq < w.head_seq
    → ltb seq w.base_seq ≡ true
    → Tracks acked (on_rx_received seq w)
unfolding on_rx_received
late_ack w seq t l late = elim (Bool-cases (ltb 16384 (sub64 w.head_seq seq))) [
  | inl stale ↦ rw (lt→ltb seq w.head_seq l, stale) (recounted w _ _ _ t)
  | inr near ↦ rw (lt→ltb seq w.head_seq l, near, late) (recounted w _ _ _ t)
]

ack_in_time :
    {acked : ℕ → Bool} (w : FlightWindow) (seq : ℕ)
    → Tracks acked w
    → seq < w.head_seq
    → ltb seq w.base_seq ≡ false
    → Tracks (with_ack seq acked) (on_rx_received seq w)
unfolding on_rx_received
ack_in_time {acked} w seq t l kept =
    let on_time = ltb-false→le seq w.base_seq kept in
    let near : ltb 16384 (sub64 w.head_seq seq) ≡ false =
      le→ltb-false 16384 (sub64 w.head_seq seq)
        (let x = t.head_lt in let y = t.head_le in omega arith) in
    rw (lt→ltb seq w.head_seq l, near, kept)
      (record {
        aligned = t.aligned;
        base_le = t.base_le;
        head_le = t.head_le;
        head_lt = t.head_lt;
        sent_only = λ n h. let e : (n == seq) ≡ false = ground arith in rw e (t.sent_only n h);
        bits = λ n a b.
            bit_set w.base_seq seq n w.ack_bitmap on_time (omega (arith, t.head_le)) a b
            ∙ ap (λ x. if n == seq then true else x) (t.bits n a b);
        sent = t.sent;
        confirmed =
            t.confirmed
            ∙ count_from_ext w.base_seq acked (with_ack seq acked) 0
                (λ n h. let e : (n == seq) ≡ false = ground arith in rw e refl);
      })

-- An acknowledgement of a frame that was sent, early or late.
pub on_rx_received-Tracks :
    {acked : ℕ → Bool} (w : FlightWindow) (seq : ℕ)
    → Tracks acked w
    → seq < w.head_seq
    → Tracks (if ltb seq w.base_seq then acked else with_ack seq acked) (on_rx_received seq w)
on_rx_received-Tracks {acked} w seq t l = elim (Bool-cases (ltb seq w.base_seq)) [
  | inl late ↦ rw late (late_ack w seq t l late)
  | inr kept ↦ rw kept (ack_in_time w seq t l kept)
]
