-- ===== src/Metrics/Sequence.antt =====
-- The sequence checks of addReceived on messages whose numbers rise.
use i_can.Common.{
  ℕ, ◌+◌, ◌-◌, ◌%◌, ◌^◌, ◌≡◌, ◌≤◌, ◌<◌, refl, ap, ◌∙◌, true, false, List, [], ◌∷◌, ltb, leb, ◌==◌,
  length, take, Bool-cases, inl, inr, arith, lt→ltb, le→ltb-false,
}
use i_can.Common.Words.{add32, add64, sub64}
use i_can.Metrics.{Metrics, reset, add_received, count_received, check_sequence, of_be_bytes}

-- The sequence number of a message.
abbrev pub seq_of : List ℕ → ℕ
seq_of bytes = of_be_bytes 0 (take 8 bytes)

-- Messages of eight bytes or more, whose numbers rise from `last` and stay below 2 ^ 63.
abbrev pub Rising : ℕ → List (List ℕ) → Type 0
Rising last [] = Unit
Rising last (b ∷ bs) =
    (8 ≤ length b) × (last < seq_of b) × (seq_of b < 2 ^ 63) × Rising (seq_of b) bs

abbrev pub last_of : ℕ → List (List ℕ) → ℕ
last_of last [] = last
last_of last (b ∷ bs) = last_of (seq_of b) bs

abbrev pub received_in_turn : Metrics → List (List ℕ) → Metrics
received_in_turn m [] = m
received_in_turn m (b ∷ bs) = received_in_turn (add_received m b) bs

-- What a message with the number `seq` did.
record Next (m : Metrics) (seq : ℕ) (r : Metrics) : Type 0 where
  last_is : r.rx_last_sequence ≡ seq
  received : r.messages_received ≡ m.messages_received + 1
  gaps : r.rx_sequence_gaps ≡ (m.rx_sequence_gaps + (seq - m.rx_last_sequence - 1)) % 2 ^ 32
  duplicates : r.rx_duplicates ≡ m.rx_duplicates
  out_of_order : r.rx_out_of_order ≡ m.rx_out_of_order

test_false : (a b : ℕ) → (a < b) → (a == b) ≡ false
test_false a b l = ground (arith, l)

test_false' : (a b : ℕ) → (b < a) → (a == b) ≡ false
test_false' a b l = ground (arith, l)

check_sequence-Next :
    (m : Metrics) (seq : ℕ)
    → 2 ≤ m.messages_received
    → m.rx_sequence_gaps < 2 ^ 32
    → m.rx_last_sequence < seq
    → seq < 2 ^ 63
    → (let r = check_sequence m seq in
        (r.rx_last_sequence ≡ seq)
        × (r.messages_received ≡ m.messages_received)
        × (r.rx_sequence_gaps ≡ (m.rx_sequence_gaps + (seq - m.rx_last_sequence - 1)) % 2 ^ 32)
        × (r.rx_duplicates ≡ m.rx_duplicates)
        × (r.rx_out_of_order ≡ m.rx_out_of_order))
unfolding check_sequence
check_sequence-Next m seq n g l h =
    let last = m.rx_last_sequence in
    let second : (m.messages_received == 1) ≡ false = test_false' m.messages_received 1 n in
    let higher : ltb last seq ≡ true = lt→ltb last seq l in
    let next : add64 last 1 ≡ last + 1 = omega (arith, l, h) in
    elim (Bool-cases (seq == last + 1)) [
      | inl e ↦
          let is_next : seq ≡ last + 1 = ground (arith, e) in
          rw (second, next, e, higher) (refl, refl, omega (arith, is_next, g), refl, refl)
      | inr e ↦
          let above : last + 1 < seq = ground (arith, e, l) in
          let apart : sub64 seq (last + 1) ≡ seq - last - 1 = omega (arith, above, h) in
          rw
            (
              second,
              next,
              e,
              test_false' seq last l,
              le→ltb-false seq last (omega (arith, l)),
              lt→ltb (last + 1) seq above,
              higher,
              apart,
            )
            (refl, refl, refl, refl, refl)
    ]

add_received-Next :
    (m : Metrics) (b : List ℕ)
    → 1 ≤ m.messages_received
    → m.messages_received + 1 < 2 ^ 32
    → m.rx_sequence_gaps < 2 ^ 32
    → 8 ≤ length b
    → m.rx_last_sequence < seq_of b
    → seq_of b < 2 ^ 63
    → Next m (seq_of b) (add_received m b)
unfolding add_received
add_received-Next m b n k g e l h =
    let long : leb 8 (length b) ≡ true = ground (arith, e) in
    let count : add32 m.messages_received 1 ≡ m.messages_received + 1 = omega (arith, k) in
    let (a, c, d, f, o) =
      check_sequence-Next (count_received m (length b)) (seq_of b) (omega (arith, count, n)) g l
        h in
    rw long
      (record { last_is = a; received = c ∙ count; gaps = d; duplicates = f; out_of_order = o })

-- What the counters came to after a run of messages.
pub record Counts (m : Metrics) (bs : List (List ℕ)) (r : Metrics) : Type 0 where
  pub last_is : r.rx_last_sequence ≡ last_of m.rx_last_sequence bs
  pub received : r.messages_received ≡ m.messages_received + length bs
  pub enough : m.rx_last_sequence + length bs ≤ last_of m.rx_last_sequence bs
  pub gaps :
      r.rx_sequence_gaps
      ≡ (m.rx_sequence_gaps + (last_of m.rx_last_sequence bs - m.rx_last_sequence - length bs))
        % 2 ^ 32
  pub duplicates : r.rx_duplicates ≡ m.rx_duplicates
  pub out_of_order : r.rx_out_of_order ≡ m.rx_out_of_order

received-Counts :
    (m : Metrics) (bs : List (List ℕ)) (last : ℕ)
    → m.rx_last_sequence ≡ last
    → 1 ≤ m.messages_received
    → m.messages_received + length bs < 2 ^ 32
    → m.rx_sequence_gaps < 2 ^ 32
    → Rising last bs
    → Counts m bs (received_in_turn m bs)
received-Counts m [] last e n k g v = record {
  last_is = refl;
  received = omega arith;
  enough = omega arith;
  gaps = omega (arith, g);
  duplicates = refl;
  out_of_order = refl;
}
received-Counts m (b ∷ bs) last e n k g (long, above, top, v) =
    let s = add_received-Next m b n (omega (arith, k)) g long (omega (arith, e, above)) top in
    let r =
      received-Counts (add_received m b) bs (seq_of b) s.last_is (omega (arith, s.received))
        (omega (arith, s.received, k)) (omega (arith, s.gaps)) v in
    let tail : last_of (add_received m b).rx_last_sequence bs ≡ last_of (seq_of b) bs =
      ap (λ x. last_of x bs) s.last_is in
    record {
      last_is = r.last_is ∙ tail;
      received = omega (arith, r.received, s.received);
      enough = omega (arith, r.enough, s.last_is, tail, above, e);
      gaps = omega (arith, r.gaps, s.gaps, s.last_is, tail, r.enough, above, e);
      duplicates = r.duplicates ∙ s.duplicates;
      out_of_order = r.out_of_order ∙ s.out_of_order;
    }

first_message :
    (now : ℕ) (b : List ℕ)
    → 8 ≤ length b
    → (let m = add_received (reset now) b in
        (m.messages_received ≡ 1)
        × (m.rx_last_sequence ≡ seq_of b)
        × (m.rx_sequence_gaps ≡ 0)
        × (m.rx_duplicates ≡ 0)
        × (m.rx_out_of_order ≡ 0))
unfolding add_received check_sequence
first_message now b e =
    let long : leb 8 (length b) ≡ true = ground (arith, e) in rw long (refl, refl, refl, refl, refl)

-- After a reset, fewer than 2 ^ 32 messages of eight bytes or more, whose numbers rise and stay
-- below 2 ^ 63: all are counted, none counts as a duplicate or out of order, the last number is that
-- of the last message, and the gaps are, in 32 bits, as many as there are numbers missing between the
-- first and the last.
pub missing_numbers :
    (now : ℕ) (b : List ℕ) (bs : List (List ℕ))
    → 8 ≤ length b
    → length bs + 1 < 2 ^ 32
    → Rising (seq_of b) bs
    → (let r = received_in_turn (reset now) (b ∷ bs) in
        (r.messages_received ≡ length bs + 1)
        × (r.rx_last_sequence ≡ last_of (seq_of b) bs)
        × (seq_of b + length bs ≤ last_of (seq_of b) bs)
        × (r.rx_sequence_gaps ≡ (last_of (seq_of b) bs - seq_of b - length bs) % 2 ^ 32)
        × (r.rx_duplicates ≡ 0)
        × (r.rx_out_of_order ≡ 0))
missing_numbers now b bs e n v =
    let m = add_received (reset now) b in
    let (received, last, gaps, duplicates, out_of_order) = first_message now b e in
    let r =
      received-Counts m bs (seq_of b) last (omega (arith, received)) (omega (arith, received, n))
        (omega (arith, gaps)) v in
    let end : last_of m.rx_last_sequence bs ≡ last_of (seq_of b) bs = ap (λ x. last_of x bs) last in
    (
      omega (arith, r.received, received),
      r.last_is ∙ end,
      omega (arith, r.enough, last, end),
      omega (arith, r.gaps, gaps, last, end),
      r.duplicates ∙ duplicates,
      r.out_of_order ∙ out_of_order,
    )
