-- ===== src/Pcan/Parse.antt =====
-- processRxData of the PCAN codec on any transfer, and on a sequence of whole messages.
use i_can.Common.{
  ℕ, zero, suc, ◌+◌, ◌-◌, ◌*◌, ◌/◌, ◌≤◌, ◌<◌, ◌≡◌, inl, inr, refl, ap, ◌∙◌, Bool, true, false, ◌&&◌,
  List, [], ◌∷◌, ◌++◌, ltb, leb, ◌==◌, length, length-append, length-drop, drop, drop-append,
  take_within, drop_within, get_or_within, append_assoc, All, arith, Bool-cases, le→ltb-false,
  lt→ltb, ltb-false→le,
}
use i_can.Common.Words.{add32, of_le_bytes, test_bit}
use i_can.Common.Outcome.{ok}
use i_can.Can.Dlc.{dlc2len-le}
use i_can.Pcan.Frames.{decode_rx_frame, rx_copy_len, rx_len, rx_frame_of}
use i_can.Pcan.Stream.{
  RxCounts, Parsed, msg_type, msg_size, rx_tag_low, handle_message, with_message, at_zero, at_cut,
  parse_loop, process_rx_data,
}

long_enough : (b : Bool) (size : ℕ) → (b && leb 28 size) ≡ true → 28 ≤ size
long_enough b size e = ground (arith, e)

-- A message that gives a frame has at least 28 bytes.
handle_message-frames :
    (c : RxCounts) (bytes : List ℕ) (size : ℕ) → 28 * length (handle_message c bytes size).1 ≤ size
unfolding handle_message
handle_message-frames c bytes size = elim (Bool-cases ((msg_type bytes == 1) && leb 28 size)) [
  | inr e ↦ rw e (omega arith)
  | inl e ↦ elim (Bool-cases (rx_tag_low bytes == 0x0ca7f00d)) [
    | inl f ↦ rw (e, f) (omega arith)
    | inr f ↦ rw (e, f) (long_enough (msg_type bytes == 1) size e)
  ]
]

-- The loop ends with a result, and the frames that it adds take 28 bytes each.
parse_loop-total :
    (fuel : ℕ) (p : Parsed) (bytes : List ℕ)
    → length bytes < fuel
    → (r : Parsed) × (parse_loop fuel p bytes ≡ ok r)
      × (28 * length r.frames ≤ 28 * length p.frames + length bytes)
unfolding parse_loop
parse_loop-total zero p bytes l = absurd (omega arith)
parse_loop-total (suc fuel) p bytes l = elim (Bool-cases (ltb (length bytes) 12)) [
  | inl e ↦ (p, rw e refl, omega arith)
  | inr e ↦ elim (Bool-cases (msg_size bytes == 0)) [
    | inl z ↦ (at_zero p, rw (e, z) refl, omega arith)
    | inr z ↦ elim (Bool-cases (ltb (length bytes) (msg_size bytes))) [
      | inl cut ↦ (at_cut p, rw (e, z, cut) refl, omega arith)
      | inr whole ↦
          let size = msg_size bytes in
          let fits : size ≤ length bytes = ltb-false→le (length bytes) size whole in
          let moves : 0 < size = ground (arith, z) in
          let left : length (drop size bytes) ≡ length bytes - size = length-drop size bytes in
          let (r, g, b) =
            parse_loop-total fuel (with_message p bytes size) (drop size bytes)
              (omega (arith, left)) in
          (
            r,
            rw (e, z, whole) g,
            omega (
              arith,
              b,
              left,
              handle_message-frames p.counts bytes size,
              length-append p.frames (handle_message p.counts bytes size).1,
            ),
          )
    ]
  ]
]

-- On any transfer, processRxData ends within the rounds that it is given, and hands on at most
-- one frame for each 28 bytes.
pub process_rx_data-total :
    (c : RxCounts) (bytes : List ℕ)
    → (r : Parsed) × (process_rx_data c bytes ≡ ok r) × (28 * length r.frames ≤ length bytes)
unfolding process_rx_data
process_rx_data-total c bytes =
    let (r, e, b) =
      parse_loop-total (suc (length bytes))
        (record { counts = record c { transfer = add32 c.transfer 1 }; frames = []; msgs = 0 })
        bytes (omega arith) in
    (r, e, omega (arith, b))

-- A whole message: as many bytes as it says, and at least a header of 12.
pub record IsMessage (m : List ℕ) : Type 0 where
  pub header : 12 ≤ length m
  pub sized : msg_size m ≡ length m

rx_copy_len-le : (len size : ℕ) → 28 ≤ size → len < 256 → rx_copy_len len size ≤ size - 28
rx_copy_len-le len size l h = ground arith

rx_len-lt : (fd : Bool) (dlc : ℕ) → rx_len fd dlc < 256
rx_len-lt true dlc = omega (arith, dlc2len-le dlc)
rx_len-lt false dlc = ground arith

rx_frame_of_within :
    (channel_dlc flags can_id : ℕ) (payload rest : List ℕ) (size : ℕ)
    → 28 ≤ size
    → length payload ≡ size - 28
    → rx_frame_of channel_dlc flags can_id (payload ++ rest) size
      ≡ rx_frame_of channel_dlc flags can_id payload size
unfolding rx_frame_of
rx_frame_of_within channel_dlc flags can_id payload rest size l e =
    rw
      (take_within (rx_copy_len (rx_len (test_bit 4 flags) (channel_dlc / 16)) size) payload rest (
        omega (
          arith,
          e,
          rx_copy_len-le (rx_len (test_bit 4 flags) (channel_dlc / 16)) size l
              (rx_len-lt (test_bit 4 flags) (channel_dlc / 16)),
        )))
      refl

decode_rx_frame_within :
    (m rest : List ℕ)
    → 28 ≤ length m
    → decode_rx_frame (m ++ rest) (length m) ≡ decode_rx_frame m (length m)
unfolding decode_rx_frame
decode_rx_frame_within m rest l =
    rw
      (
        get_or_within 20 m rest 0 (omega arith),
        drop_within 22 m rest (omega arith),
        drop_within 24 m rest (omega arith),
        drop_within 28 m rest l,
        take_within 2 (drop 22 m) rest (omega (arith, length-drop 22 m)),
        take_within 4 (drop 24 m) rest (omega (arith, length-drop 24 m)),
      )
      (rx_frame_of_within _ _ _ (drop 28 m) rest (length m) l (length-drop 28 m))

handle_message_within :
    (c : RxCounts) (m rest : List ℕ)
    → 12 ≤ length m
    → handle_message c (m ++ rest) (length m) ≡ handle_message c m (length m)
unfolding handle_message
handle_message_within c m rest l =
    rw
      (
        drop_within 2 m rest (omega arith),
        take_within 2 (drop 2 m) rest (omega (arith, length-drop 2 m)),
      )
      (elim (Bool-cases ((msg_type m == 1) && leb 28 (length m))) [
        | inr e ↦ rw e refl
        | inl e ↦
            let l28 = long_enough (msg_type m == 1) (length m) e in
            rw
              (
                e,
                drop_within 12 m rest (omega arith),
                take_within 4 (drop 12 m) rest (omega (arith, length-drop 12 m)),
                decode_rx_frame_within m rest l28,
              )
              refl
      ])

-- The messages of a transfer, one after another.
abbrev pub join : List (List ℕ) → List ℕ
join [] = []
join (m ∷ ms) = m ++ join ms

-- What the messages come to, from `p` on.
abbrev pub handled : Parsed → List (List ℕ) → Parsed
handled p [] = p
handled p (m ∷ ms) = handled (with_message p m (length m)) ms

-- What stands behind the last message, with what the loop does there.
pub data Ending : List ℕ → (Parsed → Parsed) → Type 0 where
  short : (rest : List ℕ) → length rest < 12 → Ending rest (λ p. p)
  sentinel : (rest : List ℕ) → 12 ≤ length rest → msg_size rest ≡ 0 → Ending rest at_zero
  cut_off : (rest : List ℕ) → 12 ≤ length rest → length rest < msg_size rest → Ending rest at_cut

parse_loop-Ending :
    {rest : List ℕ} {stop : Parsed → Parsed} (fuel : ℕ) (p : Parsed)
    → Ending rest stop
    → parse_loop (suc fuel) p rest ≡ ok (stop p)
unfolding parse_loop
parse_loop-Ending fuel p (short rest l) = rw (lt→ltb (length rest) 12 l) refl
parse_loop-Ending fuel p (sentinel rest l e) =
    let z : (msg_size rest == 0) ≡ true = ground (arith, e) in
    rw (le→ltb-false (length rest) 12 l, z) refl
parse_loop-Ending fuel p (cut_off rest l e) =
    let z : (msg_size rest == 0) ≡ false = ground (arith, e) in
    rw (le→ltb-false (length rest) 12 l, z, lt→ltb (length rest) (msg_size rest) e) refl

-- A round on a whole message, whatever follows it.
parse_loop_step :
    (fuel : ℕ) (p : Parsed) (m rest : List ℕ)
    → IsMessage m
    → parse_loop (suc fuel) p (m ++ rest) ≡ parse_loop fuel (with_message p m (length m)) rest
unfolding parse_loop
parse_loop_step fuel p m rest v =
    let size : msg_size (m ++ rest) ≡ length m =
      ap of_le_bytes (take_within 2 m rest (omega (arith, v.header))) ∙ v.sized in
    let long = length-append m rest in
    let nonzero : (length m == 0) ≡ false = ground (arith, v.header) in
    rw
      (
        size,
        le→ltb-false (length (m ++ rest)) 12 (omega (arith, long, v.header)),
        nonzero,
        le→ltb-false (length (m ++ rest)) (length m) (omega (arith, long)),
        drop-append m rest,
        handle_message_within p.counts m rest v.header,
      )
      refl

parse_loop-join :
    {rest : List ℕ} {stop : Parsed → Parsed} (fuel : ℕ) (ms : List (List ℕ)) (p : Parsed)
    → All IsMessage ms
    → Ending rest stop
    → length (join ms ++ rest) < fuel
    → parse_loop fuel p (join ms ++ rest) ≡ ok (stop (handled p ms))
parse_loop-join zero ms p v e l = absurd (omega arith)
parse_loop-join (suc fuel) [] p v e l = parse_loop-Ending fuel p e
parse_loop-join {rest} (suc fuel) (m ∷ ms) p (v, vs) e l =
    ap (parse_loop (suc fuel) p) (append_assoc m (join ms) rest)
    ∙ parse_loop_step fuel p m (join ms ++ rest) v
    ∙ parse_loop-join fuel ms (with_message p m (length m)) vs e (
        omega (
          arith,
          v.header,
          length-append (m ++ join ms) rest,
          length-append m (join ms),
          length-append (join ms) rest,
        ))

-- processRxData on a transfer of whole messages with something behind them, which is too short
-- for a header, starts with a size of 0, or is cut off: each message is handled once, in order,
-- and what stands behind is counted by its kind and left alone.
pub process_rx_data-join :
    {rest : List ℕ} {stop : Parsed → Parsed} (c : RxCounts) (ms : List (List ℕ))
    → All IsMessage ms
    → Ending rest stop
    → process_rx_data c (join ms ++ rest)
      ≡ ok (
          stop (
            handled
              (record {
                counts = record c { transfer = add32 c.transfer 1 };
                frames = [];
                msgs = 0;
              })
              ms))
unfolding process_rx_data
process_rx_data-join {rest} c ms v e =
    parse_loop-join (suc (length (join ms ++ rest))) ms _ v e (omega arith)
