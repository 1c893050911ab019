-- ===== src/Slcan/Digits.antt =====
-- What decode reads from the digits of a line.
use i_can.Common.{
  ℕ, zero, suc, ◌+◌, ◌*◌, ◌/◌, ◌%◌, ◌^◌, ◌≤◌, ◌<◌, ◌≡◌, refl, sym, ap, Bool, true, false, not, ◌&&◌,
  some, List, [], ◌∷◌, ◌++◌, append-nil, ltb, if◌then◌else◌, length, length-append, All, arith,
  le→ltb-false,
}
use i_can.Common.Words.{IsByte, u32_mod, set_bit}
use i_can.Can.{can_fd_dlc2len}
use native.Mathlib.Nat.{mod-eq_of_lt}
use i_can.Slcan.Text.{
  hex_nibble, hex_val, id_digits, data_digits, parse_id, parse_data, parse_type, decode_data,
  decode_dlc, decode_id, decode, decoded, type_char,
}

hex_val-hex_nibble : (v : ℕ) → hex_val (hex_nibble v) ≡ some (v % 16)
unfolding hex_val hex_nibble
hex_val-hex_nibble v = ground arith

parse_id_step :
    (n id d : ℕ) (buf : List ℕ)
    → parse_id (suc n) id (hex_nibble d ∷ buf) ≡ parse_id n (id * 16 % u32_mod + d % 16) buf
unfolding parse_id
parse_id_step n id d buf = rw hex_val-hex_nibble

parse_id_end : (id : ℕ) (buf : List ℕ) → parse_id 0 id buf ≡ some (id, buf)
unfolding parse_id
parse_id_end id buf = refl

-- The eight digits of a 29-bit id, and the three of an 11-bit id.
parse_id_extended :
    (v : ℕ) (rest : List ℕ) → v < 2 ^ 29 → parse_id 8 0 (id_digits 8 v ++ rest) ≡ some (v, rest)
unfolding id_digits
parse_id_extended v rest h =
    rw
      (
        parse_id_step, parse_id_step, parse_id_step, parse_id_step, parse_id_step, parse_id_step,
        parse_id_step, parse_id_step, parse_id_end,
      )
      (ap (λ i. some (i, rest)) (omega arith))

parse_id_standard :
    (v : ℕ) (rest : List ℕ) → v < 2 ^ 11 → parse_id 3 0 (id_digits 3 v ++ rest) ≡ some (v, rest)
unfolding id_digits
parse_id_standard v rest h =
    rw (parse_id_step, parse_id_step, parse_id_step, parse_id_end)
      (ap (λ i. some (i, rest)) (omega arith))

parse_data-data_digits :
    (bs rest : List ℕ) → All IsByte bs → parse_data (length bs) (data_digits bs ++ rest) ≡ some bs
unfolding parse_data data_digits
parse_data-data_digits [] rest h = refl
parse_data-data_digits (b ∷ bs) rest (hb, h) =
    rw (hex_val-hex_nibble (b / 16), hex_val-hex_nibble b, parse_data-data_digits bs rest h)
      (ap (λ x. some (x ∷ bs)) (omega arith))

pub length-data_digits : (bs : List ℕ) → length (data_digits bs) ≡ 2 * length bs
unfolding data_digits
length-data_digits [] = refl
length-data_digits (b ∷ bs) = omega (arith, length-data_digits bs)

pub length-id_digits : (n v : ℕ) → length (id_digits n v) ≡ n
unfolding id_digits
length-id_digits zero v = refl
length-id_digits (suc n) v = ap suc (length-id_digits n v)

abbrev pub digits_of : Bool → ℕ
digits_of extended = if extended then 8 else 3

abbrev pub id_limit : Bool → ℕ
id_limit extended = if extended then 2 ^ 29 else 2 ^ 11

parse_id_digits :
    (extended : Bool) (v : ℕ) (rest : List ℕ)
    → v < id_limit extended
    → parse_id (digits_of extended) 0 (id_digits (digits_of extended) v ++ rest) ≡ some (v, rest)
parse_id_digits true v rest h = parse_id_extended v rest h
parse_id_digits false v rest h = parse_id_standard v rest h

parse_type-type_char :
    (fd extended : Bool) → parse_type (type_char fd extended) ≡ some (extended, fd)
unfolding parse_type
parse_type-type_char true true = refl
parse_type-type_char true false = refl
parse_type-type_char false true = refl
parse_type-type_char false false = refl

-- The line of a frame, without the byte that ends it.
abbrev pub line_of : Bool → Bool → ℕ → ℕ → List ℕ → List ℕ
line_of extended fd id dlc bytes =
    type_char fd extended
    ∷ (id_digits (digits_of extended) id ++ (hex_nibble dlc ∷ data_digits bytes))

-- The number of data bytes that a DLC stands for.
abbrev pub data_len_of : Bool → ℕ → ℕ
data_len_of fd dlc = if fd then can_fd_dlc2len dlc else dlc

decode_data_lem :
    (fd : Bool) (can_id dlc : ℕ) (bytes : List ℕ)
    → length bytes ≡ data_len_of fd dlc
    → All IsByte bytes
    → (not fd && ltb 8 (length bytes)) ≡ false
    → decode_data fd can_id dlc (data_digits bytes) ≡ some (decoded fd can_id (length bytes) bytes)
unfolding decode_data
decode_data_lem fd can_id dlc bytes e h small = rw (
  sym e,
  small,
  le→ltb-false (length (data_digits bytes)) (length bytes * 2)
      (omega (arith, length-data_digits bytes)),
  sym (append-nil (data_digits bytes)),
  parse_data-data_digits bytes [] h,
)

pub decode-line_of :
    (extended fd : Bool) (id dlc : ℕ) (bytes : List ℕ)
    → id < id_limit extended
    → dlc < 16
    → length bytes ≡ data_len_of fd dlc
    → All IsByte bytes
    → (not fd && ltb 8 (length bytes)) ≡ false
    → decode (line_of extended fd id dlc bytes)
      ≡ some (decoded fd (if extended then set_bit 31 id else id) (length bytes) bytes)
unfolding decode decode_id decode_dlc
decode-line_of extended fd id dlc bytes hi hd e h small =
    rw
      (
        le→ltb-false len 5 (omega (arith, long, digits_pos extended)),
        parse_type-type_char fd extended,
      )
      (rw (
        le→ltb-false len (1 + digits_of extended + 1) (omega (arith, long)),
        parse_id_digits extended id (hex_nibble dlc ∷ data_digits bytes) hi,
        hex_val-hex_nibble dlc,
        mod-eq_of_lt hd,
        decode_data_lem fd (if extended then set_bit 31 id else id) dlc bytes e h small,
      ))
  where
    len : ℕ
    len = length (line_of extended fd id dlc bytes)

    long : len ≡ 1 + digits_of extended + 1 + length (data_digits bytes)
    long = omega (
      arith,
      length-append (id_digits (digits_of extended) id) (hex_nibble dlc ∷ data_digits bytes),
      length-id_digits (digits_of extended) id,
    )

    digits_pos : (x : Bool) → 3 ≤ digits_of x
    digits_pos true = omega arith
    digits_pos false = omega arith
