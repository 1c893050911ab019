-- ===== src/Slcan/RoundTrip.antt =====
-- What encode writes, decode reads back.
use i_can.Common.{
  ℕ, zero, suc, ◌+◌, ◌-◌, ◌*◌, ◌/◌, ◌%◌, ◌^◌, ◌≤◌, ◌<◌, ◌≡◌, refl, sym, ap, ◌∙◌, Bool, true, false,
  not, ◌&&◌, some, List, [], ◌∷◌, ◌++◌, append_assoc, ltb, ◌==◌, if◌then◌else◌, length,
  length-append, length-take, take, replicate, All, All-take, All-append, ◌≢◌, arith, le→ltb-false,
}
use i_can.Common.Words.{IsByte, set_bit}
use i_can.Can.{Frame, IsFrame, is_eff, is_fdf, can_fd_dlc2len, can_fd_len2dlc}
use i_can.Can.Dlc.{len2dlc-lt, dlc2len-le}
use i_can.Slcan.Text.{
  hex_nibble, id_digits, data_digits, encode, encode_as, clamp_len, decode, decoded, type_char,
}
use i_can.Slcan.Digits.{
  digits_of, id_limit, line_of, data_len_of, decode-line_of, length-data_digits, length-id_digits,
}

-- The data length at which encode and decode agree: at most 8 for a classic frame, and for an FD
-- frame one of the lengths that a DLC stands for.
abbrev pub IsLength : Bool → ℕ → Type 0
IsLength true len = can_fd_dlc2len (can_fd_len2dlc len) ≡ len
IsLength false len = len ≤ 8

-- What the text keeps of a frame: the id within its mask and the EFF bit, the length, the FD bit,
-- and the data bytes. The RTR and error bits, BRS, ESI, and the channel are lost.
abbrev pub kept : Frame → Frame
kept f = record {
  can_id = if is_eff f.can_id then f.can_id % 2 ^ 29 + 2 ^ 31 else f.can_id % 2 ^ 11;
  len = f.len;
  flags = if is_fdf f.flags then 4 else 0;
  res0 = 0;
  res1 = 0;
  payload = take f.len f.payload ++ replicate (64 - f.len) 0;
}

-- The id bits that are written.
abbrev raw_id : Bool → ℕ → ℕ
raw_id extended id = if extended then id % 2 ^ 29 else id % 2 ^ 11

abbrev pub dlc_of : Bool → ℕ → ℕ
dlc_of fd len = if fd then can_fd_len2dlc len else len

-- The line that encode writes, without the byte that ends it.
abbrev line : Bool → Bool → Frame → List ℕ
line extended fd f =
    line_of extended fd (raw_id extended f.can_id) (dlc_of fd f.len) (take f.len f.payload)

len_cases :
    (fd : Bool) (len : ℕ)
    → IsLength fd len
    → (len ≤ 64)
      × (dlc_of fd len < 16)
      × (len ≡ data_len_of fd (dlc_of fd len))
      × ((not fd && ltb 8 len) ≡ false)
      × (clamp_len fd len ≡ len)
len_cases true len h = (
  omega (arith, dlc2len-le (can_fd_len2dlc len), h),
  len2dlc-lt len,
  sym h,
  refl,
  rw (le→ltb-false 64 len (omega (arith, dlc2len-le (can_fd_len2dlc len), h))),
)
len_cases false len h =
    (omega arith, omega arith, refl, le→ltb-false 8 len h, rw (le→ltb-false 8 len h))

taken : (f : Frame) → IsFrame f → f.len ≤ 64 → length (take f.len f.payload) ≡ f.len
taken f v h = omega (arith, length-take f.len f.payload, v.payload_size)

pub head_len : (n v x : ℕ) → length (id_digits n v ++ (x ∷ [])) ≡ n + 1
head_len n v x = omega (arith, length-append (id_digits n v) (x ∷ []), length-id_digits n v)

pub fits_buffer :
    (n : ℕ) (xs : List ℕ) (m : ℕ)
    → length xs ≡ n + 1
    → n ≤ 8
    → m ≤ 64
    → ltb 256 (suc (length xs) + m * 2 + 1) ≡ false
fits_buffer n xs m e h k = le→ltb-false 256 _ (bound n xs m e h k)
  where
    bound :
        (n : ℕ) (xs : List ℕ) (m : ℕ)
        → length xs ≡ n + 1
        → n ≤ 8
        → m ≤ 64
        → suc (length xs) + m * 2 + 1 ≤ 256
    bound n xs m e h k = omega arith

encode_as-line :
    (extended fd : Bool) (f : Frame)
    → IsFrame f
    → IsLength fd f.len
    → encode_as extended fd f 256 ≡ line extended fd f ++ (13 ∷ [])
unfolding encode_as
encode_as-line true fd f v l =
    let c = len_cases fd f.len l in
    rw
      (
        c.4,
        fits_buffer 8 _ f.len (head_len 8 (f.can_id % 2 ^ 29) (hex_nibble (dlc_of fd f.len)))
            (omega arith) c.0,
      )
      (simp append_assoc)
encode_as-line false fd f v l =
    let c = len_cases fd f.len l in
    rw
      (
        c.4,
        fits_buffer 3 _ f.len (head_len 3 (f.can_id % 2 ^ 11) (hex_nibble (dlc_of fd f.len)))
            (omega arith) c.0,
      )
      (simp append_assoc)

raw_id-lt : (extended : Bool) (id : ℕ) → raw_id extended id < id_limit extended
raw_id-lt true id = omega arith
raw_id-lt false id = omega arith

decode-line :
    (extended fd : Bool) (f : Frame)
    → IsFrame f
    → IsLength fd f.len
    → decode (line extended fd f)
      ≡ some (
          decoded fd
            (if extended then set_bit 31 (raw_id extended f.can_id) else raw_id extended f.can_id)
            f.len
            (take f.len f.payload))
decode-line extended fd f v l =
    let (a, b, c, d, _) = len_cases fd f.len l in
    let t = taken f v a in
    decode-line_of extended fd (raw_id extended f.can_id) (dlc_of fd f.len) (take f.len f.payload)
      (raw_id-lt extended f.can_id) b (t ∙ c) (All-take IsByte f.len f.payload v.payload_bytes)
      (rw t d)
    ∙ ap
        (λ n. some (
          decoded fd
            (if extended then set_bit 31 (raw_id extended f.can_id) else raw_id extended f.can_id) n
            (take f.len f.payload)))
        t

-- The EFF bit is not among the id bits.
set_eff :
    (extended : Bool) (id : ℕ)
    → (if extended then set_bit 31 (raw_id extended id) else raw_id extended id)
      ≡ (if extended then id % 2 ^ 29 + 2 ^ 31 else id % 2 ^ 11)
set_eff true id = let clear : (id % 2 ^ 29 / 2 ^ 31 % 2 == 1) ≡ false = ground arith in rw clear
set_eff false id = refl

-- A byte that processBytes takes for text.
abbrev pub IsText : ℕ → Type 0
IsText c = (c ≢ 13) × (c ≢ 10)

hex_nibble-IsText : (v : ℕ) → IsText (hex_nibble v)
unfolding hex_nibble
hex_nibble-IsText v = (λ e. ground arith, λ e. ground arith)

id_digits-IsText : (n v : ℕ) → All IsText (id_digits n v)
unfolding id_digits
id_digits-IsText zero v = tt
id_digits-IsText (suc n) v = (hex_nibble-IsText _, id_digits-IsText n v)

data_digits-IsText : (bs : List ℕ) → All IsText (data_digits bs)
unfolding data_digits
data_digits-IsText [] = tt
data_digits-IsText (b ∷ bs) =
    (hex_nibble-IsText (b / 16), (hex_nibble-IsText b, data_digits-IsText bs))

type_char-IsText : (fd extended : Bool) → IsText (type_char fd extended)
type_char-IsText true true = omega arith
type_char-IsText true false = omega arith
type_char-IsText false true = omega arith
type_char-IsText false false = omega arith

line-IsText : (extended fd : Bool) (f : Frame) → All IsText (line extended fd f)
line-IsText extended fd f = (
  type_char-IsText fd extended,
  All-append IsText (id_digits (digits_of extended) (raw_id extended f.can_id)) _
      (id_digits-IsText (digits_of extended) (raw_id extended f.can_id))
      (hex_nibble-IsText (dlc_of fd f.len), data_digits-IsText (take f.len f.payload)),
)

digits_of-le : (extended : Bool) → digits_of extended ≤ 8
digits_of-le true = omega arith
digits_of-le false = omega arith

length-line :
    (extended fd : Bool) (f : Frame) → IsFrame f → f.len ≤ 64 → length (line extended fd f) ≤ 138
length-line extended fd f v h = omega (
  arith,
  length-append (id_digits (digits_of extended) (raw_id extended f.can_id))
      (hex_nibble (dlc_of fd f.len) ∷ data_digits (take f.len f.payload)),
  length-id_digits (digits_of extended) (raw_id extended f.can_id),
  digits_of-le extended,
  length-data_digits (take f.len f.payload),
  taken f v h,
)

-- The text of a frame: what encode writes, and what decode and the accumulator make of it.
pub record IsTextOf (f : Frame) (text : List ℕ) : Type 0 where
  pub written : encode f 256 ≡ text ++ (13 ∷ [])
  pub read : decode text ≡ some (kept f)
  pub plain : All IsText text
  pub short : length text ≤ 138

-- For a frame whose length the text can carry, encode into a buffer of 256 bytes writes a line of
-- at most 138 bytes and a carriage return, the line holds no carriage return or newline, and
-- decode reads back from it what the text keeps of the frame.
pub decode-encode :
    (f : Frame) → IsFrame f → IsLength (is_fdf f.flags) f.len → (text : List ℕ) × IsTextOf f text
unfolding encode
decode-encode f v l = (
  line (is_eff f.can_id) (is_fdf f.flags) f,
  record {
    written = encode_as-line (is_eff f.can_id) (is_fdf f.flags) f v l;
    read =
        decode-line (is_eff f.can_id) (is_fdf f.flags) f v l
        ∙ ap (λ i. some (decoded (is_fdf f.flags) i f.len (take f.len f.payload)))
            (set_eff (is_eff f.can_id) f.can_id);
    plain = line-IsText (is_eff f.can_id) (is_fdf f.flags) f;
    short =
        length-line (is_eff f.can_id) (is_fdf f.flags) f v (len_cases (is_fdf f.flags) f.len l).0;
  },
)
