-- ===== src/Slcan/Bounds.antt =====
-- How long the text is that encode writes.
use i_can.Common.{
  ℕ, suc, ◌+◌, ◌*◌, ◌%◌, ◌^◌, ◌≤◌, ◌≡◌, Bool, true, false, List, [], ◌∷◌, ◌++◌, ltb, ◌==◌,
  if◌then◌else◌, length, length-append, length-take, take, arith, Bool-cases, inl, inr,
  ltb-false→le,
}
use i_can.Can.{Frame, is_eff, is_fdf}
use i_can.Slcan.Text.{hex_nibble, id_digits, data_digits, encode, encode_as, clamp_len, type_char}
use i_can.Slcan.Digits.{length-data_digits}
use i_can.Slcan.RoundTrip.{dlc_of, head_len, fits_buffer}

clamp_len-le : (fd : Bool) (len : ℕ) → clamp_len fd len ≤ 64
clamp_len-le true len = ground arith
clamp_len-le false len = ground arith

suc-ne-zero : (n : ℕ) → (suc n == 0) ≡ false
suc-ne-zero n = ground arith

encode_as-ne-empty :
    (extended fd : Bool) (f : Frame) → (length (encode_as extended fd f 256) == 0) ≡ false
unfolding encode_as
encode_as-ne-empty true fd f =
    rw
      (fits_buffer 8 _ (clamp_len fd f.len)
        (head_len 8 (f.can_id % 2 ^ 29) (hex_nibble (dlc_of fd f.len))) (omega arith)
        (clamp_len-le fd f.len))
      (suc-ne-zero _)
encode_as-ne-empty false fd f =
    rw
      (fits_buffer 3 _ (clamp_len fd f.len)
        (head_len 3 (f.can_id % 2 ^ 11) (hex_nibble (dlc_of fd f.len))) (omega arith)
        (clamp_len-le fd f.len))
      (suc-ne-zero _)

-- A buffer of 256 bytes is enough for the text of any frame: encode never returns 0 there.
pub encode-ne-empty : (f : Frame) → (length (encode f 256) == 0) ≡ false
unfolding encode
encode-ne-empty f = encode_as-ne-empty (is_eff f.can_id) (is_fdf f.flags) f

bounded_text :
    (n : ℕ) (head : List ℕ) (m : ℕ) (bs : List ℕ)
    → length (
        if ltb n (length head + m * 2 + 1)
        then []
        else head ++ (data_digits (take m bs) ++ (13 ∷ [])))
      ≤ n
bounded_text n head m bs = elim (Bool-cases (ltb n (length head + m * 2 + 1))) [
  | inl long ↦ rw long (omega arith)
  | inr room ↦ rw room (
      omega (
        arith,
        ltb-false→le n (length head + m * 2 + 1) room,
        length-append head (data_digits (take m bs) ++ (13 ∷ [])),
        length-append (data_digits (take m bs)) (13 ∷ []),
        length-data_digits (take m bs),
        length-take m bs,
      ))
]

length-encode_as : (extended fd : Bool) (f : Frame) → length (encode_as extended fd f 256) ≤ 256
unfolding encode_as
length-encode_as true fd f =
    bounded_text 256
      (type_char fd true ∷ (id_digits 8 (f.can_id % 2 ^ 29) ++ (hex_nibble (dlc_of fd f.len) ∷ [])))
      (clamp_len fd f.len) f.payload
length-encode_as false fd f =
    bounded_text 256
      (type_char fd false
        ∷ (id_digits 3 (f.can_id % 2 ^ 11) ++ (hex_nibble (dlc_of fd f.len) ∷ [])))
      (clamp_len fd f.len) f.payload

-- encode writes at most the 256 bytes of the buffer.
pub length-encode : (f : Frame) → length (encode f 256) ≤ 256
unfolding encode
length-encode f = length-encode_as (is_eff f.can_id) (is_fdf f.flags) f
