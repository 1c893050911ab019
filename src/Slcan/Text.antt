-- ===== src/Slcan/Text.antt =====
-- The free functions of slcan_codec.cc: a frame as a line of text, and back. A line is the list of
-- its bytes.
use i_can.Common.{
  ℕ, zero, suc, ◌+◌, ◌-◌, ◌*◌, ◌/◌, ◌%◌, ◌^◌, Bool, true, false, not, ◌&&◌, Option, none, some,
  List, [], ◌∷◌, ◌++◌, ltb, leb, ◌==◌, if◌then◌else◌, length, take, replicate,
}
use i_can.Common.Options.{◌>>=◌}
use i_can.Common.Words.{u32_mod, set_bit}
use i_can.Can.{Frame, can_max_dlen, canfd_max_dlen, is_eff, is_fdf, can_fd_dlc2len, can_fd_len2dlc}
use i_can.Ring.{zero_frame}

-- The byte that ends a line.
abbrev pub carriage_return : ℕ
carriage_return = 13

unfoldable pub hex_nibble : ℕ → ℕ
hex_nibble v = if ltb (v % 16) 10 then b'0' + v % 16 else b'A' + v % 16 - 10

-- -1 is `none`.
unfoldable pub hex_val : ℕ → Option ℕ
hex_val c =
    if leb b'0' c && leb c b'9'
    then some (c - b'0')
    else if leb b'a' c && leb c b'f'
    then some (c - b'a' + 10)
    else if leb b'A' c && leb c b'F'
    then some (c - b'A' + 10)
    else none

-- The digits of a CAN id, highest first: `(rawId >> (i * 4)) & 0x0F` for i from n - 1 down to 0.
unfoldable pub id_digits : ℕ → ℕ → List ℕ
id_digits zero v = []
id_digits (suc n) v = hex_nibble (v / 2 ^ (n * 4) % 16) ∷ id_digits n v

-- Two digits for each byte.
unfoldable pub data_digits : List ℕ → List ℕ
data_digits [] = []
data_digits (b ∷ bs) = hex_nibble (b / 16) ∷ hex_nibble b ∷ data_digits bs

abbrev pub type_char : Bool → Bool → ℕ
type_char fd extended =
    if fd then (if extended then b'D' else b'd') else (if extended then b'T' else b't')

-- The number of data bytes that are written: at most 64 of an FD frame, and 8 of a classic one.
abbrev pub clamp_len : Bool → ℕ → ℕ
clamp_len fd len =
    if fd
    then (if ltb canfd_max_dlen len then canfd_max_dlen else len)
    else (if ltb can_max_dlen len then can_max_dlen else len)

-- encode from the type character on.
unfoldable pub encode_as : Bool → Bool → Frame → ℕ → List ℕ
encode_as extended fd f out_size =
    let raw_id = if extended then f.can_id % 2 ^ 29 else f.can_id % 2 ^ 11 in
    let id = if extended then id_digits 8 raw_id else id_digits 3 raw_id in
    let dlc = if fd then can_fd_len2dlc f.len else f.len in
    let data_len = clamp_len fd f.len in
    let head = type_char fd extended ∷ (id ++ (hex_nibble dlc ∷ [])) in
    if ltb out_size (length head + data_len * 2 + 1)
    then []
    else head ++ (data_digits (take data_len f.payload) ++ (carriage_return ∷ []))

-- slcan::encode: the bytes written, of which there are none where the code returns 0.
unfoldable pub encode : Frame → ℕ → List ℕ
encode f out_size =
    if ltb out_size 8 then [] else encode_as (is_eff f.can_id) (is_fdf f.flags) f out_size

-- `canId = (canId << 4) | v` for each digit; `none` at a byte that is no digit. It returns the
-- bytes that follow too.
unfoldable pub parse_id : ℕ → ℕ → List ℕ → Option (ℕ × List ℕ)
parse_id zero id buf = some (id, buf)
parse_id (suc n) id [] = none
parse_id (suc n) id (c ∷ buf) = do v ← hex_val c; parse_id n (id * 16 % u32_mod + v) buf

-- The loop over the data bytes, of which `n` are left.
unfoldable pub parse_data : ℕ → List ℕ → Option (List ℕ)
parse_data zero buf = some []
parse_data (suc n) [] = none
parse_data (suc n) (h ∷ []) = none
parse_data (suc n) (h ∷ l ∷ buf) = do
  hi ← hex_val h
  lo ← hex_val l
  bs ← parse_data n buf
  some ((hi * 16 + lo) ∷ bs)

-- Whether the first byte says that the frame is extended, and that it is FD.
unfoldable pub parse_type : ℕ → Option (Bool × Bool)
parse_type c =
    if c == b't'
    then some (false, false)
    else if c == b'T'
    then some (true, false)
    else if c == b'd'
    then some (false, true)
    else if c == b'D'
    then some (true, true)
    else none

-- The frame that decode builds, with zeros behind its data bytes.
abbrev pub decoded : Bool → ℕ → ℕ → List ℕ → Frame
decoded fd can_id data_len bs = record zero_frame {
  can_id = can_id;
  len = data_len;
  flags = if fd then 4 else 0;
  payload = bs ++ replicate (64 - data_len) 0;
}

-- decode from the data bytes on, after the test of the DLC.
unfoldable pub decode_data : Bool → ℕ → ℕ → List ℕ → Option Frame
decode_data fd can_id dlc buf =
    let data_len = if fd then can_fd_dlc2len dlc else dlc in
    if not fd && ltb can_max_dlen data_len
    then none
    else if ltb (length buf) (data_len * 2)
    then none
    else (parse_data data_len buf >>= λ bs. some (decoded fd can_id data_len bs))

-- decode from the DLC on.
unfoldable pub decode_dlc : Bool → ℕ → List ℕ → Option Frame
decode_dlc fd can_id [] = none
decode_dlc fd can_id (c ∷ buf) = do dlc ← hex_val c; decode_data fd can_id dlc buf

-- decode from the id on; `len` is the length of the line.
unfoldable pub decode_id : ℕ → Bool × Bool → List ℕ → Option Frame
decode_id len (extended, fd) buf =
    let digits : ℕ = if extended then 8 else 3 in
    if ltb len (1 + digits + 1)
    then none
    else (parse_id digits 0 buf >>= λ r.
        decode_dlc fd (if extended then set_bit 31 r.0 else r.0) r.1)

-- slcan::decode: the frame, where it returns true.
unfoldable pub decode : List ℕ → Option Frame
decode [] = none
decode (c ∷ buf) =
    if ltb (length (c ∷ buf)) 5
    then none
    else (parse_type c >>= λ t. decode_id (length (c ∷ buf)) t buf)

-- bitrateToCode; 0 is `none`.
unfoldable pub bitrate_to_code : ℕ → Option ℕ
bitrate_to_code bitrate =
    if bitrate == 10000
    then some b'0'
    else if bitrate == 20000
    then some b'1'
    else if bitrate == 50000
    then some b'2'
    else if bitrate == 100000
    then some b'3'
    else if bitrate == 125000
    then some b'4'
    else if bitrate == 250000
    then some b'5'
    else if bitrate == 500000
    then some b'6'
    else if bitrate == 800000
    then some b'7'
    else if bitrate == 1000000
    then some b'8'
    else none
