-- ===== src/Pcan/RoundTrip.antt =====
-- The fields that encodeTxFrame writes, read back from an RX message that carries them.
use i_can.Common.{
  ℕ, ◌+◌, ◌-◌, ◌/◌, ◌%◌, ◌^◌, ◌≤◌, ◌<◌, ◌≡◌, refl, ap, ap₂, ◌∙◌, Bool, true, false, not, ◌&&◌, List,
  ◌∷◌, ◌++◌, ◌==◌, if◌then◌else◌, length, length-append, length-take, length-replicate, take, arith,
}
use i_can.Common.Words.{le_bytes, test_bit, set_bit}
use i_can.Can.{
  Frame, IsFrame, is_eff, is_rtr, is_fdf, is_brs, is_esi, can_fd_dlc2len, can_fd_len2dlc, memcpy,
}
use i_can.Can.Dlc.{len2dlc_least, len2dlc-lt, dlc2len-le}
use i_can.Can.Layout.{word_of_bytes}
use i_can.Can.Padding.{zeros, body_back}
use i_can.Pcan.Frames.{
  tx_data_len, tx_msg_size, tx_flags, tx_id, tx_channel_dlc, rx_id, rx_len, rx_copy_len,
  rx_frame_of, decode_rx_frame, tx_echo_tag,
}

-- A TX message by its fields, with the empty message behind it that ends a transfer.
abbrev pub tx_message : ℕ → ℕ → ℕ → List ℕ → List ℕ
tx_message channel_dlc flags id body =
    le_bytes 2 (20 + length body)
    ++ (le_bytes 2 0x1000
        ++ (le_bytes 4 tx_echo_tag
            ++ (le_bytes 4 0
                ++ (channel_dlc ∷ 0 ∷ (le_bytes 2 flags ++ (le_bytes 4 id ++ (body ++ zeros 4)))))))

-- An RX message by its fields.
abbrev pub rx_message : ℕ → ℕ → ℕ → ℕ → ℕ → List ℕ → List ℕ
rx_message time tag channel_dlc flags id body =
    le_bytes 2 (28 + length body)
    ++ (le_bytes 2 1
        ++ (le_bytes 8 time
            ++ (le_bytes 4 tag
                ++ (le_bytes 4 0
                    ++ (channel_dlc ∷ 0 ∷ (le_bytes 2 flags ++ (le_bytes 4 id ++ body)))))))

pub decode-rx_message :
    (time tag channel_dlc flags id : ℕ) (body : List ℕ)
    → flags < 2 ^ 16
    → id < 2 ^ 32
    → decode_rx_frame (rx_message time tag channel_dlc flags id body) (28 + length body)
      ≡ rx_frame_of channel_dlc flags id body (28 + length body)
unfolding decode_rx_frame
decode-rx_message time tag channel_dlc flags id body f i =
    ap₂ (λ a b. rx_frame_of channel_dlc a b body (28 + length body)) (omega arith)
      (word_of_bytes id i)

-- The flags of a TX message from its four bits.
abbrev bits : Bool → Bool → Bool → Bool → Bool → ℕ
bits eff fd brs esi rtr =
    (if eff then 2 else 0)
    + (if fd
        then 16 + (if brs then 32 else 0) + (if esi then 64 else 0)
        else (if rtr then 1 else 0))

pub bits_lem :
    (eff fd brs esi rtr : Bool)
    → (test_bit 0 (bits eff fd brs esi rtr) ≡ (not fd && rtr))
      × (test_bit 1 (bits eff fd brs esi rtr) ≡ eff)
      × (test_bit 4 (bits eff fd brs esi rtr) ≡ fd)
      × (test_bit 5 (bits eff fd brs esi rtr) ≡ (fd && brs))
      × (test_bit 6 (bits eff fd brs esi rtr) ≡ (fd && esi))
      × (bits eff fd brs esi rtr < 2 ^ 16)
bits_lem true true true true rtr = (refl, refl, refl, refl, refl, omega arith)
bits_lem true true true false rtr = (refl, refl, refl, refl, refl, omega arith)
bits_lem true true false true rtr = (refl, refl, refl, refl, refl, omega arith)
bits_lem true true false false rtr = (refl, refl, refl, refl, refl, omega arith)
bits_lem true false brs esi true = (refl, refl, refl, refl, refl, omega arith)
bits_lem true false brs esi false = (refl, refl, refl, refl, refl, omega arith)
bits_lem false true true true rtr = (refl, refl, refl, refl, refl, omega arith)
bits_lem false true true false rtr = (refl, refl, refl, refl, refl, omega arith)
bits_lem false true false true rtr = (refl, refl, refl, refl, refl, omega arith)
bits_lem false true false false rtr = (refl, refl, refl, refl, refl, omega arith)
bits_lem false false brs esi true = (refl, refl, refl, refl, refl, omega arith)
bits_lem false false brs esi false = (refl, refl, refl, refl, refl, omega arith)

no_bit : (k x : ℕ) → x / 2 ^ k % 2 ≡ 0 → set_bit k x ≡ x + 2 ^ k
no_bit k x e = let clear : (x / 2 ^ k % 2 == 1) ≡ false = ground (arith, e) in rw clear refl

id_bits :
    (x : ℕ) (eff rtr : Bool)
    → x < 2 ^ 29
    → (let id = if eff then set_bit 31 x else x in if rtr then set_bit 30 id else id)
      ≡ x + (if eff then 2 ^ 31 else 0) + (if rtr then 2 ^ 30 else 0)
id_bits x true true l =
    ap (set_bit 30) (no_bit 31 x (omega arith)) ∙ no_bit 30 (x + 2 ^ 31) (omega arith)
id_bits x true false l = no_bit 31 x (omega arith) ∙ omega arith
id_bits x false true l = no_bit 30 x (omega arith) ∙ omega arith
id_bits x false false l = omega arith

pub tx_id-lt : (can_id : ℕ) → tx_id can_id < 2 ^ 29
tx_id-lt can_id = ground arith

-- The id of a received frame from that of a TX message.
rx_id_lem :
    (can_id flags : ℕ) (eff rtr : Bool)
    → test_bit 0 flags ≡ rtr
    → test_bit 1 flags ≡ eff
    → rx_id (tx_id can_id) flags
      ≡ tx_id can_id + (if eff then 2 ^ 31 else 0) + (if rtr then 2 ^ 30 else 0)
rx_id_lem can_id flags eff rtr a b = rw (a, b) (id_bits (tx_id can_id) eff rtr (tx_id-lt can_id))

-- The length that comes back.
abbrev pub read_len : Bool → ℕ → ℕ
read_len fd len =
    if fd then can_fd_dlc2len (can_fd_len2dlc (tx_data_len fd len)) else tx_data_len fd len

-- Whether a message asks for data: a classic frame with the RTR bit.
abbrev pub is_request : Frame → Bool
is_request f = not (is_fdf f.flags) && is_rtr f.can_id

-- What a message keeps of a frame: the channel below 16, the id within its mask with the EFF bit,
-- the RTR bit of a classic frame, the format, BRS, ESI, and the data, unless it is a request.
abbrev pub kept : Frame → Frame
kept f = record {
  can_id =
      tx_id f.can_id
      + (if is_eff f.can_id then 2 ^ 31 else 0)
      + (if is_request f then 2 ^ 30 else 0);
  len = read_len (is_fdf f.flags) f.len;
  flags =
      if is_fdf f.flags
      then 4
        + (if is_fdf f.flags && is_brs f.flags then 1 else 0)
        + (if is_fdf f.flags && is_esi f.flags then 2 else 0)
      else 0;
  res0 = f.res0 % 16;
  res1 = 0;
  payload =
      if is_request f
      then zeros 64
      else take (tx_data_len (is_fdf f.flags) f.len) f.payload
        ++ zeros (64 - tx_data_len (is_fdf f.flags) f.len);
}

abbrev pub tx_dlc : Bool → ℕ → ℕ
tx_dlc fd data_len = if fd then can_fd_len2dlc data_len else data_len

pub tx_data_len-le : (fd : Bool) (len : ℕ) → tx_data_len fd len ≤ 64
tx_data_len-le true len = ground arith
tx_data_len-le false len = ground arith

-- The code fits its four bits, and its length is that of the data or more.
tx_dlc_lem :
    (fd : Bool) (len : ℕ)
    → (tx_dlc fd (tx_data_len fd len) < 16)
      × (rx_len fd (tx_dlc fd (tx_data_len fd len)) ≡ read_len fd len)
      × (tx_data_len fd len ≤ read_len fd len)
      × (read_len fd len ≤ 64)
tx_dlc_lem true len =
    let d = tx_data_len true len in
    (
      len2dlc-lt d,
      refl,
      (len2dlc_least d (can_fd_len2dlc d) (tx_data_len-le true len) (len2dlc-lt d)).1 (omega arith),
      dlc2len-le (can_fd_len2dlc d),
    )
tx_dlc_lem false len = (ground arith, ground arith, omega arith, tx_data_len-le false len)

-- The data bytes of a message, padded to a multiple of four.
abbrev pub body : Frame → List ℕ
body f =
    let d = tx_data_len (is_fdf f.flags) f.len in take d f.payload ++ zeros (tx_msg_size d - 20 - d)

pub msg_size_lem :
    (d : ℕ) → d ≤ 64 → (d ≤ tx_msg_size d - 20) × (tx_msg_size d - 20 ≤ 64) × (20 ≤ tx_msg_size d)
msg_size_lem d l = omega arith

pub length-body :
    (f : Frame)
    → IsFrame f
    → 20 + length (body f) ≡ tx_msg_size (tx_data_len (is_fdf f.flags) f.len)
length-body f v =
    let d = tx_data_len (is_fdf f.flags) f.len in
    let top = tx_data_len-le (is_fdf f.flags) f.len in
    omega (
      arith,
      length-append (take d f.payload) (zeros (tx_msg_size d - 20 - d)),
      length-take d f.payload,
      length-replicate {A = ℕ} (tx_msg_size d - 20 - d) 0,
      v.payload_size,
    )

copy_len_lem :
    (d l m : ℕ)
    → d ≤ l
    → l ≤ 64
    → d ≤ m
    → m ≤ 64
    → (d ≤ rx_copy_len l (28 + m)) × (rx_copy_len l (28 + m) ≤ m)
copy_len_lem d l m a b c e = (ground arith, ground arith)

channel_dlc_lem :
    (channel dlc : ℕ)
    → dlc < 16
    → (tx_channel_dlc channel dlc / 16 ≡ dlc)
      × (tx_channel_dlc channel dlc % 16 ≡ channel % 16)
      × (tx_channel_dlc channel dlc < 256)
channel_dlc_lem channel dlc l = (omega arith, omega arith, omega arith)

-- The payload that decodeRxFrame copies out of a message with the padded data of a frame.
payload_lem :
    (f : Frame) (len : ℕ)
    → IsFrame f
    → len ≡ read_len (is_fdf f.flags) f.len
    → memcpy (zeros 64) (body f) (rx_copy_len len (28 + length (body f)))
      ≡ take (tx_data_len (is_fdf f.flags) f.len) f.payload
        ++ zeros (64 - tx_data_len (is_fdf f.flags) f.len)
payload_lem f len v e =
    let fd = is_fdf f.flags in
    let d = tx_data_len fd f.len in
    let (_, _, le, top) = tx_dlc_lem fd f.len in
    let (m_le, m_top, m_20) = msg_size_lem d (tx_data_len-le fd f.len) in
    let size : length (body f) ≡ tx_msg_size d - 20 = omega (arith, length-body f v) in
    let (low, high) =
      copy_len_lem d len (length (body f)) (omega (arith, e, le)) (omega (arith, e, top))
        (omega (arith, size, m_le)) (omega (arith, size, m_top)) in
    body_back f d (rx_copy_len len (28 + length (body f))) (tx_msg_size d - 20) v low
      (omega (arith, size, high)) m_top

-- The frame of the fields that encodeTxFrame writes.
pub rx_frame_of-kept :
    (f : Frame)
    → IsFrame f
    → rx_frame_of
        (tx_channel_dlc f.res0 (tx_dlc (is_fdf f.flags) (tx_data_len (is_fdf f.flags) f.len)))
        (tx_flags f)
        (tx_id f.can_id)
        (body f)
        (28 + length (body f))
      ≡ kept f
unfolding rx_frame_of
rx_frame_of-kept f v =
    let fd = is_fdf f.flags in
    let d = tx_data_len fd f.len in
    let dlc = tx_dlc fd d in
    let (dlc_lt, back, le, top) = tx_dlc_lem fd f.len in
    let (b0, b1, b4, b5, b6, _) =
      bits_lem (is_eff f.can_id) fd (is_brs f.flags) (is_esi f.flags) (is_rtr f.can_id) in
    let (high, low, _) = channel_dlc_lem f.res0 dlc dlc_lt in
    let idp = rx_id_lem f.can_id (tx_flags f) (is_eff f.can_id) (is_request f) b0 b1 in
    let lenp : rx_len (test_bit 4 (tx_flags f)) (tx_channel_dlc f.res0 dlc / 16)
        ≡ read_len fd f.len =
      ap₂ rx_len b4 high ∙ back in
    let fp : (if test_bit 4 (tx_flags f)
          then 4
            + (if test_bit 5 (tx_flags f) then 1 else 0)
            + (if test_bit 6 (tx_flags f) then 2 else 0)
          else 0)
        ≡ (kept f).flags =
      rw (b4, b5, b6) refl in
    let payp : (if test_bit 0 (tx_flags f)
          then zeros 64
          else memcpy (zeros 64) (body f) (
              rx_copy_len (rx_len (test_bit 4 (tx_flags f)) (tx_channel_dlc f.res0 dlc / 16))
                (28 + length (body f))))
        ≡ (kept f).payload =
      ap₂ (λ b x. if b then zeros 64 else x) b0 (payload_lem f _ v lenp) in
    λ i. record {
      can_id = idp i;
      len = lenp i;
      flags = fp i;
      res0 = low i;
      res1 = 0;
      payload = payp i;
    }
