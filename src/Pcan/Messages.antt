-- ===== src/Pcan/Messages.antt =====
-- The message that encodeTxFrame writes for a frame, and the frame that decodeRxFrame reads from
-- an RX message with the same fields.
use i_can.Common.{
  ℕ, zero, suc, ◌+◌, ◌-◌, ◌^◌, ◌<◌, ◌≡◌, sym, ap, ap₂, ◌∙◌, false, List, ◌∷◌, ◌++◌, append_assoc,
  ltb, length, take, arith, le→ltb-false, ◌≤◌, length-append,
}
use i_can.Can.{Frame, IsFrame, is_eff, is_rtr, is_fdf, is_brs, is_esi}
use i_can.Can.Padding.{zeros}
use i_can.Pcan.Frames.{
  tx_data_len, tx_msg_size, tx_flags, tx_id, tx_channel_dlc, tx_echo_tag, encode_tx_frame,
  decode_rx_frame,
}
use i_can.Common.Words.{le_bytes}
use i_can.Pcan.RoundTrip.{
  tx_message, rx_message, decode-rx_message, bits_lem, tx_id-lt, tx_dlc, tx_data_len-le, kept, body,
  length-body, rx_frame_of-kept, msg_size_lem,
}

zeros-add : (m n : ℕ) → zeros (m + n) ≡ zeros m ++ zeros n
zeros-add zero n = let e : 0 + n ≡ n = omega arith in ap zeros e
zeros-add (suc m) n =
    let e : suc m + n ≡ suc (m + n) = omega arith in ap zeros e ∙ ap (λ l. 0 ∷ l) (zeros-add m n)

-- The data of a message with the padding and the empty message behind them.
tail_lem :
    (f : Frame)
    → (let d = tx_data_len (is_fdf f.flags) f.len in
        take d f.payload ++ zeros (tx_msg_size d + 4 - 20 - d))
      ≡ body f ++ zeros 4
tail_lem f =
    let d = tx_data_len (is_fdf f.flags) f.len in
    let (fits, _, base) = msg_size_lem d (tx_data_len-le (is_fdf f.flags) f.len) in
    let e : tx_msg_size d + 4 - 20 - d ≡ (tx_msg_size d - 20 - d) + 4 = omega (arith, fits, base) in
    ap (λ n. take d f.payload ++ zeros n) e
    ∙ ap (λ l. take d f.payload ++ l) (zeros-add (tx_msg_size d - 20 - d) 4)
    ∙ sym (append_assoc (take d f.payload) (zeros (tx_msg_size d - 20 - d)) (zeros 4))

-- The message of a frame, from its fields.
abbrev pub sent_message : Frame → List ℕ
sent_message f =
    let fd = is_fdf f.flags in
    tx_message (tx_channel_dlc f.res0 (tx_dlc fd (tx_data_len fd f.len))) (tx_flags f)
      (tx_id f.can_id) (body f)

-- The message with which a device hands the same fields on.
abbrev pub echoed_message : ℕ → ℕ → Frame → List ℕ
echoed_message time tag f =
    let fd = is_fdf f.flags in
    rx_message time tag (tx_channel_dlc f.res0 (tx_dlc fd (tx_data_len fd f.len))) (tx_flags f)
      (tx_id f.can_id) (body f)

pub encode_tx_frame-sent_message : (f : Frame) → IsFrame f → encode_tx_frame f 128 ≡ sent_message f
unfolding encode_tx_frame
encode_tx_frame-sent_message f v =
    let d = tx_data_len (is_fdf f.flags) f.len in
    let (_, top, base) = msg_size_lem d (tx_data_len-le (is_fdf f.flags) f.len) in
    let fits : ltb 128 (tx_msg_size d + 4) ≡ false =
      le→ltb-false 128 (tx_msg_size d + 4) (omega (arith, top, base)) in
    rw fits (
      ap₂
        (λ n l.
          le_bytes 2 n
          ++ (le_bytes 2 0x1000
              ++ (le_bytes 4 tx_echo_tag
                  ++ (le_bytes 4 0
                      ++ (tx_channel_dlc f.res0 (tx_dlc (is_fdf f.flags) d)
                          ∷ 0
                          ∷ (le_bytes 2 (tx_flags f) ++ (le_bytes 4 (tx_id f.can_id) ++ l)))))))
        (sym (length-body f v)) (tail_lem f))

-- A frame that encodeTxFrame writes into the buffer of drainTx is one message with its size, type
-- and echo tag, the fields and the padded data, and an empty message behind it. decodeRxFrame
-- reads an RX message with the same fields, whatever its time and tag, as that frame: the channel
-- below 16, the id within its mask with EFF, RTR for a classic frame, the format, BRS and ESI, and
-- the data, unless it is a request.
pub decode_rx_frame-encode_tx_frame :
    (f : Frame)
    → IsFrame f
    → (encode_tx_frame f 128 ≡ sent_message f)
      × ((time tag : ℕ)
          → decode_rx_frame (echoed_message time tag f) (28 + length (body f)) ≡ kept f)
decode_rx_frame-encode_tx_frame f v =
    let (_, _, _, _, _, flags_lt) =
      bits_lem (is_eff f.can_id) (is_fdf f.flags) (is_brs f.flags) (is_esi f.flags)
        (is_rtr f.can_id) in
    let id_lt : tx_id f.can_id < 2 ^ 32 = omega (arith, tx_id-lt f.can_id) in
    (
      encode_tx_frame-sent_message f v,
      λ time tag.
          decode-rx_message time tag _ (tx_flags f) (tx_id f.can_id) (body f) flags_lt id_lt
          ∙ rx_frame_of-kept f v,
    )

-- The transfer of a frame has bytes, and at most 128 of them.
pub length-encode_tx_frame :
    (f : Frame)
    → IsFrame f
    → (0 < length (encode_tx_frame f 128)) × (length (encode_tx_frame f 128) ≤ 128)
length-encode_tx_frame f v =
    let d = tx_data_len (is_fdf f.flags) f.len in
    let (_, top, base) = msg_size_lem d (tx_data_len-le (is_fdf f.flags) f.len) in
    let size : length (sent_message f) ≡ length (encode_tx_frame f 128) =
      sym (ap length (encode_tx_frame-sent_message f v)) in
    (omega (arith, size), omega (arith, size, length-body f v, length-append {0}, top, base))
