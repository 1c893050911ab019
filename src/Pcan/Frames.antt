-- ===== src/Pcan/Frames.antt =====
-- A frame as a TX message, and an RX message as a frame. All fields are little-endian.
use i_can.Common.{
  ℕ, ◌+◌, ◌-◌, ◌*◌, ◌/◌, ◌%◌, ◌^◌, Bool, List, [], ◌∷◌, ◌++◌, ltb, if◌then◌else◌, get_or, take,
  drop, replicate,
}
use i_can.Common.Words.{le_bytes, of_le_bytes, test_bit, set_bit}
use i_can.Can.{
  Frame, can_max_dlen, canfd_max_dlen, is_eff, is_rtr, is_fdf, is_brs, is_esi, can_fd_dlc2len,
  can_fd_len2dlc, memcpy,
}
use i_can.Ring.{zero_frame}

-- TX_ECHO_TAG, the mark in the messages that go out.
abbrev pub tx_echo_tag : ℕ
tx_echo_tag = 0x0ca7f00d

-- MSG_CAN_TX
abbrev pub msg_can_tx : ℕ
msg_can_tx = 0x1000

-- sizeof(pucan_tx_msg) and sizeof(pucan_rx_msg)
abbrev pub tx_header_size : ℕ
tx_header_size = 20

abbrev pub rx_header_size : ℕ
rx_header_size = 28

-- `dataLen`, at most what a frame of the format holds.
abbrev pub tx_data_len : Bool → ℕ → ℕ
tx_data_len fd len =
    if fd
    then (if ltb canfd_max_dlen len then canfd_max_dlen else len)
    else (if ltb can_max_dlen len then can_max_dlen else len)

-- `(headerSize + dataLen + 3) & ~3`
abbrev pub tx_msg_size : ℕ → ℕ
tx_msg_size data_len = (tx_header_size + data_len + 3) / 4 * 4

-- The flags of a TX message: FLAG_EXT_ID, and FLAG_EXT_DATA_LEN, FLAG_BRS and FLAG_ESI, or FLAG_RTR.
abbrev pub tx_flags : Frame → ℕ
tx_flags f =
    (if is_eff f.can_id then 2 else 0)
    + (if is_fdf f.flags
        then 16 + (if is_brs f.flags then 32 else 0) + (if is_esi f.flags then 64 else 0)
        else (if is_rtr f.can_id then 1 else 0))

-- `frame.can_id & idMask`
abbrev pub tx_id : ℕ → ℕ
tx_id can_id = if is_eff can_id then can_id % 2 ^ 29 else can_id % 2 ^ 11

-- `(channel & 0x0F) | (dlc << 4)`, as a byte
abbrev pub tx_channel_dlc : ℕ → ℕ → ℕ
tx_channel_dlc channel dlc = channel % 16 + dlc * 16 % 256

-- Codec::encodeTxFrame: the bytes written, of which there are none where the code returns 0.
unfoldable pub encode_tx_frame : Frame → ℕ → List ℕ
encode_tx_frame f out_size =
    let fd = is_fdf f.flags in
    let data_len = tx_data_len fd f.len in
    let dlc = if fd then can_fd_len2dlc data_len else data_len in
    let total_size = tx_msg_size data_len + 4 in
    if ltb out_size total_size
    then []
    else le_bytes 2 (tx_msg_size data_len)
      ++ (le_bytes 2 msg_can_tx
          ++ (le_bytes 4 tx_echo_tag
              ++ (le_bytes 4 0
                  ++ (tx_channel_dlc f.res0 dlc
                      ∷ 0
                      ∷ (le_bytes 2 (tx_flags f)
                          ++ (le_bytes 4 (tx_id f.can_id)
                              ++ (take data_len f.payload
                                  ++ replicate (total_size - tx_header_size - data_len) 0)))))))

-- The id of a received frame, with its flag bits.
abbrev pub rx_id : ℕ → ℕ → ℕ
rx_id can_id flags =
    let id = if test_bit 1 flags then set_bit 31 can_id else can_id in
    if test_bit 0 flags then set_bit 30 id else id

-- The length of a received frame.
abbrev pub rx_len : Bool → ℕ → ℕ
rx_len fd dlc =
    if fd then can_fd_dlc2len dlc else (if ltb can_max_dlen dlc then can_max_dlen else dlc)

-- `copyLen`, of a message of `size` bytes
abbrev pub rx_copy_len : ℕ → ℕ → ℕ
rx_copy_len len size =
    let avail = size - rx_header_size in
    let fitted = if ltb avail len then avail % 256 else len in
    if ltb canfd_max_dlen fitted then canfd_max_dlen else fitted

-- The frame that decodeRxFrame builds of the fields of a message of `size` bytes, with the bytes
-- behind its header.
unfoldable pub rx_frame_of : ℕ → ℕ → ℕ → List ℕ → ℕ → Frame
rx_frame_of channel_dlc flags can_id payload size =
    let fd = test_bit 4 flags in
    let len = rx_len fd (channel_dlc / 16) in
    record zero_frame {
      can_id = rx_id can_id flags;
      len = len;
      flags =
          if fd
          then 4 + (if test_bit 5 flags then 1 else 0) + (if test_bit 6 flags then 2 else 0)
          else 0;
      res0 = channel_dlc % 16;
      payload =
          if test_bit 0 flags
          then replicate 64 0
          else memcpy (replicate 64 0) payload (rx_copy_len len size);
    }

-- Codec::decodeRxFrame on the bytes from the message on, of which `size` are its own.
unfoldable pub decode_rx_frame : List ℕ → ℕ → Frame
decode_rx_frame bytes size =
    rx_frame_of (get_or bytes 20 0) (of_le_bytes (take 2 (drop 22 bytes)))
      (of_le_bytes (take 4 (drop 24 bytes))) (drop rx_header_size bytes) size
