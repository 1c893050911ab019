-- ===== src/Gsusb/Frames.antt =====
-- The free functions of gsusb_codec.cc: a frame as a transfer, and back.
use i_can.Common.{
  ℕ, ◌+◌, ◌-◌, Bool, not, List, [], ◌∷◌, ◌++◌, ltb, ◌==◌, if◌then◌else◌, length, get_or, take, drop,
  replicate,
}
use i_can.Common.Words.{le_bytes, of_le_bytes, test_bit}
use i_can.Can.{
  Frame, can_max_dlen, canfd_max_dlen, is_fdf, is_brs, is_esi, can_fd_dlc2len, can_fd_len2dlc,
  memcpy,
}
use i_can.Ring.{zero_frame}

-- sizeof(gs_host_frame_header), GS_HOST_FRAME_CLASSIC_SIZE and GS_HOST_FRAME_FD_SIZE
abbrev pub host_header_size : ℕ
host_header_size = 12

abbrev pub host_frame_classic_size : ℕ
host_frame_classic_size = 20

abbrev pub host_frame_fd_size : ℕ
host_frame_fd_size = 76

-- `struct RxResult`
pub data RxResult : Type 0 where
  received : Frame → RxResult
  tx_echo : RxResult
  invalid : RxResult

abbrev pub host_frame_size : Bool → ℕ
host_frame_size fd = if fd then host_frame_fd_size else host_frame_classic_size

-- The largest payload of a frame.
abbrev pub max_dlen : Bool → ℕ
max_dlen fd = if fd then canfd_max_dlen else can_max_dlen

-- `if (len > maxLen) len = maxLen`
abbrev pub clamp : Bool → ℕ → ℕ
clamp fd len = if ltb (max_dlen fd) len then max_dlen fd else len

-- The flags of the header: GS_CAN_FLAG_FD, GS_CAN_FLAG_BRS and GS_CAN_FLAG_ESI.
abbrev pub host_flags : ℕ → ℕ
host_flags flags =
    if is_fdf flags
    then 4 + (if is_brs flags then 8 else 0) + (if is_esi flags then 16 else 0)
    else 0

-- encodeTxFrame: the bytes written, of which there are none where the code returns 0.
unfoldable pub encode_tx_frame : Frame → ℕ → ℕ → List ℕ
encode_tx_frame f echo_id out_size =
    let fd = is_fdf f.flags in
    let dlc = if fd then can_fd_len2dlc f.len else f.len in
    let payload_len = clamp fd f.len in
    if ltb out_size (host_frame_size fd)
    then []
    else le_bytes 4 echo_id
      ++ (le_bytes 4 f.can_id
          ++ (dlc
              ∷ 0
              ∷ host_flags f.flags
              ∷ 0
              ∷ (take payload_len f.payload ++ replicate (max_dlen fd - payload_len) 0)))

-- The flags of the frame that decodeRxTransfer builds for an FD transfer.
abbrev pub frame_flags : ℕ → ℕ
frame_flags flags = 4 + (if test_bit 3 flags then 1 else 0) + (if test_bit 4 flags then 2 else 0)

-- The frame that decodeRxTransfer builds.
abbrev pub host_frame : Bool → ℕ → ℕ → ℕ → List ℕ → Frame
host_frame fd can_id dlc flags payload =
    let len =
      if fd then can_fd_dlc2len dlc else (if ltb can_max_dlen dlc then can_max_dlen else dlc) in
    record zero_frame {
      can_id = can_id;
      len = len;
      flags = if fd then frame_flags flags else 0;
      payload = memcpy (replicate 64 0) payload (clamp fd len);
    }

unfoldable pub decode_rx_transfer : List ℕ → RxResult
decode_rx_transfer bytes =
    let flags = get_or bytes 10 0 in
    let fd = test_bit 2 flags in
    if ltb (length bytes) host_frame_classic_size
    then invalid
    else if ltb (length bytes) (host_frame_size fd)
    then invalid
    else if not (of_le_bytes (take 4 bytes) == 0xffffffff)
    then tx_echo
    else received (
        host_frame fd (of_le_bytes (take 4 (drop 4 bytes))) (get_or bytes 8 0) flags
          (drop host_header_size bytes))
