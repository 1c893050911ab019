-- ===== src/Can.antt =====
-- protocol/can.h: the frame structures as they lie in memory, and the DLC tables of CAN FD.
pub mod Dlc
pub mod Layout
pub mod Padding
mod Tests
use i_can.Common.{
  ℕ, zero, suc, ◌+◌, ◌*◌, ◌≤◌, ◌<◌, ◌≡◌, Bool, List, [], ◌∷◌, ◌++◌, leb, ltb, if◌then◌else◌, length,
  get_or, take, drop, All,
}
use i_can.Common.Words.{IsByte, u32_mod, u64_mod, le_bytes, of_le_bytes, test_bit}

-- CAN_MAX_DLEN and CANFD_MAX_DLEN
abbrev pub can_max_dlen : ℕ
can_max_dlen = 8

abbrev pub canfd_max_dlen : ℕ
canfd_max_dlen = 64

-- CAN_MTU and CANFD_MTU, the sizes of the two structures
abbrev pub can_mtu : ℕ
can_mtu = 16

abbrev pub canfd_mtu : ℕ
canfd_mtu = 72

-- `struct canfd_frame`; `res0` carries the channel number (CAN_CHANNEL), `payload` is `data[64]`.
pub record Frame : Type 0 where
  pub can_id : ℕ
  pub len : ℕ
  pub flags : ℕ
  pub res0 : ℕ
  pub res1 : ℕ
  pub payload : List ℕ

-- What the C types say of a `canfd_frame`.
pub record IsFrame (f : Frame) : Type 0 where
  pub id_fits : f.can_id < u32_mod
  pub len_fits : f.len < 256
  pub flags_fit : f.flags < 256
  pub res0_fits : f.res0 < 256
  pub res1_fits : f.res1 < 256
  pub payload_size : length f.payload ≡ 64
  pub payload_bytes : All IsByte f.payload

-- The bits of `can_id`: CAN_EFF_FLAG 0x80000000 and CAN_RTR_FLAG 0x40000000.
abbrev pub is_eff : ℕ → Bool
is_eff = test_bit 31

abbrev pub is_rtr : ℕ → Bool
is_rtr = test_bit 30

-- The bits of `flags`: CANFD_BRS 0x01, CANFD_ESI 0x02 and CANFD_FDF 0x04.
abbrev pub is_brs : ℕ → Bool
is_brs = test_bit 0

abbrev pub is_esi : ℕ → Bool
is_esi = test_bit 1

abbrev pub is_fdf : ℕ → Bool
is_fdf = test_bit 2

-- The static table of `can_fd_dlc2len`.
abbrev dlc2len_table : List ℕ
dlc2len_table = 0 ∷ 1 ∷ 2 ∷ 3 ∷ 4 ∷ 5 ∷ 6 ∷ 7 ∷ 8 ∷ 12 ∷ 16 ∷ 20 ∷ 24 ∷ 32 ∷ 48 ∷ 64 ∷ []

unfoldable pub can_fd_dlc2len : ℕ → ℕ
can_fd_dlc2len dlc = if ltb dlc 16 then get_or dlc2len_table dlc 64 else 64

unfoldable pub can_fd_len2dlc : ℕ → ℕ
can_fd_len2dlc len =
    if leb len 8
    then len
    else if leb len 12
    then 9
    else if leb len 16
    then 10
    else if leb len 20
    then 11
    else if leb len 24
    then 12
    else if leb len 32
    then 13
    else if leb len 48
    then 14
    else 15

-- The 72 bytes of a `canfd_frame` in memory, on a little-endian machine.
abbrev pub frame_bytes : Frame → List ℕ
frame_bytes f = le_bytes 4 f.can_id ++ (f.len ∷ f.flags ∷ f.res0 ∷ f.res1 ∷ f.payload)

-- The `canfd_frame` that lies at these bytes.
abbrev pub frame_of_bytes : List ℕ → Frame
frame_of_bytes b = record {
  can_id = of_le_bytes (take 4 b);
  len = get_or b 4 0;
  flags = get_or b 5 0;
  res0 = get_or b 6 0;
  res1 = get_or b 7 0;
  payload = drop 8 b;
}

-- memcpy of the first `n` bytes of `src` over the first `n` bytes of `dst`
abbrev pub memcpy : List ℕ → List ℕ → ℕ → List ℕ
memcpy dst src n = take n src ++ drop n dst

-- `struct CANPacket`
pub record Packet : Type 0 where
  pub timestamp_us : ℕ
  pub frame : Frame

pub record IsPacket (p : Packet) : Type 0 where
  pub time_fits : p.timestamp_us < u64_mod
  pub frame_ok : IsFrame p.frame
