-- ===== src/Gsusb/RoundTrip.antt =====
-- What encodeTxFrame writes, decodeRxTransfer reads back.
use i_can.Common.{
  ℕ, suc, ◌+◌, ◌-◌, ◌≤◌, ◌<◌, ◌≡◌, refl, ap, ◌∙◌, Bool, true, false, not, List, ◌∷◌, ◌++◌, ltb,
  ◌==◌, if◌then◌else◌, length, length-append, length-take, length-replicate, take, replicate, arith,
  Bool-cases, inl, inr, le→ltb-false,
}
use i_can.Common.Words.{le_bytes, test_bit, u32_mod}
use i_can.Can.{Frame, IsFrame, is_fdf, is_brs, is_esi, can_fd_dlc2len, can_fd_len2dlc}
use i_can.Can.Dlc.{len2dlc_least, len2dlc-lt, dlc2len-le}
use i_can.Can.Layout.{word_of_bytes}
use i_can.Can.Padding.{zeros, body_back}
use i_can.Gsusb.Frames.{
  RxResult, received, tx_echo, encode_tx_frame, decode_rx_transfer, host_frame, host_flags,
  frame_flags, max_dlen, clamp,
}

-- The length that comes back: that of the code for an FD frame, and at most 8 for a classic one.
abbrev pub read_len : Bool → ℕ → ℕ
read_len fd len = if fd then can_fd_dlc2len (can_fd_len2dlc len) else (if ltb 8 len then 8 else len)

-- What a transfer keeps of a frame. Data that the length of an FD frame does not count is zero.
abbrev pub kept_as : Bool → Frame → Frame
kept_as fd f = record {
  can_id = f.can_id;
  len = read_len fd f.len;
  flags =
      if fd then 4 + (if is_brs f.flags then 1 else 0) + (if is_esi f.flags then 2 else 0) else 0;
  res0 = 0;
  res1 = 0;
  payload = take (clamp fd f.len) f.payload ++ replicate (64 - clamp fd f.len) 0;
}

abbrev pub kept : Frame → Frame
kept f = kept_as (is_fdf f.flags) f

flags-fd : (flags : ℕ) → test_bit 2 (host_flags flags) ≡ is_fdf flags
flags-fd flags = elim (Bool-cases (is_fdf flags)) [
  | inr classic ↦ rw classic refl
  | inl fd ↦ elim (Bool-cases (is_brs flags)) [
    | inl b ↦ elim (Bool-cases (is_esi flags)) [
      | inl s ↦ rw (fd, b, s) refl
      | inr s ↦ rw (fd, b, s) refl
    ]
    | inr b ↦ elim (Bool-cases (is_esi flags)) [
      | inl s ↦ rw (fd, b, s) refl
      | inr s ↦ rw (fd, b, s) refl
    ]
  ]
]

-- The flags that come back from those of the transfer.
flags_back :
    (b s : Bool)
    → frame_flags (4 + (if b then 8 else 0) + (if s then 16 else 0))
      ≡ 4 + (if b then 1 else 0) + (if s then 2 else 0)
flags_back true true = refl
flags_back true false = refl
flags_back false true = refl
flags_back false false = refl

-- A transfer by its fields.
abbrev transfer : ℕ → ℕ → ℕ → ℕ → List ℕ → List ℕ
transfer echo_id id dlc flags body =
    le_bytes 4 echo_id ++ (le_bytes 4 id ++ (dlc ∷ 0 ∷ flags ∷ 0 ∷ body))

swapped : (b : Bool) (x y : RxResult) → (if not b then x else y) ≡ (if b then y else x)
swapped true x y = refl
swapped false x y = refl

decode-transfer :
    (fd : Bool) (echo_id id dlc flags : ℕ) (body : List ℕ)
    → echo_id < u32_mod
    → id < u32_mod
    → test_bit 2 flags ≡ fd
    → length body ≡ max_dlen fd
    → decode_rx_transfer (transfer echo_id id dlc flags body)
      ≡ (if echo_id == 0xffffffff then received (host_frame fd id dlc flags body) else tx_echo)
unfolding decode_rx_transfer
decode-transfer true echo_id id dlc flags body e i t l =
    rw
      (
        t,
        le→ltb-false (length (transfer echo_id id dlc flags body)) 20 (omega arith),
        le→ltb-false (length (transfer echo_id id dlc flags body)) 76 (omega arith),
        word_of_bytes echo_id e,
        word_of_bytes id i,
      )
      (swapped (echo_id == 0xffffffff) _ _)
decode-transfer false echo_id id dlc flags body e i t l =
    rw
      (
        t,
        le→ltb-false (length (transfer echo_id id dlc flags body)) 20 (omega arith),
        word_of_bytes echo_id e,
        word_of_bytes id i,
      )
      (swapped (echo_id == 0xffffffff) _ _)

-- The read length counts the data that was written.
read_len_bounds :
    (fd : Bool) (len : ℕ)
    → len ≤ 64
    → (clamp fd len ≤ clamp fd (read_len fd len)) × (clamp fd (read_len fd len) ≤ max_dlen fd)
read_len_bounds true len l =
    let up : len ≤ can_fd_dlc2len (can_fd_len2dlc len) =
      (len2dlc_least len (can_fd_len2dlc len) l (len2dlc-lt len)).1 (omega arith) in
    let top = dlc2len-le (can_fd_len2dlc len) in
    rw (le→ltb-false 64 len l, le→ltb-false 64 (can_fd_dlc2len (can_fd_len2dlc len)) top) (up, top)
read_len_bounds false len l = (ground arith, ground arith)

-- The frame that comes back from the fields of the transfer.
host_frame-kept :
    (fd : Bool) (f : Frame)
    → IsFrame f
    → f.len ≤ 64
    → is_fdf f.flags ≡ fd
    → host_frame fd f.can_id
        (if fd then can_fd_len2dlc f.len else f.len)
        (host_flags f.flags)
        (take (clamp fd f.len) f.payload ++ replicate (max_dlen fd - clamp fd f.len) 0)
      ≡ kept_as fd f
host_frame-kept true f v l t =
    let (a, b) = read_len_bounds true f.len l in
    let fp : frame_flags (host_flags f.flags)
        ≡ 4 + (if is_brs f.flags then 1 else 0) + (if is_esi f.flags then 2 else 0) =
      rw t (flags_back (is_brs f.flags) (is_esi f.flags)) in
    let pp =
      body_back f (clamp true f.len) (clamp true (read_len true f.len)) 64 v a b (omega arith) in
    λ i. record {
      can_id = f.can_id;
      len = read_len true f.len;
      flags = fp i;
      res0 = 0;
      res1 = 0;
      payload = pp i;
    }
host_frame-kept false f v l t =
    let (a, b) = read_len_bounds false f.len l in
    let pp =
      body_back f (clamp false f.len) (clamp false (read_len false f.len)) 8 v a b (omega arith) in
    λ i. record {
      can_id = f.can_id;
      len = read_len false f.len;
      flags = 0;
      res0 = 0;
      res1 = 0;
      payload = pp i;
    }

-- The fields that encodeTxFrame writes.
encode-transfer :
    (f : Frame) (echo_id : ℕ)
    → encode_tx_frame f echo_id 76
      ≡ transfer echo_id f.can_id
          (if is_fdf f.flags then can_fd_len2dlc f.len else f.len)
          (host_flags f.flags)
          (take (clamp (is_fdf f.flags) f.len) f.payload
            ++ replicate (max_dlen (is_fdf f.flags) - clamp (is_fdf f.flags) f.len) 0)
unfolding encode_tx_frame
encode-transfer f echo_id = elim (Bool-cases (is_fdf f.flags)) [
  | inl fd ↦ rw fd refl
  | inr classic ↦ rw classic refl
]

length-body :
    (fd : Bool) (f : Frame)
    → IsFrame f
    → length (take (clamp fd f.len) f.payload ++ replicate (max_dlen fd - clamp fd f.len) 0)
      ≡ max_dlen fd
length-body fd f v = omega (
  arith,
  length-append (take (clamp fd f.len) f.payload) (zeros (max_dlen fd - clamp fd f.len)),
  length-take (clamp fd f.len) f.payload,
  length-replicate {A = ℕ} (max_dlen fd - clamp fd f.len) 0,
  clamp-le fd f.len,
  max_dlen-le fd,
  v.payload_size,
)
  where
    clamp-le : (fd : Bool) (len : ℕ) → clamp fd len ≤ max_dlen fd
    clamp-le true len = ground arith
    clamp-le false len = ground arith

    max_dlen-le : (fd : Bool) → max_dlen fd ≤ 64
    max_dlen-le true = omega arith
    max_dlen-le false = omega arith

-- The transfer of a frame whose echo id is that of received frames decodes to what the transfer
-- keeps of the frame; under any other echo id it is an echo.
pub decode_rx_transfer-encode_tx_frame :
    (f : Frame) (echo_id : ℕ)
    → IsFrame f
    → f.len ≤ 64
    → echo_id < u32_mod
    → decode_rx_transfer (encode_tx_frame f echo_id 76)
      ≡ (if echo_id == 0xffffffff then received (kept f) else tx_echo)
decode_rx_transfer-encode_tx_frame f echo_id v l e =
    ap decode_rx_transfer (encode-transfer f echo_id)
    ∙ decode-transfer (is_fdf f.flags) echo_id f.can_id _ (host_flags f.flags) _ e v.id_fits
        (flags-fd f.flags) (length-body (is_fdf f.flags) f v)
    ∙ ap (λ g. if echo_id == 0xffffffff then received g else tx_echo)
        (host_frame-kept (is_fdf f.flags) f v l refl)

-- A frame in a buffer for an FD transfer is never refused.
pub encode_tx_frame-ne-empty :
    (f : Frame) (echo_id : ℕ) → (length (encode_tx_frame f echo_id 76) == 0) ≡ false
encode_tx_frame-ne-empty f echo_id = rw (encode-transfer f echo_id) (suc-ne-zero _)
  where
    suc-ne-zero : (n : ℕ) → (suc n == 0) ≡ false
    suc-ne-zero n = ground arith
