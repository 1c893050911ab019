-- ===== src/Can/Layout.antt =====
-- A frame comes back from its bytes.
use i_can.Common.{ℕ, ◌<◌, ◌≡◌, length, arith}
use i_can.Common.Words.{u32_mod, le_bytes, of_le_bytes}
use i_can.Can.{Frame, IsFrame, frame_bytes, frame_of_bytes}

pub word_of_bytes : (v : ℕ) → v < u32_mod → of_le_bytes (le_bytes 4 v) ≡ v
word_of_bytes v h = omega arith

-- The 72 bytes of a frame read back as that frame.
pub frame_of_bytes-frame_bytes : (f : Frame) → IsFrame f → frame_of_bytes (frame_bytes f) ≡ f
frame_of_bytes-frame_bytes f v = ground (arith, word_of_bytes f.can_id)

pub length-frame_bytes : (f : Frame) → IsFrame f → length (frame_bytes f) ≡ 72
length-frame_bytes f v = omega arith
