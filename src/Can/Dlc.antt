-- ===== src/Can/Dlc.antt =====
-- can_fd_dlc2len and can_fd_len2dlc against one another.
use i_can.Common.{
  ℕ, ◌≤◌, ◌<◌, ◌≡◌, refl, Bool, true, ◌&&◌, ◌||◌, not, leb, ltb, ◌==◌, ==_iff, arith, Bool-cases,
  inl, inr, leb→le, ltb→lt, false,
}
use i_can.Common.Tables.{holds_for, all_below, all_below_sound}
use i_can.Can.{can_fd_dlc2len, can_fd_len2dlc}
use mathlib.Core.Logic.{◌↔◌}

-- Both sides of the connection give one answer at a length and a code.
connected : ℕ → ℕ → Bool
connected len dlc =
    (leb len (can_fd_dlc2len dlc) && leb (can_fd_len2dlc len) dlc)
    || (not (leb len (can_fd_dlc2len dlc)) && not (leb (can_fd_len2dlc len) dlc))

connected_table : all_below 65 (λ len. all_below 16 (connected len)) ≡ true
unfolding holds_for connected can_fd_dlc2len can_fd_len2dlc
connected_table = refl

connected_all : (len dlc : ℕ) → len < 65 → dlc < 16 → connected len dlc ≡ true
connected_all len dlc h k =
    all_below_sound 16 (connected len) dlc
      (all_below_sound 65 (λ l. all_below 16 (connected l)) len connected_table h) k

-- For a length up to 64 and a code up to 15: the code's length holds `len` bytes exactly if
-- the code is not below the one chosen for `len`. So the chosen code is the least that fits.
pub len2dlc_least :
    (len dlc : ℕ) → len ≤ 64 → dlc < 16 → (len ≤ can_fd_dlc2len dlc) ↔ (can_fd_len2dlc len ≤ dlc)
unfolding connected
len2dlc_least len dlc h k = ground (arith, connected_all len dlc (omega arith) k)

len2dlc-dlc2len_table : all_below 16 (λ d. can_fd_len2dlc (can_fd_dlc2len d) == d) ≡ true
unfolding holds_for can_fd_dlc2len can_fd_len2dlc
len2dlc-dlc2len_table = refl

-- A code up to 15 comes back from its length.
pub len2dlc-dlc2len : (dlc : ℕ) → dlc < 16 → can_fd_len2dlc (can_fd_dlc2len dlc) ≡ dlc
len2dlc-dlc2len dlc h = (==_iff _ dlc).0 (all_below_sound 16 _ dlc len2dlc-dlc2len_table h)

dlc2len-le_table : all_below 16 (λ d. leb (can_fd_dlc2len d) 64) ≡ true
unfolding holds_for can_fd_dlc2len
dlc2len-le_table = refl

dlc2len_above : (dlc : ℕ) → ltb dlc 16 ≡ false → can_fd_dlc2len dlc ≡ 64
unfolding can_fd_dlc2len
dlc2len_above dlc h = rw h

pub dlc2len-le : (dlc : ℕ) → can_fd_dlc2len dlc ≤ 64
dlc2len-le dlc = elim (Bool-cases (ltb dlc 16)) [
  | inl h ↦ leb→le _ _ (all_below_sound 16 _ dlc dlc2len-le_table (ltb→lt dlc 16 h))
  | inr h ↦ omega (arith, dlc2len_above dlc h)
]

pub len2dlc-lt : (len : ℕ) → can_fd_len2dlc len < 16
unfolding can_fd_len2dlc
len2dlc-lt len = ground arith
