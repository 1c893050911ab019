-- ===== src/Common/IoReturn.antt =====
-- kern_return_t, the results of calls into the system: those that the code names, and any other.
use Prim.Native.Nat.{ℕ}
use mathlib.Core.Bool.{Bool, true, false}

pub data IoReturn : Type 0 where
  success not_ready busy bad_argument no_memory no_space not_found not_open still_open : IoReturn
  aborted pipe_stalled : IoReturn
  other : ℕ → IoReturn

abbrev pub is_success : IoReturn → Bool
is_success success = true
is_success _ = false

abbrev pub is_busy : IoReturn → Bool
is_busy busy = true
is_busy _ = false
