-- ===== src/Common/Tables.antt =====
-- Facts over a small range, checked at every value by evaluation.
use Prim.Native.Nat.{ℕ, zero, suc, ◌+◌, ◌<◌}
use mathlib.Core.Path.{◌≡◌, ap, ◌∙◌}
use mathlib.Core.Logic.{inl, inr}
use mathlib.Core.Bool.{Bool, true, false}
use native.Mathlib.Omega.{arith}
use i_can.Common.Tests.{if◌then◌else◌, Bool-cases}

-- Whether a test holds at the numbers from `from` on, of which there are `count`.
unfoldable pub holds_for : (ℕ → Bool) → ℕ → ℕ → Bool
holds_for test from zero = true
holds_for test from (suc count) =
    let rest = holds_for test (suc from) count in if test from then rest else false

holds_for-head :
    (test : ℕ → Bool) (from count : ℕ)
    → holds_for test from (suc count) ≡ true
    → (test from ≡ true) × (holds_for test (suc from) count ≡ true)
unfolding holds_for
holds_for-head test from count e = elim (Bool-cases (test from)) [
  | inl here ↦ ground (arith, e, here)
  | inr fails ↦ ground (arith, e, fails)
]

holds_for_at :
    (test : ℕ → Bool) (from count k : ℕ)
    → k < count
    → holds_for test from count ≡ true
    → test (from + k) ≡ true
holds_for_at test from zero k l e = absurd (omega arith)
holds_for_at test from (suc count) zero l e =
    let here : from + 0 ≡ from = omega arith in ap test here ∙ (holds_for-head test from count e).0
holds_for_at test from (suc count) (suc k) l e =
    let next : from + suc k ≡ suc from + k = omega arith in
    ap test next
    ∙ holds_for_at test (suc from) count k (omega arith) (holds_for-head test from count e).1

abbrev pub all_below : ℕ → (ℕ → Bool) → Bool
all_below n test = holds_for test 0 n

pub all_below_sound :
    (n : ℕ) (test : ℕ → Bool) (k : ℕ) → all_below n test ≡ true → k < n → test k ≡ true
all_below_sound n test k e l =
    let same : k ≡ 0 + k = omega arith in ap test same ∙ holds_for_at test 0 n k l e
