-- ===== src/Driver/Answers.antt =====
-- What DrainTxRing returns for the answers to its two transfers.
use i_can.Common.{◌≡◌, ◌≢◌, ◌⊎◌, inl, inr, refl, ap, Bool, true, false, not, ◌&&◌}
use i_can.Common.IoReturn.{
  IoReturn, success, busy, other, not_ready, bad_argument, no_memory, no_space, not_found, not_open,
  still_open, aborted, pipe_stalled, is_success, is_busy,
}
use i_can.Driver.Drains.{dual_result}

-- What the caller is told of the answers to the two transfers: a failure of the first, else one of
-- the second, else success. An answer that the pipe is busy is no failure.
abbrev pub IsFailure : IoReturn → Type 0
IsFailure r = (r ≢ success) × (r ≢ busy)

abbrev pub IsHarmless : IoReturn → Type 0
IsHarmless r = (r ≡ success) ⊎ (r ≡ busy)

abbrev pub Tells : IoReturn → IoReturn → IoReturn → Type 0
Tells ret0 ret1 ret =
    (IsFailure ret0 × (ret ≡ ret0))
    ⊎ (IsHarmless ret0 × ((IsFailure ret1 × (ret ≡ ret1)) ⊎ (IsHarmless ret1 × (ret ≡ success))))

abbrev is_failure : IoReturn → Bool
is_failure r = not (is_success r) && not (is_busy r)

fails : (r : IoReturn) → is_success r ≡ false → is_busy r ≡ false → IsFailure r
fails r s b = (
  λ e. absurd (let t : is_success r ≡ true = ap is_success e in cc),
  λ e. absurd (let t : is_busy r ≡ true = ap is_busy e in cc),
)

-- The test of the code, on each kind of answer.
answer_cases :
    (r : IoReturn) → (IsFailure r × (is_failure r ≡ true)) ⊎ (IsHarmless r × (is_failure r ≡ false))
answer_cases success = inr (inl refl, refl)
answer_cases busy = inr (inr refl, refl)
answer_cases not_ready = inl (fails not_ready refl refl, refl)
answer_cases bad_argument = inl (fails bad_argument refl refl, refl)
answer_cases no_memory = inl (fails no_memory refl refl, refl)
answer_cases no_space = inl (fails no_space refl refl, refl)
answer_cases not_found = inl (fails not_found refl refl, refl)
answer_cases not_open = inl (fails not_open refl refl, refl)
answer_cases still_open = inl (fails still_open refl refl, refl)
answer_cases aborted = inl (fails aborted refl refl, refl)
answer_cases pipe_stalled = inl (fails pipe_stalled refl refl, refl)
answer_cases (other n) = inl (fails (other n) refl refl, refl)

pub dual_result-Tells : (ret0 ret1 : IoReturn) → Tells ret0 ret1 (dual_result ret0 ret1)
dual_result-Tells ret0 ret1 = elim (answer_cases ret0) [
  | inl (f, e) ↦ rw e (inl (f, refl))
  | inr (h, e) ↦ rw e (
      inr (
        h,
        elim (answer_cases ret1) [
          | inl (f, g) ↦ rw g (inl (f, refl))
          | inr (k, g) ↦ rw g (inr (k, refl))
        ],
      ))
]
