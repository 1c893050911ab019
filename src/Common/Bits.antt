-- ===== src/Common/Bits.antt =====
-- The bits of a word: what set_bit does to them, and how many are set.
use i_can.Common.{
  ℕ, zero, suc, ◌+◌, ◌*◌, ◌/◌, ◌%◌, ◌^◌, ◌<◌, ◌≤◌, ◌≡◌, ◌≢◌, refl, sym, ap, ap₂, ◌∙◌, Bool, true,
  ◌==◌, if◌then◌else◌, arith, Bool-cases, inl, inr,
}
use i_can.Common.Words.{test_bit, set_bit}
use native.Mathlib.Nat.{div-div-eq-div-mul}

-- The number of bits set among the lowest `n`.
unfoldable pub popcount : ℕ → ℕ → ℕ
popcount zero x = 0
popcount (suc n) x = x % 2 + popcount n (x / 2)

-- How many of the `n` numbers from `s` on satisfy `p`.
unfoldable pub count_from : (ℕ → Bool) → ℕ → ℕ → ℕ
count_from p s zero = 0
count_from p s (suc n) = (if p s then 1 else 0) + count_from p (s + 1) n

pow_suc : (k : ℕ) → 2 ^ suc k ≡ 2 * 2 ^ k
pow_suc k = omega arith

test_bit-suc : (k x : ℕ) → test_bit (suc k) x ≡ test_bit k (x / 2)
test_bit-suc k x =
    ap (λ q. q % 2 == 1) (ap (λ d. x / d) (pow_suc k) ∙ sym (div-div-eq-div-mul x 2 (2 ^ k)))

set_bit-suc : (k x : ℕ) → set_bit (suc k) x ≡ 2 * set_bit k (x / 2) + x % 2
set_bit-suc k x = elim (Bool-cases (test_bit k (x / 2))) [
  | inl e ↦ rw (test_bit-suc k x, e) (omega arith)
  | inr e ↦ rw (test_bit-suc k x, e) (omega (arith, pow_suc k))
]

half : (k x : ℕ) → set_bit (suc k) x / 2 ≡ set_bit k (x / 2)
half k x = ap (λ n. n / 2) (set_bit-suc k x) ∙ omega arith

pub test_bit-set_bit : (k x : ℕ) → test_bit k (set_bit k x) ≡ true
test_bit-set_bit zero x = ground arith
test_bit-set_bit (suc k) x =
    test_bit-suc k (set_bit (suc k) x) ∙ ap (test_bit k) (half k x) ∙ test_bit-set_bit k (x / 2)

pub test_bit-set_bit_other : (i k x : ℕ) → i ≢ k → test_bit i (set_bit k x) ≡ test_bit i x
test_bit-set_bit_other zero zero x h = absurd (h refl)
test_bit-set_bit_other zero (suc k) x h = ap (test_bit 0) (set_bit-suc k x) ∙ ground arith
test_bit-set_bit_other (suc i) zero x h =
    test_bit-suc i (set_bit 0 x) ∙ ap (test_bit i) (ground arith) ∙ sym (test_bit-suc i x)
test_bit-set_bit_other (suc i) (suc k) x h =
    test_bit-suc i (set_bit (suc k) x)
    ∙ ap (test_bit i) (half k x)
    ∙ test_bit-set_bit_other i k (x / 2) (λ e. h (ap suc e))
    ∙ sym (test_bit-suc i x)

-- A word whose bits are those of `p` from `s` on has as many bits set.
pub popcount_lem :
    (n : ℕ) (x : ℕ) (p : ℕ → Bool) (s : ℕ)
    → ((i : ℕ) → i < n → test_bit i x ≡ p (s + i))
    → popcount n x ≡ count_from p s n
unfolding popcount count_from
popcount_lem zero x p s h = refl
popcount_lem (suc n) x p s h =
    ap₂ (λ a b. a + b) (low ∙ ap (λ b. if b then 1 else 0) (h 0 (omega arith) ∙ ap p (omega arith)))
      (popcount_lem n (x / 2) p (s + 1)
        (λ i l. sym (test_bit-suc i x) ∙ h (suc i) (omega arith) ∙ ap p (omega arith)))
  where
    low : x % 2 ≡ (if test_bit 0 x then 1 else 0)
    low = ground arith

pub count_from-append :
    (p : ℕ → Bool) (s n m : ℕ) → count_from p s (n + m) ≡ count_from p s n + count_from p (s + n) m
unfolding count_from
count_from-append p s zero m =
    let a : 0 + m ≡ m = omega arith in let b : s + 0 ≡ s = omega arith in rw (a, b) (omega arith)
count_from-append p s (suc n) m =
    let e : suc n + m ≡ suc (n + m) = omega arith in
    let f : s + 1 + n ≡ s + suc n = omega arith in
    ap (count_from p s) e
    ∙ ap (λ k. (if p s then 1 else 0) + k)
        (count_from-append p (s + 1) n m ∙ ap (λ k. count_from p (s + 1) n + count_from p k m) f)
    ∙ omega arith

pub count_from_ext :
    (n : ℕ) (p q : ℕ → Bool) (s : ℕ)
    → ((i : ℕ) → i < s + n → p i ≡ q i)
    → count_from p s n ≡ count_from q s n
unfolding count_from
count_from_ext zero p q s h = refl
count_from_ext (suc n) p q s h =
    ap₂ (λ b c. (if b then 1 else 0) + c) (h s (omega arith))
      (count_from_ext n p q (s + 1) (λ i l. h i (omega arith)))

pub count_from-le : (p : ℕ → Bool) (s n : ℕ) → count_from p s n ≤ n
unfolding count_from
count_from-le p s zero = omega arith
count_from-le p s (suc n) = elim (Bool-cases (p s)) [
  | inl e ↦ rw e (omega (arith, count_from-le p (s + 1) n))
  | inr e ↦ rw e (omega (arith, count_from-le p (s + 1) n))
]
