-- ===== src/Can/Padding.antt =====
-- Data bytes that a transfer pads with zeros, copied into a frame of zeros.
use i_can.Common.{
  ℕ, zero, suc, ◌+◌, ◌-◌, ◌≤◌, ◌≡◌, refl, ap, ◌∙◌, List, [], ◌∷◌, ◌++◌, length, length-take, take,
  drop, replicate, arith,
}
use i_can.Can.{Frame, IsFrame}

abbrev pub zeros : ℕ → List ℕ
zeros n = replicate n 0

copy_zeros : (m k n : ℕ) → k ≤ m → k ≤ n → take k (zeros m) ++ drop k (zeros n) ≡ zeros n
copy_zeros m zero n a b = refl
copy_zeros zero (suc k) n a b = absurd (omega arith)
copy_zeros (suc m) (suc k) zero a b = absurd (omega arith)
copy_zeros (suc m) (suc k) (suc n) a b =
    ap (λ l. 0 ∷ l) (copy_zeros m k n (omega arith) (omega arith))

-- A copy of padded bytes into zeros is the bytes, padded.
copy_padded :
    (xs : List ℕ) (m k n : ℕ)
    → length xs ≤ k
    → k ≤ length xs + m
    → k ≤ n
    → take k (xs ++ zeros m) ++ drop k (zeros n) ≡ xs ++ zeros (n - length xs)
copy_padded [] m k n a b c =
    let e : n ≡ n - 0 = omega arith in copy_zeros m k n (omega arith) c ∙ ap zeros e
copy_padded (x ∷ xs) m zero n a b c = absurd (omega arith)
copy_padded (x ∷ xs) m (suc k) zero a b c = absurd (omega arith)
copy_padded (x ∷ xs) m (suc k) (suc n) a b c =
    let e : n - length xs ≡ suc n - suc (length xs) = omega arith in
    ap (λ l. x ∷ l)
      (copy_padded xs m k n (omega arith) (omega arith) (omega arith) ∙ ap (λ d. xs ++ zeros d) e)

-- So the data bytes of a frame come back from a padded copy of them.
pub body_back :
    (f : Frame) (c k m : ℕ)
    → IsFrame f
    → c ≤ k
    → k ≤ m
    → m ≤ 64
    → take k (take c f.payload ++ zeros (m - c)) ++ drop k (zeros 64)
      ≡ take c f.payload ++ zeros (64 - c)
body_back f c k m v a b d =
    let n : length (take c f.payload) ≡ c =
      omega (arith, length-take c f.payload, v.payload_size) in
    copy_padded (take c f.payload) (m - c) k 64 (omega arith) (omega arith) (omega arith)
    ∙ ap (λ x. take c f.payload ++ zeros (64 - x)) n
