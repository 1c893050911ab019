-- ===== src/Ring/Bytes.antt =====
-- The bytes of one ring: what is written past the end of the stored bytes is appended to them,
-- across the end of the array and across the wrap of the 32-bit positions.
use i_can.Common.{
  ℕ, zero, suc, ◌+◌, ◌-◌, ◌*◌, ◌/◌, ◌%◌, ◌≤◌, ◌<◌, ◌≡◌, ◌≢◌, refl, sym, ap, ap₂, ◌∙◌, List, [], ◌∷◌,
  ◌++◌, length, arith, ◌⊎◌,
}
use i_can.Common.Words.{u32_mod}
use i_can.Ring.Memory.{Memory, store, ring_index, write_at, read_at}
use native.Mathlib.Nat.{
  mod-add-mod, mod-eq_of_lt, mod-eq-sub-mod, add-mul-mod_self_left, mod-lt, mul_assoc,
}
use native.Mathlib.Decide.{dec_lt}

-- Positions less than `cap` apart are different modulo `cap`.
add-mod-ne : (cap x d : ℕ) → 0 < d → d < cap → (x + d) % cap ≢ x % cap
add-mod-ne cap x d hd hc = elim (dec_lt (x % cap + d) cap) [
  | yes p ↦ omega (arith, mod-add-mod x cap d, mod-eq_of_lt p)
  | no p ↦ omega (
    arith,
    mod-add-mod x cap d,
    mod-eq-sub-mod {n = x % cap + d} {m = cap} (omega arith),
    mod-eq_of_lt {n = x % cap + d - cap} {m = cap} (omega arith),
  )
]

-- A capacity that divides 2 ^ 32 does not see the wrap of the positions.
wrap-mod : (cap k x : ℕ) → cap * k ≡ u32_mod → x % u32_mod % cap ≡ x % cap
wrap-mod cap k x e =
    sym (add-mul-mod_self_left (x % u32_mod) cap (k * (x / u32_mod))) ∙ ap (λ t. t % cap) whole
  where
    whole : x % u32_mod + cap * (k * (x / u32_mod)) ≡ x
    whole = rw (← mul_assoc, e) (omega arith)

head_of : {a b : ℕ} {xs ys : List ℕ} → a ∷ xs ≡ b ∷ ys → a ≡ b
head_of e = cc

-- The capacity divides 2 ^ 32, as both capacities of shared_ring.h do.
module _ (base cap k : ℕ) (divides : cap * k ≡ u32_mod) where
  index-ne :
      (pos i j : ℕ) → i < j → j < i + cap → ring_index base cap pos i ≢ ring_index base cap pos j
  index-ne pos i j h l e = add-mod-ne cap (pos + i) (j - i) (omega arith) (omega arith) (
      ap (λ t. t % cap) (omega arith)
      ∙ sym (wrap-mod cap k (pos + j) divides)
      ∙ omega (arith, e)
      ∙ wrap-mod cap k (pos + i) divides)

  store_ne : (m : Memory) (i v j : ℕ) → j ≢ i → store m i v j ≡ m j
  unfolding store
  store_ne m i v j h = ground arith

  -- A store behind the bytes that are read, and not a whole round further, does not change them.
  read_at-store :
      (m : Memory) (pos off n q v : ℕ)
      → off + n ≤ q
      → q < off + cap
      → read_at base cap (store m (ring_index base cap pos q) v) pos off n
        ≡ read_at base cap m pos off n
  unfolding read_at
  read_at-store m pos off zero q v h l = refl
  read_at-store m pos off (suc n) q v h l =
      ap₂ ◌∷◌ (store_ne m _ v _ (index-ne pos off q (omega arith) l))
        (read_at-store m pos (off + 1) n q v (omega arith) (omega arith))

  read_at-write_at :
      (bs : List ℕ) (m : Memory) (pos off n q : ℕ)
      → off + n ≤ q
      → q + length bs ≤ off + cap
      → read_at base cap (write_at base cap pos q bs m) pos off n ≡ read_at base cap m pos off n
  unfolding write_at
  read_at-write_at [] m pos off n q h l = refl
  read_at-write_at (b ∷ bs) m pos off n q h l =
      read_at-write_at bs _ pos off n (q + 1) (omega arith) (omega arith)
      ∙ read_at-store m pos off n q b h (omega arith)

  store_self : (m : Memory) (i v : ℕ) → store m i v i ≡ v
  unfolding store
  store_self m i v = ground arith

  -- Bytes that fit the ring read back.
  read_at-write_at_self :
      (bs : List ℕ) (m : Memory) (pos q : ℕ)
      → length bs ≤ cap
      → read_at base cap (write_at base cap pos q bs m) pos q (length bs) ≡ bs
  unfolding write_at read_at
  read_at-write_at_self [] m pos q h = refl
  read_at-write_at_self (b ∷ bs) m pos q h =
      ap₂ ◌∷◌
        (head_of (
            read_at-write_at bs (store m (ring_index base cap pos q) b) pos q 1 (q + 1)
              (omega arith) (omega arith))
          ∙ store_self m _ b)
        (read_at-write_at_self bs _ pos (q + 1) (omega arith))

module _ (base cap : ℕ) where
  pub read_at-append :
      (m : Memory) (pos off a b : ℕ)
      → read_at base cap m pos off (a + b)
        ≡ read_at base cap m pos off a ++ read_at base cap m pos (off + a) b
  unfolding read_at
  read_at-append m pos off zero b =
      ap₂ (λ o n. read_at base cap m pos o n) (omega arith) (omega arith)
  read_at-append m pos off (suc a) b =
      ap (read_at base cap m pos off) (add_suc a b)
      ∙ ap (λ t. m (ring_index base cap pos off) ∷ t)
          (read_at-append m pos (off + 1) a b
            ∙ ap (λ o. read_at base cap m pos (off + 1) a ++ read_at base cap m pos o b)
                (omega arith))
    where
      add_suc : (x y : ℕ) → suc x + y ≡ suc (x + y)
      add_suc x y = omega arith

  pub length-read_at : (m : Memory) (pos off n : ℕ) → length (read_at base cap m pos off n) ≡ n
  unfolding read_at
  length-read_at m pos off zero = refl
  length-read_at m pos off (suc n) = ap suc (length-read_at m pos (off + 1) n)

  index-shift :
      (pos k off : ℕ)
      → ring_index base cap ((pos + k) % u32_mod) off ≡ ring_index base cap pos (k + off)
  index-shift pos k off = ap (λ t. base + t % cap) (omega arith)

  -- Positions may be counted from any place of the ring.
  pub read_at-shift :
      (m : Memory) (pos k off n : ℕ)
      → read_at base cap m ((pos + k) % u32_mod) off n ≡ read_at base cap m pos (k + off) n
  unfolding read_at
  read_at-shift m pos k off zero = refl
  read_at-shift m pos k off (suc n) =
      ap₂ ◌∷◌ (ap m (index-shift pos k off))
        (read_at-shift m pos k (off + 1) n ∙ ap (λ o. read_at base cap m pos o n) (omega arith))

  write_at-shift :
      (bs : List ℕ) (m : Memory) (pos k off : ℕ)
      → write_at base cap ((pos + k) % u32_mod) off bs m ≡ write_at base cap pos (k + off) bs m
  unfolding write_at
  write_at-shift [] m pos k off = refl
  write_at-shift (b ∷ bs) m pos k off =
      write_at-shift bs _ pos k (off + 1)
      ∙ ap₂ (λ o i. write_at base cap pos o bs (store m i b)) (omega arith) (index-shift pos k off)

  pub write_at-append :
      (xs ys : List ℕ) (m : Memory) (pos off : ℕ)
      → write_at base cap pos off (xs ++ ys) m
        ≡ write_at base cap pos (off + length xs) ys (write_at base cap pos off xs m)
  unfolding write_at
  write_at-append [] ys m pos off = ap (λ o. write_at base cap pos o ys m) (omega arith)
  write_at-append (x ∷ xs) ys m pos off =
      write_at-append xs ys _ pos (off + 1)
      ∙ ap
          (λ o.
            write_at base cap pos o ys
              (write_at base cap pos (off + 1) xs (store m (ring_index base cap pos off) x)))
          (omega arith)

  store_other : (m : Memory) (i v j : ℕ) → j ≢ i → store m i v j ≡ m j
  unfolding store
  store_other m i v j h = ground arith

  -- A write to the ring changes no byte outside of the ring's part of the array.
  pub write_at-outside :
      (bs : List ℕ) (m : Memory) (pos off j : ℕ)
      → 0 < cap
      → (j < base) ⊎ (base + cap ≤ j)
      → write_at base cap pos off bs m j ≡ m j
  unfolding write_at
  write_at-outside [] m pos off j h o = refl
  write_at-outside (b ∷ bs) m pos off j h o =
      write_at-outside bs _ pos (off + 1) j h o
      ∙ store_other m _ b j (omega (arith, mod-lt ((pos + off) % u32_mod) h))

  -- So the bytes of a ring that lies elsewhere are as before.
  pub read_at-outside :
      (base' cap' : ℕ) (bs : List ℕ) (m : Memory) (pos off pos' off' n : ℕ)
      → 0 < cap
      → 0 < cap'
      → (base' + cap' ≤ base) ⊎ (base + cap ≤ base')
      → read_at base' cap' (write_at base cap pos off bs m) pos' off' n
        ≡ read_at base' cap' m pos' off' n
  unfolding read_at
  read_at-outside base' cap' bs m pos off pos' off' zero h h' o = refl
  read_at-outside base' cap' bs m pos off pos' off' (suc n) h h' o =
      ap₂ ◌∷◌
        (write_at-outside bs m pos off _ h (omega (arith, mod-lt ((pos' + off') % u32_mod) h')))
        (read_at-outside base' cap' bs m pos off pos' (off' + 1) n h h' o)

module _ (base cap k : ℕ) (divides : cap * k ≡ u32_mod) where
  -- What is written at the head is appended to the bytes from the tail on.
  pub write_extends :
      (bs : List ℕ) (m : Memory) (tail used : ℕ)
      → used + length bs ≤ cap
      → read_at base cap
          (write_at base cap ((tail + used) % u32_mod) 0 bs m)
          tail
          0
          (used + length bs)
        ≡ read_at base cap m tail 0 used ++ bs
  write_extends bs m tail used fits =
      ap (λ w. read_at base cap w tail 0 (used + length bs))
        (write_at-shift base cap bs m tail used 0)
      ∙ ap (λ o. read_at base cap (write_at base cap tail o bs m) tail 0 (used + length bs))
          (omega arith)
      ∙ read_at-append base cap _ tail 0 used (length bs)
      ∙ ap₂ ◌++◌
          (read_at-write_at base cap k divides bs m tail 0 used used (omega arith) (omega arith))
          (ap (λ o. read_at base cap (write_at base cap tail used bs m) tail o (length bs))
              (omega arith)
            ∙ read_at-write_at_self base cap k divides bs m tail used (omega arith))
