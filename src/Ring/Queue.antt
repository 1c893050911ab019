-- ===== src/Ring/Queue.antt =====
-- A ring as a queue of bytes: what the positions and the array of a ring stand for.
use i_can.Common.{
  ℕ, ◌+◌, ◌-◌, ◌*◌, ◌≤◌, ◌<◌, ◌≡◌, refl, sym, ap, ap₂, ◌∙◌, List, ◌++◌, length, length-append,
  arith, take, drop, take-append, drop-append,
}
use i_can.Common.Words.{u32_mod, add32, sub32}
use i_can.Ring.Memory.{Memory, RingCtrl, write_at, read_at}
use i_can.Ring.Bytes.{read_at-append, length-read_at, read_at-shift, write_extends}

-- A capacity at which the 32-bit positions may wrap: it divides 2 ^ 32.
pub record IsCapacity (cap : ℕ) : Type 0 where
  pub rounds : ℕ
  pub divides : cap * rounds ≡ u32_mod
  pub small : cap < u32_mod
  pub positive : 0 < cap

-- The ring holds the bytes `bs`, oldest first.
pub record Holds (base cap : ℕ) (m : Memory) (c : RingCtrl) (bs : List ℕ) : Type 0 where
  pub tail_fits : c.tail < u32_mod
  pub fits : length bs ≤ cap
  pub head_is : c.head ≡ add32 c.tail (length bs)
  pub bytes_are : read_at base cap m c.tail 0 (length bs) ≡ bs

module _ {base cap : ℕ} (g : IsCapacity cap) where
  -- The positions give back the number of stored bytes, and the writer's free space.
  pub used-Holds :
      {m : Memory} {c : RingCtrl} {bs : List ℕ}
      → Holds base cap m c bs
      → (sub32 c.head c.tail ≡ length bs) × (sub32 cap (length bs) ≡ cap - length bs)
  used-Holds {m} {c} h =
      let s = g.small in
      let t = h.tail_fits in
      let f = h.fits in (ap (λ x. sub32 x c.tail) h.head_is ∙ omega arith, omega arith)

  -- Bytes that are written at the head and fit are appended.
  pub push-Holds :
      {m : Memory} {c : RingCtrl} (bs xs : List ℕ)
      → Holds base cap m c bs
      → length bs + length xs ≤ cap
      → Holds base cap
          (write_at base cap c.head 0 xs m)
          (record { head = add32 c.head (length xs); tail = c.tail })
          (bs ++ xs)
  push-Holds {m} {c} bs xs h f = record {
    tail_fits = h.tail_fits;
    fits = rw length-append f;
    head_is = omega (arith, h.head_is, length-append bs xs);
    bytes_are =
        ap (read_at base cap _ c.tail 0) (length-append bs xs)
        ∙ ap (λ p. read_at base cap (write_at base cap p 0 xs m) c.tail 0 (length bs + length xs))
            h.head_is
        ∙ write_extends base cap g.rounds g.divides xs m c.tail (length bs) f
        ∙ ap (λ t. t ++ xs) h.bytes_are;
  }

  -- The bytes at the front, read where the code reads them.
  pub read-Holds :
      {m : Memory} {c : RingCtrl} (xs ys : List ℕ)
      → Holds base cap m c (xs ++ ys)
      → (read_at base cap m c.tail 0 (length xs) ≡ xs)
        × (read_at base cap m c.tail (length xs) (length ys) ≡ ys)
  read-Holds {m} {c} xs ys h = (front, back)
    where
      both :
          read_at base cap m c.tail 0 (length xs)
            ++ read_at base cap m c.tail (length xs) (length ys)
          ≡ xs ++ ys
      both =
          ap
            (λ o.
              read_at base cap m c.tail 0 (length xs) ++ read_at base cap m c.tail o (length ys))
            (omega arith)
          ∙ sym (read_at-append base cap m c.tail 0 (length xs) (length ys))
          ∙ ap (read_at base cap m c.tail 0) (sym (length-append xs ys))
          ∙ h.bytes_are

      len : length (read_at base cap m c.tail 0 (length xs)) ≡ length xs
      len = length-read_at base cap m c.tail 0 (length xs)

      front : read_at base cap m c.tail 0 (length xs) ≡ xs
      front =
          sym (take-append (read_at base cap m c.tail 0 (length xs)) _)
          ∙ ap₂ take len both
          ∙ take-append xs ys

      back : read_at base cap m c.tail (length xs) (length ys) ≡ ys
      back =
          sym (drop-append (read_at base cap m c.tail 0 (length xs)) _)
          ∙ ap₂ drop len both
          ∙ drop-append xs ys

  -- Moving the tail over the bytes at the front leaves the rest.
  pub pop-Holds :
      {m : Memory} {c : RingCtrl} (xs ys : List ℕ)
      → Holds base cap m c (xs ++ ys)
      → Holds base cap m (record { head = c.head; tail = add32 c.tail (length xs) }) ys
  pop-Holds {m} {c} xs ys h = record {
    tail_fits = omega arith;
    fits = omega (arith, h.fits, length-append xs ys);
    head_is = omega (arith, h.head_is, length-append xs ys);
    bytes_are =
        read_at-shift base cap m c.tail (length xs) 0 (length ys)
        ∙ ap (λ o. read_at base cap m c.tail o (length ys)) (omega arith)
        ∙ (read-Holds xs ys h).1;
  }

  -- Any stored bytes, read where the code reads them.
  pub slice-Holds :
      {m : Memory} {c : RingCtrl} (bs : List ℕ) (off n : ℕ)
      → Holds base cap m c bs
      → off + n ≤ length bs
      → read_at base cap m c.tail off n ≡ take n (drop off bs)
  slice-Holds {m} {c} bs off n h f = sym (ap (λ t. take n (drop off t)) parts ∙ cut)
    where
      a : List ℕ
      a = read_at base cap m c.tail 0 off

      b : List ℕ
      b = read_at base cap m c.tail off n

      r : List ℕ
      r = read_at base cap m c.tail (off + n) (length bs - (off + n))

      parts : bs ≡ a ++ (b ++ r)
      parts =
          sym h.bytes_are
          ∙ ap (read_at base cap m c.tail 0) (omega arith)
          ∙ read_at-append base cap m c.tail 0 off (n + (length bs - (off + n)))
          ∙ ap₂ ◌++◌ refl (
              ap (λ o. read_at base cap m c.tail o (n + (length bs - (off + n)))) (omega arith)
              ∙ read_at-append base cap m c.tail off n (length bs - (off + n)))

      cut : take n (drop off (a ++ (b ++ r))) ≡ b
      cut =
          ap (λ k. take n (drop k (a ++ (b ++ r)))) (sym (length-read_at base cap m c.tail 0 off))
          ∙ ap (take n) (drop-append a (b ++ r))
          ∙ ap (λ k. take k (b ++ r)) (sym (length-read_at base cap m c.tail off n))
          ∙ take-append b r
