-- ===== src/Ring/Transmit.antt =====
-- readTxFrame against the queue of bytes that the ring holds, and against the queue of frames.
use i_can.Common.{
  ℕ, ◌+◌, ◌≡◌, refl, sym, subst, ap, ◌∙◌, not, ◌&&◌, List, [], ◌∷◌, ◌++◌, length, length-append,
  arith, take, drop, All, ltb, ◌==◌, if◌then◌else◌, Bool-cases, inl, inr, take-append, ltb-false→le,
  le→ltb-false,
}
use i_can.Common.Words.{add32, of_le_bytes}
use i_can.Common.Outcome.{Outcome, ok, ◌>>=◌, >>=-assoc}
use i_can.Can.{Frame, IsFrame, can_mtu, canfd_mtu, frame_bytes}
use i_can.Can.Layout.{frame_of_bytes-frame_bytes}
use i_can.Ring.Memory.{Header, RingCtrl}
use i_can.Ring.Io.{
  TxReadResult, nothing_read, entry_dropped, frame_read, entry_frame, read_tx_frame,
}
use i_can.Ring.Queue.{IsCapacity, Holds, used-Holds, slice-Holds, pop-Holds}

-- What a reader makes of the bytes in the queue, with no ring: how the first entry is parsed.
unfoldable pub parse_entry : List ℕ → Outcome TxReadResult
parse_entry bs =
    let size = of_le_bytes (take 2 bs) in
    if ltb (length bs) 2
    then ok nothing_read
    else if ltb (length bs) (2 + size)
    then ok nothing_read
    else if not (size == can_mtu) && not (size == canfd_mtu)
    then ok (entry_dropped (2 + size))
    else (entry_frame size (take size (drop 2 bs)) >>= λ f. ok (frame_read f (2 + size)))

-- The header after a read: a dropped entry is counted.
abbrev pub count_dropped : Header → TxReadResult → Header
count_dropped h r = if r.dropped then record h { tx_dropped = add32 h.tx_dropped 1 } else h

module _ {base cap : ℕ} (g : IsCapacity cap) where
  -- On a ring that holds any bytes, however they lie round the end of the array and the wrap of
  -- the positions, readTxFrame returns what parsing those bytes gives, and counts what it drops.
  pub read_tx_frame_parses :
      (h : Header) (c : RingCtrl) (bs : List ℕ)
      → Holds base cap h.bytes c bs
      → read_tx_frame h c base cap c.tail ≡ (parse_entry bs >>= λ r. ok (r, count_dropped h r))
  unfolding read_tx_frame parse_entry
  read_tx_frame_parses h c bs q = elim (Bool-cases (ltb (length bs) 2)) [
    | inl short ↦ rw ((used-Holds g q).0, short)
    | inr long ↦
        rw ((used-Holds g q).0, long, slice-Holds g bs 0 2 q (ltb-false→le _ _ long))
          (elim (Bool-cases (ltb (length bs) (2 + size))) [
            | inl short ↦ rw short
            | inr whole ↦
                rw (whole, slice-Holds g bs 2 size q (ltb-false→le _ _ whole))
                  (elim (Bool-cases (not (size == can_mtu) && not (size == canfd_mtu))) [
                    | inl bad ↦ rw bad
                    | inr good ↦
                        rw good (sym (>>=-assoc (entry_frame size (take size (drop 2 bs))) _ _))
                  ])
          ])
  ]
    where
      size : ℕ
      size = of_le_bytes (take 2 bs)

-- The bytes of a TX entry: a size of two bytes, then the frame.
abbrev pub tx_entry : Frame → List ℕ
tx_entry f = 72 ∷ 0 ∷ frame_bytes f

abbrev pub tx_entries : List Frame → List ℕ
tx_entries [] = []
tx_entries (f ∷ fs) = tx_entry f ++ tx_entries fs

-- The TX ring holds the frames `fs`, oldest first.
pub record HoldsFrames (base cap : ℕ) (h : Header) (c : RingCtrl) (fs : List Frame) : Type 0 where
  pub bytes : Holds base cap h.bytes c (tx_entries fs)
  pub frames : All IsFrame fs

take-length_append {ℓ} :
    {A : Type ℓ} (n : ℕ) (xs ys : List A) → length xs ≡ n → take n (xs ++ ys) ≡ xs
take-length_append n xs ys e = ap (λ k. take k (xs ++ ys)) (sym e) ∙ take-append xs ys

parse_entry-tx_entry :
    (f : Frame) (rest : List ℕ)
    → IsFrame f
    → parse_entry (tx_entry f ++ rest) ≡ ok (frame_read f 74)
unfolding parse_entry entry_frame
parse_entry-tx_entry f rest v = rw (
  le→ltb-false (length (tx_entry f ++ rest)) 2 (omega (arith, long)),
  le→ltb-false (length (tx_entry f ++ rest)) 74 (omega (arith, long)),
  take-length_append 64 f.payload rest v.payload_size,
  frame_of_bytes-frame_bytes f v,
)
  where
    long : length (tx_entry f ++ rest) ≡ 74 + length rest
    long = rw (length-append (tx_entry f) rest) (omega (arith, v.payload_size))

pub length-tx_entry : (f : Frame) → IsFrame f → length (tx_entry f) ≡ 74
length-tx_entry f v = omega (arith, v.payload_size)

module _ {base cap : ℕ} (g : IsCapacity cap) where
  -- On a TX ring that holds the frames `f ∷ fs`, readTxFrame returns `f` and drops nothing, and
  -- when the caller moves the tail by the bytes consumed, the ring holds `fs`.
  pub read_tx_frame_front :
      (h : Header) (c : RingCtrl) (f : Frame) (fs : List Frame)
      → HoldsFrames base cap h c (f ∷ fs)
      → (read_tx_frame h c base cap c.tail ≡ ok (frame_read f 74, h))
        × HoldsFrames base cap h (record { head = c.head; tail = add32 c.tail 74 }) fs
  read_tx_frame_front h c f fs q = (
    read_tx_frame_parses g h c _ q.bytes
        ∙ ap (λ o. o >>= λ r. ok (r, count_dropped h r))
            (parse_entry-tx_entry f (tx_entries fs) q.frames.0),
    record {
      bytes =
          let e : length (tx_entry f) ≡ 74 = length-tx_entry f q.frames.0 in
          subst
            (λ n.
              Holds base cap h.bytes (record { head = c.head; tail = add32 c.tail n })
                (tx_entries fs))
            e (pop-Holds g (tx_entry f) (tx_entries fs) q.bytes);
      frames = q.frames.1;
    },
  )

  -- On an empty TX ring it returns that nothing was read, and changes nothing.
  pub read_tx_frame_empty :
      (h : Header) (c : RingCtrl)
      → HoldsFrames base cap h c []
      → read_tx_frame h c base cap c.tail ≡ ok (nothing_read, h)
  unfolding parse_entry
  read_tx_frame_empty h c q = read_tx_frame_parses g h c [] q.bytes

-- Of the control, a read looks at the head alone.
pub read_tx_frame_head :
    (h : Header) (c : RingCtrl) (t base cap tail : ℕ)
    → read_tx_frame h c base cap tail
      ≡ read_tx_frame h (record { head = c.head; tail = t }) base cap tail
unfolding read_tx_frame
read_tx_frame_head h c t base cap tail = refl
