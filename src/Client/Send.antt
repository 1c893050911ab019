-- ===== src/Client/Send.antt =====
-- writeTxFrame of the client against readTxFrame of the driver, over the queue of a TX ring.
use i_can.Common.{
  ℕ, ◌+◌, ◌-◌, ◌*◌, ◌≤◌, ◌<◌, ◌≡◌, refl, sym, subst, subst₂, ap, ◌∙◌, Bool, true, false, Option,
  none, some, List, [], ◌∷◌, ◌++◌, append-nil, append_assoc, length, length-append, arith, All,
  All-append, ltb, if◌then◌else◌, Bool-cases, inl, inr, ◌⊎◌, ltb→lt, ltb-false→le,
}
use i_can.Common.Words.{add32, sub32}
use i_can.Can.{Frame, IsFrame, frame_bytes}
use i_can.Ring.{Header, RingCtrl, write_at, read_at, tx0_base, tx1_base}
use i_can.Ring.Bytes.{write_at-append, read_at-outside}
use i_can.Ring.Queue.{IsCapacity, Holds, used-Holds, push-Holds}
use i_can.Ring.Transmit.{tx_entry, tx_entries, HoldsFrames, length-tx_entry}
use i_can.Client.Frames.{
  Client, enqueue, enqueue_tx, place_tx0, place_tx1, finish_write, write_on, write_tx_frame,
  uses_tx1, count_write, usable,
}

pub length-tx_entries : (fs : List Frame) → All IsFrame fs → length (tx_entries fs) ≡ 74 * length fs
length-tx_entries [] h = refl
length-tx_entries (f ∷ fs) (v, h) =
    omega (
      arith,
      length-append (tx_entry f) (tx_entries fs),
      length-tx_entry f v,
      length-tx_entries fs h,
    )

tx_entries-append : (fs gs : List Frame) → tx_entries (fs ++ gs) ≡ tx_entries fs ++ tx_entries gs
tx_entries-append [] gs = refl
tx_entries-append (f ∷ fs) gs =
    ap (λ t. tx_entry f ++ t) (tx_entries-append fs gs)
    ∙ sym (append_assoc (tx_entry f) (tx_entries fs) (tx_entries gs))

-- What a write to a ring that holds `fs` came to, by the array and the control after it.
abbrev Enqueued : ℕ → ℕ → Header → List Frame → Frame → Option ((ℕ → ℕ) × RingCtrl) → Type 0
Enqueued base cap h fs f none = cap < 74 * (length fs + 1)
Enqueued base cap h fs f (some (m, c)) =
    (74 * (length fs + 1) ≤ cap)
    × HoldsFrames base cap (record h { bytes = m }) c (fs ++ (f ∷ []))
    × ((base' cap' pos n : ℕ)
        → 0 < cap'
        → (base' + cap' ≤ base) ⊎ (base + cap ≤ base')
        → read_at base' cap' m pos 0 n ≡ read_at base' cap' h.bytes pos 0 n)

module _ {base cap : ℕ} (h : Header) (c : RingCtrl) (g : IsCapacity cap) where
  enqueue_lem :
      (fs : List Frame) (f : Frame)
      → HoldsFrames base cap h c fs
      → IsFrame f
      → Enqueued base cap h fs f (enqueue base cap h.bytes c f)
  unfolding enqueue
  enqueue_lem fs f q v = elim (Bool-cases (ltb free 74)) [
    | inl full ↦ rw full (omega (arith, ltb→lt free 74 full, free_is, size))
    | inr room ↦
        let fits : 74 * (length fs + 1) ≤ cap =
          omega (arith, ltb-false→le free 74 room, free_is, size) in
        rw room (fits, appended fits, elsewhere)
  ]
    where
      free : ℕ
      free = sub32 cap (sub32 c.head c.tail)

      size : length (tx_entries fs) ≡ 74 * length fs
      size = length-tx_entries fs q.frames

      free_is : free ≡ cap - length (tx_entries fs)
      free_is = let (a, b) = used-Holds g q.bytes in ap (sub32 cap) a ∙ b

      entry :
          write_at base cap c.head 2
            (frame_bytes f)
            (write_at base cap c.head 0 (72 ∷ 0 ∷ []) h.bytes)
          ≡ write_at base cap c.head 0 (tx_entry f) h.bytes
      entry = sym (write_at-append base cap (72 ∷ 0 ∷ []) (frame_bytes f) h.bytes c.head 0)

      elsewhere :
          (base' cap' pos n : ℕ)
          → 0 < cap'
          → (base' + cap' ≤ base) ⊎ (base + cap ≤ base')
          → read_at base' cap'
              (write_at base cap c.head 2
                (frame_bytes f)
                (write_at base cap c.head 0 (72 ∷ 0 ∷ []) h.bytes))
              pos
              0
              n
            ≡ read_at base' cap' h.bytes pos 0 n
      elsewhere base' cap' pos n p o =
          read_at-outside base cap base' cap' (frame_bytes f) _ c.head 2 pos 0 n g.positive p o
          ∙ read_at-outside base cap base' cap' (72 ∷ 0 ∷ []) h.bytes c.head 0 pos 0 n g.positive p
              o

      appended :
          74 * (length fs + 1) ≤ cap
          → HoldsFrames base cap
              (record h {
                bytes =
                    write_at base cap c.head 2
                      (frame_bytes f)
                      (write_at base cap c.head 0 (72 ∷ 0 ∷ []) h.bytes);
              })
              (record { head = add32 c.head 74; tail = c.tail })
              (fs ++ (f ∷ []))
      appended fits = record {
        bytes =
            subst₂ (λ m bs. Holds base cap m (record { head = add32 c.head 74; tail = c.tail }) bs)
              (sym entry)
              (ap (λ t. tx_entries fs ++ t) (sym (append-nil (tx_entry f)))
                ∙ sym (tx_entries-append fs (f ∷ [])))
              (subst
                (λ n.
                  Holds base cap (write_at base cap c.head 0 (tx_entry f) h.bytes)
                    (record { head = add32 c.head n; tail = c.tail }) (tx_entries fs ++ tx_entry f))
                (length-tx_entry f v)
                (push-Holds g (tx_entries fs) (tx_entry f) q.bytes
                  (omega (arith, size, length-tx_entry f v))));
        frames = All-append IsFrame fs (f ∷ []) q.frames (v, tt);
      }

-- The two TX rings of a header, each with the frames that it holds. The arrays of the rings lie
-- behind one another in the shared memory.
pub record HoldsBoth (h : Header) (fs0 fs1 : List Frame) : Type 0 where
  pub ring0 : HoldsFrames (tx0_base h) h.tx0_capacity h h.tx0 fs0
  pub ring1 : HoldsFrames (tx1_base h) h.tx1_capacity h h.tx1 fs1

-- The frames that wait in the ring that a channel writes to.
abbrev pub waiting : Header → ℕ → List Frame → List Frame → List Frame
waiting h channel fs0 fs1 = if uses_tx1 h channel then fs1 else fs0

-- The capacity of that ring.
abbrev pub capacity_of : Header → ℕ → ℕ
capacity_of h channel = if uses_tx1 h channel then h.tx1_capacity else h.tx0_capacity

-- What handing a frame to a ring of `cap` bytes that holds `fs` came to: it does not fit, or the
-- two rings of the new header hold `fs0` and `fs1`.
abbrev Placed : ℕ → List Frame → List Frame → List Frame → Option Header → Type 0
Placed cap fs fs0 fs1 none = cap < 74 * (length fs + 1)
Placed cap fs fs0 fs1 (some h') = (74 * (length fs + 1) ≤ cap) × HoldsBoth h' fs0 fs1

-- The frames of a ring are as before in an array that reads alike there.
HoldsFrames-same :
    {base cap : ℕ} (h : Header) {c : RingCtrl} (m : ℕ → ℕ) (fs : List Frame)
    → HoldsFrames base cap h c fs
    → read_at base cap m c.tail 0 (length (tx_entries fs))
      ≡ read_at base cap h.bytes c.tail 0 (length (tx_entries fs))
    → HoldsFrames base cap (record h { bytes = m }) c fs
HoldsFrames-same h m fs q e = record {
  bytes = record {
    tail_fits = q.bytes.tail_fits;
    fits = q.bytes.fits;
    head_is = q.bytes.head_is;
    bytes_are = e ∙ q.bytes.bytes_are;
  };
  frames = q.frames;
}

module _ (h : Header) (g0 : IsCapacity h.tx0_capacity) (g1 : IsCapacity h.tx1_capacity) where
  module _ (fs0 fs1 : List Frame) (f : Frame) (both : HoldsBoth h fs0 fs1) where
    into0 :
        (o : Option ((ℕ → ℕ) × RingCtrl))
        → Enqueued (tx0_base h) h.tx0_capacity h fs0 f o
        → Placed h.tx0_capacity fs0 (fs0 ++ (f ∷ [])) fs1 (place_tx0 h o)
    into0 none e = e
    into0 (some (m, c)) (fits, q, same) = (
      fits,
      record {
        ring0 = record { bytes = q.bytes; frames = q.frames };
        ring1 =
            let r =
              HoldsFrames-same h m fs1 both.ring1
                (same (tx1_base h) h.tx1_capacity h.tx1.tail _ g1.positive (inr (omega arith))) in
            record { bytes = r.bytes; frames = r.frames };
      },
    )

    into1 :
        (o : Option ((ℕ → ℕ) × RingCtrl))
        → Enqueued (tx1_base h) h.tx1_capacity h fs1 f o
        → Placed h.tx1_capacity fs1 fs0 (fs1 ++ (f ∷ [])) (place_tx1 h o)
    into1 none e = e
    into1 (some (m, c)) (fits, q, same) = (
      fits,
      record {
        ring1 = record { bytes = q.bytes; frames = q.frames };
        ring0 =
            let r =
              HoldsFrames-same h m fs0 both.ring0
                (same (tx0_base h) h.tx0_capacity h.tx0.tail _ g0.positive (inl (omega arith))) in
            record { bytes = r.bytes; frames = r.frames };
      },
    )

    enqueue_tx_lem :
        (channel : ℕ)
        → IsFrame f
        → Placed
            (capacity_of h channel)
            (waiting h channel fs0 fs1)
            (if uses_tx1 h channel then fs0 else fs0 ++ (f ∷ []))
            (if uses_tx1 h channel then fs1 ++ (f ∷ []) else fs1)
            (enqueue_tx h channel f)
    enqueue_tx_lem channel v = elim (Bool-cases (uses_tx1 h channel)) [
      | inl e ↦ rw e (into1 _ (enqueue_lem h h.tx1 g1 fs1 f both.ring1 v))
      | inr e ↦ rw e (into0 _ (enqueue_lem h h.tx0 g0 fs0 f both.ring0 v))
    ]

-- What writeTxFrame came to, by what it returned.
abbrev pub Wrote : Client → Header → ℕ → List Frame → List Frame → Frame → Client × Bool → Type 0
Wrote c h channel fs0 fs1 f (c', done) =
    ((capacity_of h channel < 74 * (length (waiting h channel fs0 fs1) + 1))
      × (done ≡ false)
      × (c' ≡ c))
    ⊎ ((h' : Header) × (74 * (length (waiting h channel fs0 fs1) + 1) ≤ capacity_of h channel)
        × (done ≡ true)
        × (c' ≡ record c {
          ring_header = some h';
          tx_write_count = count_write c.tx_write_count channel;
        })
        × HoldsBoth h' (if uses_tx1 h channel then fs0 else fs0 ++ (f ∷ []))
            (if uses_tx1 h channel then fs1 ++ (f ∷ []) else fs1))

-- writeTxFrame on a usable header whose TX rings hold `fs0` and `fs1`: either the frame does not
-- fit the ring of its channel, and nothing changes; or it fits, and then it stands behind the
-- others of that ring, the other ring holds what it held, and the write is counted.
pub write_tx_frame_lem :
    (c : Client) (h : Header) (channel : ℕ) (fs0 fs1 : List Frame) (f : Frame)
    → usable c.ring_header ≡ some h
    → IsCapacity h.tx0_capacity
    → IsCapacity h.tx1_capacity
    → HoldsBoth h fs0 fs1
    → IsFrame f
    → Wrote c h channel fs0 fs1 f (write_tx_frame c f channel)
unfolding write_tx_frame finish_write
write_tx_frame_lem c h channel fs0 fs1 f e g0 g1 both v =
    subst (Wrote c h channel fs0 fs1 f) (sym (ap (write_on c f channel) e))
      (finish _ (enqueue_tx_lem h g0 g1 fs0 fs1 f both channel v))
  where
    finish :
        (o : Option Header)
        → Placed
            (capacity_of h channel)
            (waiting h channel fs0 fs1)
            (if uses_tx1 h channel then fs0 else fs0 ++ (f ∷ []))
            (if uses_tx1 h channel then fs1 ++ (f ∷ []) else fs1)
            o
        → Wrote c h channel fs0 fs1 f (finish_write c channel o)
    finish none q = inl (q, refl, refl)
    finish (some h') q = inr (h', q.0, refl, refl, q.1)
