-- ===== src/TxPath/Shape.antt =====
-- What writeTxFrame and drainTx leave of a header: its magic number and the sizes of its rings.
use i_can.Common.{
  ℕ, ◌≡◌, refl, sym, ap, subst, ◌∙◌, ◌==◌, true, Option, none, some, Bool-cases, inl, inr,
}
use i_can.Can.{Frame}
use i_can.Ring.{Header, RingCtrl, ring_magic, tx0_base, tx1_base}
use i_can.Client.{
  Client, usable, place_tx0, place_tx1, enqueue, enqueue_tx, finish_write, write_on, write_tx_frame,
  uses_tx1,
}

pub record SameShape (h h' : Header) : Type 0 where
  pub magic : h'.magic ≡ h.magic
  pub tx0_capacity : h'.tx0_capacity ≡ h.tx0_capacity
  pub tx1_capacity : h'.tx1_capacity ≡ h.tx1_capacity

unchanged : (h : Header) → SameShape h h
unchanged h = record { magic = refl; tx0_capacity = refl; tx1_capacity = refl }

-- A header of the same shape, if there is one.
abbrev Shaped : Header → Option Header → Type 0
Shaped h none = Unit
Shaped h (some h') = SameShape h h'

place_tx0-Shaped : (h : Header) (o : Option ((ℕ → ℕ) × RingCtrl)) → Shaped h (place_tx0 h o)
place_tx0-Shaped h none = tt
place_tx0-Shaped h (some (m, c)) = record { magic = refl; tx0_capacity = refl; tx1_capacity = refl }

place_tx1-Shaped : (h : Header) (o : Option ((ℕ → ℕ) × RingCtrl)) → Shaped h (place_tx1 h o)
place_tx1-Shaped h none = tt
place_tx1-Shaped h (some (m, c)) = record { magic = refl; tx0_capacity = refl; tx1_capacity = refl }

enqueue_tx-Shaped : (h : Header) (channel : ℕ) (f : Frame) → Shaped h (enqueue_tx h channel f)
enqueue_tx-Shaped h channel f = elim (Bool-cases (uses_tx1 h channel)) [
  | inl e ↦ rw e (place_tx1-Shaped h (enqueue (tx1_base h) h.tx1_capacity h.bytes h.tx1 f))
  | inr e ↦ rw e (place_tx0-Shaped h (enqueue (tx0_base h) h.tx0_capacity h.bytes h.tx0 f))
]

-- A mapped header with the right magic number is usable.
pub is_usable :
    (c : Client) (h : Header)
    → c.ring_header ≡ some h
    → (h.magic == ring_magic) ≡ true
    → usable c.ring_header ≡ some h
is_usable c h m g = ap usable m ∙ rw g refl

some_is : {x y : Header} → some x ≡ some y → x ≡ y
some_is e = cc

finish_write-Shaped :
    (c : Client) (h h' : Header) (channel : ℕ) (o : Option Header)
    → c.ring_header ≡ some h
    → Shaped h o
    → (finish_write c channel o).0.ring_header ≡ some h'
    → SameShape h h'
unfolding finish_write
finish_write-Shaped c h h' channel none m s e =
    let same : h ≡ h' = some_is (sym m ∙ e) in subst (SameShape h) same (unchanged h)
finish_write-Shaped c h h' channel (some x) m s e = subst (SameShape h) (some_is e) s

-- After writeTxFrame on a header that is usable.
pub write_tx_frame-Shaped :
    (c : Client) (h h' : Header) (channel : ℕ) (f : Frame)
    → c.ring_header ≡ some h
    → (h.magic == ring_magic) ≡ true
    → (write_tx_frame c f channel).0.ring_header ≡ some h'
    → SameShape h h'
unfolding write_tx_frame
write_tx_frame-Shaped c h h' channel f m g e =
    finish_write-Shaped c h h' channel (enqueue_tx h channel f) m (enqueue_tx-Shaped h channel f)
      (ap (λ o. (write_on c f channel o).0.ring_header) (sym (is_usable c h m g)) ∙ e)
