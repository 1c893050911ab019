-- ===== src/Client/Slots.antt =====
-- The reader slots that are in use, before and after one is released.
use i_can.Common.{
  ℕ, zero, suc, ◌≡◌, ◌≢◌, ◌⊎◌, inl, inr, refl, sym, ap, ◌∙◌, Bool, true, false, Option, none, some,
  List, [], ◌∷◌, ◌==◌, if◌then◌else◌, set, get_elem?, Bool-cases, arith,
}
use i_can.Client.Readers.{ReaderSlot, release, unregister_reader}
use i_can.Client.Handles.{Handle, Heap, put, release_at, release_reader}

abbrev pub active_in : List ReaderSlot → ℕ → Bool
active_in rs i = elim (get_elem? rs i) [ none ↦ false | some r ↦ r.active ]

-- Whether a slot is in use.
abbrev pub is_active : Heap → ℕ → ℕ → Bool
is_active heap k i = active_in (heap k).readers i

-- What an object with this pointer and this id refers to.
abbrev pub Names : Option ℕ → Option ℕ → ℕ → ℕ → Type 0
Names m r k i = (m ≡ some k) × (r ≡ some i)

pub active_in-set :
    (rs : List ReaderSlot) (i j : ℕ) (r s : ReaderSlot)
    → get_elem? rs i ≡ some r
    → active_in (set rs i s) j ≡ (if j == i then s.active else active_in rs j)
active_in-set [] i j r s e = absurd cc
active_in-set (x ∷ rs) zero zero r s e = refl
active_in-set (x ∷ rs) zero (suc j) r s e = let f : (suc j == 0) ≡ false = ground arith in rw f refl
active_in-set (x ∷ rs) (suc i) zero r s e = let f : (0 == suc i) ≡ false = ground arith in rw f refl
active_in-set (x ∷ rs) (suc i) (suc j) r s e =
    let f : (suc j == suc i) ≡ (j == i) = ground arith in rw f (active_in-set rs i j r s e)

pub some_is : (a b : ℕ) → some a ≡ some b → a ≡ b
some_is a b e = cc

pub is_same : (a b : ℕ) → (a == b) ≡ true → a ≡ b
is_same a b e = ground (arith, e)

pub is_other : (a b : ℕ) → (a == b) ≡ false → a ≢ b
is_other a b e = λ f. absurd (ground (arith, e, f))

pub same_is : (a : ℕ) → (a == a) ≡ true
same_is a = ground arith

other_is : (a b : ℕ) → a ≢ b → (a == b) ≡ false
other_is a b n = elim (Bool-cases (a == b)) [ inl e ↦ absurd (n (is_same a b e)) | inr e ↦ e ]

unregister-none :
    (rs : List ReaderSlot) (i : ℕ) → get_elem? rs i ≡ none → unregister_reader rs i ≡ rs
unfolding unregister_reader
unregister-none rs i e = rw (unregister_reader, e) refl

unregister-some :
    (rs : List ReaderSlot) (i : ℕ) (r : ReaderSlot)
    → get_elem? rs i ≡ some r
    → unregister_reader rs i ≡ set rs i (release r)
unfolding unregister_reader
unregister-some rs i r e = rw (unregister_reader, e) refl

no_slot : (rs : List ReaderSlot) (i : ℕ) → get_elem? rs i ≡ none → active_in rs i ≡ false
no_slot rs i e = rw (active_in, e) refl

active_in-unregister :
    (rs : List ReaderSlot) (i j : ℕ)
    → active_in (unregister_reader rs i) j ≡ (if j == i then false else active_in rs j)
active_in-unregister rs i j = by_slot (get_elem? rs i) refl
  where
    by_slot :
        (o : Option ReaderSlot)
        → get_elem? rs i ≡ o
        → active_in (unregister_reader rs i) j ≡ (if j == i then false else active_in rs j)
    by_slot (some r) e =
        ap (λ l. active_in l j) (unregister-some rs i r e) ∙ active_in-set rs i j r (release r) e
    by_slot none e = elim (Bool-cases (j == i)) [
      | inl f ↦
          ap (λ l. active_in l j) (unregister-none rs i e)
          ∙ rw f (ap (active_in rs) (is_same j i f) ∙ no_slot rs i e)
      | inr f ↦ ap (λ l. active_in l j) (unregister-none rs i e) ∙ rw f refl
    ]

-- What a place holds after a write.
pub put_cases {ℓ} :
    {A : Type ℓ} (f : ℕ → A) (k : ℕ) (x : A) (j : ℕ)
    → ((j ≡ k) × (put f k x j ≡ x)) ⊎ ((j ≢ k) × (put f k x j ≡ f j))
put_cases f k x j = elim (Bool-cases (j == k)) [
  | inl e ↦ inl (is_same j k e, rw e refl)
  | inr e ↦ inr (is_other j k e, rw e refl)
]

-- After a slot is released, it is free, and all others are as before.
pub released :
    (heap : Heap) (h : Handle) (k i : ℕ)
    → (Names h.impl h.reader_id k i → is_active (release_reader heap h) k i ≡ false)
      × ((Names h.impl h.reader_id k i → ⊥)
          → is_active (release_reader heap h) k i ≡ is_active heap k i)
unfolding release_at
released heap h k i = by_parts h.impl h.reader_id
  where
    by_parts :
        (m r : Option ℕ)
        → (((m ≡ some k) × (r ≡ some i)) → is_active (release_at heap m r) k i ≡ false)
          × ((((m ≡ some k) × (r ≡ some i)) → ⊥)
              → is_active (release_at heap m r) k i ≡ is_active heap k i)
    by_parts none r = (λ o. absurd cc, λ n. refl)
    by_parts (some m) none = (λ o. absurd cc, λ n. refl)
    by_parts (some m) (some r) = elim (Bool-cases (k == m)) [
      | inr e ↦ (λ o. absurd (is_other k m e (sym (some_is m k o.0))), λ n. rw e refl)
      | inl e ↦ (
        λ o. rw (e, active_in-unregister (heap m).readers r i, some_is r i o.1, same_is i) refl,
        λ n.
            rw
              (
                e,
                active_in-unregister (heap m).readers r i,
                other_is i r (λ f. n (ap some (sym (is_same k m e)), ap some (sym f))),
                is_same k m e,
              )
              refl,
      )
    ]
