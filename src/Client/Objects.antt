-- ===== src/Client/Objects.antt =====
-- The reader slots through all that a program does with its objects.
use i_can.Common.{
  ℕ, ◌≡◌, ◌≢◌, ◌⊎◌, inl, inr, refl, sym, ap, subst, ◌∙◌, true, false, Option, none, some, ◌==◌,
  ◌&&◌, ltb, Bool-cases,
}
use i_can.Client.Readers.{max_channels}
use i_can.Client.Handles.{
  Handle, Heap, put, release_reader, unregister_writer, destroy, moved_from, move_assign, World,
}
use i_can.Client.Slots.{is_active, is_same, is_other, some_is, same_is, put_cases}
use i_can.Client.Ownership.{Owns, IsSound, same-IsSound, drop-IsSound, transfer-IsSound}

-- Whether two places are one.
pub same_place : (k i m j : ℕ) → ((k ≡ m) × (i ≡ j)) ⊎ (((k ≡ m) × (i ≡ j)) → ⊥)
same_place k i m j = elim (Bool-cases (k == m)) [
  | inr e ↦ inr (λ p. absurd (is_other k m e p.0))
  | inl e ↦ elim (Bool-cases (i == j)) [
    | inr f ↦ inr (λ p. absurd (is_other i j f p.1))
    | inl f ↦ inl (is_same k m e, is_same i j f)
  ]
]

-- An object that owned none takes a slot that was free.
pub take-IsSound :
    (w : World) (heap : Heap) (v k i : ℕ) (h mine : Handle)
    → w.handles v ≡ some h
    → h.reader_id ≡ none
    → Owns (some mine) k i
    → is_active w.heap k i ≡ false
    → is_active heap k i ≡ true
    → ((m j : ℕ) → (((m ≡ k) × (j ≡ i)) → ⊥) → is_active heap m j ≡ is_active w.heap m j)
    → IsSound w
    → IsSound (record { heap = heap; handles = put w.handles v (some mine) })
take-IsSound w heap v k i h mine at idle own free busy same s = record {
  owned = owned;
  alone = alone;
  covered = covered;
}
  where
    handles : ℕ → Option Handle
    handles = put w.handles v (some mine)

    idle_v : (m j : ℕ) → Owns (w.handles v) m j → ⊥
    idle_v m j p = let q : Owns (some h) m j = subst (λ x. Owns x m j) at p in cc (idle, q.1)

    was :
        (u m j : ℕ)
        → Owns (handles u) m j
        → ((u ≡ v) × Owns (some mine) m j) ⊎ Owns (w.handles u) m j
    was u m j p = elim (put_cases w.handles v (some mine) u) [
      | inl (e, f) ↦ inl (e, subst (λ x. Owns x m j) f p)
      | inr (_, f) ↦ inr (subst (λ x. Owns x m j) f p)
    ]

    its_place : (m j : ℕ) → Owns (some mine) m j → (m ≡ k) × (j ≡ i)
    its_place m j q = (some_is m k (sym q.0 ∙ own.0), some_is j i (sym q.1 ∙ own.1))

    taken : (u m j : ℕ) → Owns (w.handles u) m j → (((m ≡ k) × (j ≡ i)) → ⊥)
    taken u m j p e =
        let act : is_active w.heap m j ≡ true = s.owned u m j p in
        let gone : is_active w.heap m j ≡ false =
          ap (λ x. is_active w.heap x j) e.0 ∙ ap (is_active w.heap k) e.1 ∙ free in
        cc (act, gone)

    owned : (u m j : ℕ) → Owns (handles u) m j → is_active heap m j ≡ true
    owned u m j p = elim (was u m j p) [
      | inl (_, q) ↦
          let (e, f) = its_place m j q in
          ap (λ x. is_active heap x j) e ∙ ap (is_active heap k) f ∙ busy
      | inr q ↦ same m j (taken u m j q) ∙ s.owned u m j q
    ]

    alone : (u t m j : ℕ) → Owns (handles u) m j → Owns (handles t) m j → u ≡ t
    alone u t m j p q = elim (was u m j p) [
      | inl (e, x) ↦ elim (was t m j q) [
        | inl (f, _) ↦ e ∙ sym f
        | inr y ↦ absurd (taken t m j y (its_place m j x))
      ]
      | inr x ↦ elim (was t m j q) [
        | inl (_, y) ↦ absurd (taken u m j x (its_place m j y))
        | inr y ↦ s.alone u t m j x y
      ]
    ]

    mine_at : Owns (handles v) k i
    mine_at = elim (put_cases w.handles v (some mine) v) [
      | inl (_, f) ↦ subst (λ x. Owns x k i) (sym f) own
      | inr (n, _) ↦ absurd (n refl)
    ]

    covered : (m j : ℕ) → is_active heap m j ≡ true → (u : ℕ) × Owns (handles u) m j
    covered m j act = elim (same_place m j k i) [
      | inl (e, f) ↦ (
        v,
        subst (λ x. Owns (handles v) x j) (sym e) (subst (Owns (handles v) k) (sym f) mine_at),
      )
      | inr n ↦
          let (u, p) = s.covered m j (sym (same m j n) ∙ act) in
          (
            u,
            elim (put_cases w.handles v (some mine) u) [
              | inl (e, _) ↦ absurd (idle_v m j (subst (λ x. Owns (w.handles x) m j) e p))
              | inr (_, f) ↦ subst (λ x. Owns x m j) (sym f) p
            ],
          )
    ]

pub put_apart {ℓ} : {A : Type ℓ} (f : ℕ → A) (k : ℕ) (x : A) (j : ℕ) → j ≢ k → put f k x j ≡ f j
put_apart f k x j n = elim (put_cases f k x j) [ inl (e, _) ↦ absurd (n e) | inr (_, e) ↦ e ]

put_thrice {ℓ} :
    {A : Type ℓ} (f : ℕ → A) (v u : ℕ) (x y z : A) (t : ℕ)
    → put (put (put f v x) u y) v z t ≡ put (put f u y) v z t
put_thrice f v u x y z t = elim (Bool-cases (t == v)) [ inl e ↦ rw e refl | inr e ↦ rw e refl ]

-- What stands at a place changes, and what is owned there does not.
pub relabel-IsSound :
    (w : World) (v : ℕ) (o : Option Handle)
    → ((k i : ℕ) → Owns o k i → Owns (w.handles v) k i)
    → ((k i : ℕ) → Owns (w.handles v) k i → Owns o k i)
    → IsSound w
    → IsSound (record w { handles = put w.handles v o })
relabel-IsSound w v o back forth s =
    same-IsSound w (record w { handles = put w.handles v o }) older newer (λ k i. refl) s
  where
    older : (u k i : ℕ) → Owns (put w.handles v o u) k i → Owns (w.handles u) k i
    older u k i p = elim (put_cases w.handles v o u) [
      | inl (e, f) ↦
          subst (λ x. Owns (w.handles x) k i) (sym e) (back k i (subst (λ x. Owns x k i) f p))
      | inr (_, f) ↦ subst (λ x. Owns x k i) f p
    ]

    newer : (u k i : ℕ) → Owns (w.handles u) k i → Owns (put w.handles v o u) k i
    newer u k i p = elim (put_cases w.handles v o u) [
      | inl (e, f) ↦
          subst (λ x. Owns x k i) (sym f) (forth k i (subst (λ x. Owns (w.handles x) k i) e p))
      | inr (_, f) ↦ subst (λ x. Owns x k i) (sym f) p
    ]

-- Where no object stands, one that owns no slot may stand.
pub none-Owns : {o : Option Handle} → o ≡ none → (k i : ℕ) → Owns o k i → ⊥
none-Owns e k i p = subst (λ x. Owns x k i) e p

pub move_assigned-IsSound :
    (w : World) (v u : ℕ) (this h : Handle)
    → v ≢ u
    → w.handles v ≡ some this
    → w.handles u ≡ some h
    → IsSound w
    → IsSound (record {
      heap = release_reader w.heap this;
      handles = put (put w.handles u (some (moved_from h))) v (some (move_assign this h));
    })
move_assigned-IsSound w v u this h d at_v at_u s =
    let dropped : World = record {
      heap = release_reader w.heap this;
      handles = put w.handles v none;
    } in
    let gone : dropped.handles v ≡ none = rw (same_is v) refl in
    let there : dropped.handles u ≡ some h = put_apart w.handles v none u (λ e. d (sym e)) ∙ at_u in
    same-IsSound _ _ (λ t k i p. subst (λ x. Owns x k i) (sym (eq t)) p)
      (λ t k i p. subst (λ x. Owns x k i) (eq t) p) (λ k i. refl)
      (transfer-IsSound dropped v u h (move_assign this h) (moved_from h) there (none-Owns gone)
        (λ k i p. cc p.0) refl refl (drop-IsSound w v this none at_v (λ k i p. p) s))
  where
    eq :
        (t : ℕ)
        → put (put (put w.handles v none) u (some (moved_from h))) v (some (move_assign this h)) t
          ≡ put (put w.handles u (some (moved_from h))) v (some (move_assign this h)) t
    eq t = put_thrice w.handles v u none (some (moved_from h)) (some (move_assign this h)) t

-- The destructor leaves the readers as the release of its own left them.
pub destroy-readers :
    (heap : Heap) (h : Handle) (k i : ℕ)
    → is_active (destroy heap h) k i ≡ is_active (release_reader heap h) k i
unfolding destroy
destroy-readers heap h k i = by_impl h.impl
  where
    by_impl :
        (m : Option ℕ)
        → is_active (unregister_writer (release_reader heap h) h m) k i
          ≡ is_active (release_reader heap h) k i
    by_impl none = refl
    by_impl (some m) =
        let g = release_reader heap h in
        elim (Bool-cases (h.is_tx_registered && ltb h.channel max_channels)) [
          | inr e ↦ rw e refl
          | inl e ↦ elim (Bool-cases (k == m)) [
            | inl f ↦ rw (e, f) (ap (λ x. is_active g x i) (sym (is_same k m f)))
            | inr f ↦ rw (e, f) refl
          ]
        ]
