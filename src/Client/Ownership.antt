-- ===== src/Client/Ownership.antt =====
-- Who owns the reader slots of the implementations.
use i_can.Common.{
  ℕ, ◌≡◌, ◌≢◌, ◌⊎◌, inl, inr, refl, sym, ap, subst, ◌∙◌, Bool, true, false, Option, none, some,
}
use i_can.Client.Handles.{Handle, put, release_reader, World}
use i_can.Client.Slots.{is_active, put_cases, released}

-- An object that is alive owns slot `i` of implementation `k`.
abbrev pub Owns : Option Handle → ℕ → ℕ → Type 0
Owns none k i = ⊥
Owns (some h) k i = (h.impl ≡ some k) × (h.reader_id ≡ some i)

-- The slots in use are those that an object owns, and each has one owner.
pub record IsSound (w : World) : Type 0 where
  pub owned : (v k i : ℕ) → Owns (w.handles v) k i → is_active w.heap k i ≡ true
  pub alone : (v u k i : ℕ) → Owns (w.handles v) k i → Owns (w.handles u) k i → v ≡ u
  pub covered : (k i : ℕ) → is_active w.heap k i ≡ true → (v : ℕ) × Owns (w.handles v) k i

contradiction : {b : Bool} → b ≡ false → b ≡ true → ⊥
contradiction e f = cc

-- A world is as sound as one with the same owners and the same slots in use.
pub same-IsSound :
    (w w' : World)
    → ((v k i : ℕ) → Owns (w'.handles v) k i → Owns (w.handles v) k i)
    → ((v k i : ℕ) → Owns (w.handles v) k i → Owns (w'.handles v) k i)
    → ((k i : ℕ) → is_active w'.heap k i ≡ is_active w.heap k i)
    → IsSound w
    → IsSound w'
same-IsSound w w' back forth same s = record {
  owned = λ v k i o. same k i ∙ s.owned v k i (back v k i o);
  alone = λ v u k i o p. s.alone v u k i (back v k i o) (back u k i p);
  covered = λ k i a. let (v, o) = s.covered k i (sym (same k i) ∙ a) in (v, forth v k i o);
}

-- An object gives up its slot, and what stands in its place owns none.
pub drop-IsSound :
    (w : World) (v : ℕ) (h : Handle) (o : Option Handle)
    → w.handles v ≡ some h
    → ((k i : ℕ) → Owns o k i → ⊥)
    → IsSound w
    → IsSound (record { heap = release_reader w.heap h; handles = put w.handles v o })
drop-IsSound w v h o at n s = record { owned = owned; alone = alone; covered = covered }
  where
    mine : (k i : ℕ) → Owns (some h) k i → Owns (w.handles v) k i
    mine k i p = subst (λ x. Owns x k i) (sym at) p

    older : (u k i : ℕ) → Owns (put w.handles v o u) k i → (u ≢ v) × Owns (w.handles u) k i
    older u k i p = elim (put_cases w.handles v o u) [
      | inl (e, f) ↦ absurd (n k i (subst (λ x. Owns x k i) f p))
      | inr (e, f) ↦ (e, subst (λ x. Owns x k i) f p)
    ]

    not_mine : (u k i : ℕ) → u ≢ v → Owns (w.handles u) k i → Owns (some h) k i → ⊥
    not_mine u k i d p q = absurd (d (s.alone u v k i p (mine k i q)))

    owned :
        (u k i : ℕ)
        → Owns (put w.handles v o u) k i
        → is_active (release_reader w.heap h) k i ≡ true
    owned u k i p =
        let (d, q) = older u k i p in
        (released w.heap h k i).1 (not_mine u k i d q) ∙ s.owned u k i q

    alone : (u t k i : ℕ) → Owns (put w.handles v o u) k i → Owns (put w.handles v o t) k i → u ≡ t
    alone u t k i p q = s.alone u t k i (older u k i p).1 (older t k i q).1

    covered :
        (k i : ℕ)
        → is_active (release_reader w.heap h) k i ≡ true
        → (u : ℕ) × Owns (put w.handles v o u) k i
    covered k i a =
        let free : Owns (some h) k i → ⊥ = λ p. contradiction ((released w.heap h k i).0 p) a in
        let (u, p) = s.covered k i (sym ((released w.heap h k i).1 free) ∙ a) in
        (
          u,
          elim (put_cases w.handles v o u) [
            | inl (e, f) ↦
                absurd (free (subst (λ x. Owns x k i) at (subst (λ t. Owns (w.handles t) k i) e p)))
            | inr (e, f) ↦ subst (λ x. Owns x k i) (sym f) p
          ],
        )

-- A slot changes hands from `u` to `v`, which owned none.
pub transfer-IsSound :
    (w : World) (v u : ℕ) (h mine rest : Handle)
    → w.handles u ≡ some h
    → ((k i : ℕ) → Owns (w.handles v) k i → ⊥)
    → ((k i : ℕ) → Owns (some rest) k i → ⊥)
    → mine.impl ≡ h.impl
    → mine.reader_id ≡ h.reader_id
    → IsSound w
    → IsSound (record w { handles = put (put w.handles u (some rest)) v (some mine) })
transfer-IsSound w v u h mine rest at none_v none_rest a b s = record {
  owned = owned;
  alone = alone;
  covered = covered;
}
  where
    handles : ℕ → Option Handle
    handles = put (put w.handles u (some rest)) v (some mine)

    -- What an object owns was its own before, or that of `u`.
    was :
        (t k i : ℕ)
        → Owns (handles t) k i
        → ((t ≡ v) × Owns (w.handles u) k i) ⊎ ((t ≢ u) × Owns (w.handles t) k i)
    was t k i p = elim (put_cases (put w.handles u (some rest)) v (some mine) t) [
      | inl (e, f) ↦
          let q : Owns (some mine) k i = subst (λ x. Owns x k i) f p in
          inl (e, subst (λ x. Owns x k i) (sym at) (sym a ∙ q.0, sym b ∙ q.1))
      | inr (_, f) ↦ elim (put_cases w.handles u (some rest) t) [
        | inl (_, g) ↦ absurd (none_rest k i (subst (λ x. Owns x k i) (f ∙ g) p))
        | inr (e, g) ↦ inr (e, subst (λ x. Owns x k i) (f ∙ g) p)
      ]
    ]

    owned : (t k i : ℕ) → Owns (handles t) k i → is_active w.heap k i ≡ true
    owned t k i p = elim (was t k i p) [
      | inl (_, q) ↦ s.owned u k i q
      | inr (_, q) ↦ s.owned t k i q
    ]

    alone : (t r k i : ℕ) → Owns (handles t) k i → Owns (handles r) k i → t ≡ r
    alone t r k i p q = elim (was t k i p) [
      | inl (e, x) ↦ elim (was r k i q) [
        | inl (f, _) ↦ e ∙ sym f
        | inr (f, y) ↦ absurd (f (s.alone r u k i y x))
      ]
      | inr (e, x) ↦ elim (was r k i q) [
        | inl (_, y) ↦ absurd (e (s.alone t u k i x y))
        | inr (_, y) ↦ s.alone t r k i x y
      ]
    ]

    mine_at : (k i : ℕ) → Owns (some mine) k i → Owns (handles v) k i
    mine_at k i q = elim (put_cases (put w.handles u (some rest)) v (some mine) v) [
      | inl (_, f) ↦ subst (λ x. Owns x k i) (sym f) q
      | inr (n, _) ↦ absurd (n refl)
    ]

    covered : (k i : ℕ) → is_active w.heap k i ≡ true → (t : ℕ) × Owns (handles t) k i
    covered k i act =
        let (t, p) = s.covered k i act in
        elim (put_cases w.handles u (some rest) t) [
          | inl (e, _) ↦
              let q : Owns (some h) k i = subst (λ x. Owns x k i) (ap w.handles e ∙ at) p in
              (v, mine_at k i (a ∙ q.0, b ∙ q.1))
          | inr (_, g) ↦ elim (put_cases (put w.handles u (some rest)) v (some mine) t) [
            | inl (e, _) ↦ absurd (none_v k i (subst (λ x. Owns (w.handles x) k i) e p))
            | inr (_, f) ↦ (t, subst (λ x. Owns x k i) (sym (f ∙ g)) p)
          ]
        ]
