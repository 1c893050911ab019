-- ===== src/Client/Lifetimes.antt =====
-- Every sequence of calls on the objects of a program leaves the reader slots with their owners.
use i_can.Common.{
  ℕ, zero, suc, ◌≡◌, ◌≢◌, ◌⊎◌, inl, inr, refl, sym, ap, subst, ◌∙◌, Bool, true, false, Option, none,
  some, List, ◌==◌, if◌then◌else◌, replicate, Bool-cases,
}
use i_can.Client.Readers.{ReaderSlot, fresh, register_reader}
use i_can.Client.Fifo.{register_reader_lem}
use i_can.Client.Handles.{
  new_slot, new_client, Handle, Heap, put, release_reader, destroy, new_handle, copy, assign, move,
  moved_from, ensure_at, ensure_reader, World, Step, created, copied, moved, assigned,
  move_assigned, channel_set, used, destroyed, Reached, empty, next,
}
use i_can.Client.Frames.{Client}
use i_can.Client.Slots.{active_in, is_active, active_in-set, is_same, same_is, put_cases}
use i_can.Client.Ownership.{Owns, IsSound, same-IsSound, drop-IsSound, transfer-IsSound}
use i_can.Client.Objects.{
  take-IsSound, relabel-IsSound, none-Owns, move_assigned-IsSound, destroy-readers, put_apart,
}

slots_are_free : (n j : ℕ) → active_in (replicate n new_slot) j ≡ false
slots_are_free zero j = refl
slots_are_free (suc n) zero = refl
slots_are_free (suc n) (suc j) = slots_are_free n j

contradiction : {b : Bool} → b ≡ false → b ≡ true → ⊥
contradiction e f = cc

created-IsSound :
    (w : World) (v k : ℕ)
    → w.handles v ≡ none
    → ((u : ℕ) (h : Handle) → w.handles u ≡ some h → h.impl ≢ some k)
    → IsSound w
    → IsSound
        (record { heap = put w.heap k new_client; handles = put w.handles v (some (new_handle k)) })
created-IsSound w v k at unused s = record { owned = owned; alone = alone; covered = covered }
  where
    was : (u m i : ℕ) → Owns (put w.handles v (some (new_handle k)) u) m i → Owns (w.handles u) m i
    was u m i p = elim (put_cases w.handles v (some (new_handle k)) u) [
      | inl (_, f) ↦
          let q : Owns (some (new_handle k)) m i = subst (λ x. Owns x m i) f p in absurd (cc q.1)
      | inr (_, f) ↦ subst (λ x. Owns x m i) f p
    ]

    elsewhere : (o : Option Handle) (u m i : ℕ) → w.handles u ≡ o → Owns o m i → m ≢ k
    elsewhere none u m i e p = absurd p
    elsewhere (some h) u m i e p = λ f. absurd (unused u h e (p.0 ∙ ap some f))

    same : (m i : ℕ) → m ≢ k → is_active (put w.heap k new_client) m i ≡ is_active w.heap m i
    same m i n = ap (λ c. active_in c.readers i) (put_apart w.heap k new_client m n)

    owned :
        (u m i : ℕ)
        → Owns (put w.handles v (some (new_handle k)) u) m i
        → is_active (put w.heap k new_client) m i ≡ true
    owned u m i p =
        let q = was u m i p in same m i (elsewhere (w.handles u) u m i refl q) ∙ s.owned u m i q

    alone :
        (u t m i : ℕ)
        → Owns (put w.handles v (some (new_handle k)) u) m i
        → Owns (put w.handles v (some (new_handle k)) t) m i
        → u ≡ t
    alone u t m i p q = s.alone u t m i (was u m i p) (was t m i q)

    covered :
        (m i : ℕ)
        → is_active (put w.heap k new_client) m i ≡ true
        → (u : ℕ) × Owns (put w.handles v (some (new_handle k)) u) m i
    covered m i act = elim (put_cases w.heap k new_client m) [
      | inl (_, f) ↦
          absurd (contradiction (ap (λ c. active_in c.readers i) f ∙ slots_are_free 8 i) act)
      | inr (n, _) ↦
          let (u, p) = s.covered m i (sym (same m i n) ∙ act) in
          (
            u,
            elim (put_cases w.handles v (some (new_handle k)) u) [
              | inl (e, _) ↦ absurd (none-Owns at m i (subst (λ x. Owns (w.handles x) m i) e p))
              | inr (_, f) ↦ subst (λ x. Owns x m i) (sym f) p
            ],
          )
    ]

-- What registerReader does with the slots of an implementation.
register_slots :
    (rs : List ReaderSlot) (channel : ℕ)
    → ((i : ℕ) × ((register_reader rs channel).1 ≡ some i)
        × (active_in rs i ≡ false)
        × (active_in (register_reader rs channel).0 i ≡ true)
        × ((j : ℕ) → j ≢ i → active_in (register_reader rs channel).0 j ≡ active_in rs j))
      ⊎ (register_reader rs channel ≡ (rs, none))
register_slots rs channel = elim (register_reader_lem rs channel) [
  | inr (_, e) ↦ inr e
  | inl (i, r, at, free, _, e, _) ↦
      let changed : (j : ℕ)
          → active_in (register_reader rs channel).0 j ≡ (if j == i then true else active_in rs j) =
        λ j. ap (λ p. active_in p.0 j) e ∙ active_in-set rs i j r (fresh r channel) at in
      inl (
        i,
        ap (λ p. p.1) e,
        rw (active_in, at) free,
        changed i ∙ rw (same_is i) refl,
        λ j n. changed j ∙ apart j i n,
      )
]
  where
    apart : (j i : ℕ) → j ≢ i → (if j == i then true else active_in rs j) ≡ active_in rs j
    apart j i n = elim (Bool-cases (j == i)) [
      | inl e ↦ absurd (n (is_same j i e))
      | inr e ↦ rw e refl
    ]

ensured-IsSound :
    (w : World) (v : ℕ) (h : Handle) (m r : Option ℕ)
    → w.handles v ≡ some h
    → h.impl ≡ m
    → h.reader_id ≡ r
    → IsSound w
    → IsSound (record {
      heap = (ensure_at w.heap h m r).0;
      handles = put w.handles v (some (ensure_at w.heap h m r).1);
    })
ensured-IsSound w v h none r at e f s =
    relabel-IsSound w v (some h) (λ k i p. subst (λ x. Owns x k i) (sym at) p)
      (λ k i p. subst (λ x. Owns x k i) at p) s
ensured-IsSound w v h (some k) (some j) at e f s =
    relabel-IsSound w v (some h) (λ k i p. subst (λ x. Owns x k i) (sym at) p)
      (λ k i p. subst (λ x. Owns x k i) at p) s
ensured-IsSound w v h (some k) none at e f s = elim (register_slots (w.heap k).readers h.channel) [
  | inl (i, id, free, busy, same) ↦
      take-IsSound w heap v k i h mine at f (e, id) free (there i ∙ busy)
        (λ m j n. elim (put_cases w.heap k after m) [
          | inl (g, x) ↦
              ap (λ c. active_in c.readers j) x
              ∙ same j (λ y. n (g, y))
              ∙ ap (λ c. is_active w.heap c j) (sym g)
          | inr (_, x) ↦ ap (λ c. active_in c.readers j) x
        ])
        s
  | inr full ↦
      same-IsSound (record w { handles = put w.handles v (some mine) }) _ (λ u m i p. p)
        (λ u m i p. p)
        (λ m j. elim (put_cases w.heap k after m) [
          | inl (g, x) ↦
              ap (λ c. active_in c.readers j) x
              ∙ ap (λ c. active_in c.0 j) full
              ∙ ap (λ c. is_active w.heap c j) (sym g)
          | inr (_, x) ↦ ap (λ c. active_in c.readers j) x
        ])
        (relabel-IsSound w v (some mine)
          (λ m j p.
            let gone : mine.reader_id ≡ none = ap (λ c. c.1) full in absurd (not_some gone p.1))
          (λ m j p.
            let q : Owns (some h) m j = subst (λ x. Owns x m j) at p in absurd (not_some f q.1))
          s)
]
  where
    after : Client
    after = record (w.heap k) { readers = (register_reader (w.heap k).readers h.channel).0 }

    heap : Heap
    heap = put w.heap k after

    mine : Handle
    mine = record h { reader_id = (register_reader (w.heap k).readers h.channel).1 }

    there : (j : ℕ) → is_active heap k j ≡ active_in after.readers j
    there j = rw (same_is k) refl

    not_some : {o : Option ℕ} {i : ℕ} → o ≡ none → o ≡ some i → ⊥
    not_some a b = cc

destroyed-IsSound :
    (w : World) (v : ℕ) (h : Handle)
    → w.handles v ≡ some h
    → IsSound w
    → IsSound (record { heap = destroy w.heap h; handles = put w.handles v none })
destroyed-IsSound w v h at s =
    same-IsSound (record { heap = release_reader w.heap h; handles = put w.handles v none }) _
      (λ u k i p. p) (λ u k i p. p) (destroy-readers w.heap h)
      (drop-IsSound w v h none at (λ k i p. p) s)

Step-IsSound : {w w' : World} → Step w w' → IsSound w → IsSound w'
unfolding ensure_reader
Step-IsSound (created w v k at unused) s = created-IsSound w v k at unused s
Step-IsSound (copied w v u h at_v at_u) s =
    relabel-IsSound w v (some (copy h)) (λ k i p. cc p.1) (λ k i p. absurd (none-Owns at_v k i p)) s
Step-IsSound (moved w v u h at_v at_u) s =
    transfer-IsSound w v u h (move h) (moved_from h) at_u (none-Owns at_v) (λ k i p. cc p.0) refl
      refl s
Step-IsSound (assigned w v u this h d at_v at_u) s =
    drop-IsSound w v this (some (assign this h)) at_v (λ k i p. cc p.1) s
Step-IsSound (move_assigned w v u this h d at_v at_u) s =
    move_assigned-IsSound w v u this h d at_v at_u s
Step-IsSound (channel_set w v channel h at) s =
    relabel-IsSound w v (some (record h { channel = channel }))
      (λ k i p. subst (λ x. Owns x k i) (sym at) p) (λ k i p. subst (λ x. Owns x k i) at p) s
Step-IsSound (used w v h at) s = ensured-IsSound w v h h.impl h.reader_id at refl refl s
Step-IsSound (destroyed w v h at) s = destroyed-IsSound w v h at s

-- Whatever a program does with its objects of class CANClient, creating, copying, moving,
-- assigning, using and destroying them in any order: each slot that an object owns is in use, no two
-- objects own the same slot, and each slot in use has an owner, so none is leaked.
pub Reached-IsSound : {w : World} → Reached w → IsSound w
Reached-IsSound empty = record {
  owned = λ v k i p. absurd p;
  alone = λ v u k i p q. absurd p;
  covered = λ k i act. absurd (contradiction (slots_are_free 8 i) act);
}
Reached-IsSound (next r step) = Step-IsSound step (Reached-IsSound r)
