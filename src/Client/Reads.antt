-- ===== src/Client/Reads.antt =====
-- What the reading calls return.
use i_can.Common.{
  ℕ, zero, suc, ◌≡◌, ◌≢◌, inl, inr, refl, sym, ap, subst, ◌∙◌, Option, none, some, List, [], ◌∷◌,
  get_elem?, set, take, drop,
}
use i_can.Can.{Packet}
use i_can.Client.Readers.{ReaderSlot, read_packet, read_packet_from_reader}
use i_can.Client.Fifo.{Queued, read_packet_lem}
use i_can.Client.Reading.{read_loop, collect}

-- Slot `i` holds the packets `ps`, and the other slots are those of `before`.
pub record SlotHolds (before : List ReaderSlot) (i : ℕ) (ps : List Packet)
    (readers : List ReaderSlot) : Type 0 where
  pub slot : ReaderSlot
  pub there : get_elem? readers i ≡ some slot
  pub queued : Queued slot ps
  pub others : (j : ℕ) → j ≢ i → get_elem? readers j ≡ get_elem? before j

get_elem?-set {ℓ} :
    {A : Type ℓ} (l : List A) (i : ℕ) (x y : A)
    → get_elem? l i ≡ some x
    → get_elem? (set l i y) i ≡ some y
get_elem?-set [] i x y e = absurd cc
get_elem?-set (z ∷ l) zero x y e = refl
get_elem?-set (z ∷ l) (suc i) x y e = get_elem?-set l i x y e

get_elem?-set_other {ℓ} :
    {A : Type ℓ} (l : List A) (i j : ℕ) (y : A) → j ≢ i → get_elem? (set l i y) j ≡ get_elem? l j
get_elem?-set_other [] i j y n = refl
get_elem?-set_other (z ∷ l) zero zero y n = absurd (n refl)
get_elem?-set_other (z ∷ l) zero (suc j) y n = refl
get_elem?-set_other (z ∷ l) (suc i) zero y n = refl
get_elem?-set_other (z ∷ l) (suc i) (suc j) y n = get_elem?-set_other l i j y (λ e. n (ap suc e))

read_at_slot :
    (readers : List ReaderSlot) (i : ℕ) (r : ReaderSlot)
    → get_elem? readers i ≡ some r
    → read_packet_from_reader readers i ≡ ((read_packet r).0, set readers i (read_packet r).1)
unfolding read_packet_from_reader
read_at_slot readers i r e = rw (read_packet_from_reader, e) refl

after_read :
    (before readers : List ReaderSlot) (i : ℕ) (r : ReaderSlot) (qs : List Packet)
    → get_elem? readers i ≡ some r
    → Queued (read_packet r).1 qs
    → ((j : ℕ) → j ≢ i → get_elem? readers j ≡ get_elem? before j)
    → SlotHolds before i qs (set readers i (read_packet r).1)
after_read before readers i r qs e q o = record {
  slot = (read_packet r).1;
  there = get_elem?-set readers i r (read_packet r).1 e;
  queued = q;
  others = λ j n. get_elem?-set_other readers i j (read_packet r).1 n ∙ o j n;
}

collect-none :
    (o : Option Packet) (rs : List ReaderSlot) (x : List Packet × List ReaderSlot)
    → o ≡ none
    → collect o rs x ≡ ([], rs)
collect-none o rs x e = rw e refl

collect-some :
    (o : Option Packet) (rs : List ReaderSlot) (x : List Packet × List ReaderSlot) (p : Packet)
    → o ≡ some p
    → collect o rs x ≡ (p ∷ x.0, x.1)
collect-some o rs x p e = rw e refl

-- What a run of the loop came to, on a slot that held `ps`.
abbrev Took : ℕ → List ReaderSlot → ℕ → List Packet → List Packet × List ReaderSlot → Type 0
Took n before i ps r = (r.0 ≡ take n ps) × SlotHolds before i (drop n ps) r.1

-- The loop of readMany, with room for `n` packets and a slot that holds `ps`, returns the first `n`
-- of them, or all if there are fewer, in order; the slot holds the others, and the other slots are
-- as before.
pub read_loop_lem :
    (n : ℕ) (before readers : List ReaderSlot) (i : ℕ) (ps : List Packet)
    → SlotHolds before i ps readers
    → ((read_loop n readers (some i)).0 ≡ take n ps)
      × SlotHolds before i (drop n ps) (read_loop n readers (some i)).1
unfolding read_loop
read_loop_lem zero before readers i ps s = (refl, s)
read_loop_lem (suc n) before readers i ps s =
    let at = read_at_slot readers i s.slot s.there in
    let slots : (read_packet_from_reader readers i).1 ≡ set readers i (read_packet s.slot).1 =
      ap (λ x. x.1) at in
    elim (read_packet_lem s.slot ps s.queued) [
      | inl (nil, e) ↦
          let same : Queued (read_packet s.slot).1 [] =
            subst (Queued (read_packet s.slot).1) nil
              (subst (λ r. Queued r ps) (sym (ap (λ x. x.1) e)) s.queued) in
          subst (λ l. Took (suc n) before i l (read_loop (suc n) readers (some i))) (sym nil)
            (subst (Took (suc n) before i [])
              (sym (collect-none _ _ _ (ap (λ x. x.0) at ∙ ap (λ x. x.0) e)))
              (
                refl,
                subst (SlotHolds before i []) (sym slots)
                    (after_read before readers i s.slot [] s.there same s.others),
              ))
      | inr (p, qs, cons, e, q) ↦
          let (first, rest) = read_loop_lem n before (read_packet_from_reader readers i).1 i qs (
            subst (SlotHolds before i qs) (sym slots)
              (after_read before readers i s.slot qs s.there q s.others)) in
          subst (λ l. Took (suc n) before i l (read_loop (suc n) readers (some i))) (sym cons)
            (subst (Took (suc n) before i (p ∷ qs))
              (sym (collect-some _ _ _ p (ap (λ x. x.0) at ∙ e))) (ap (λ l. p ∷ l) first, rest))
    ]
