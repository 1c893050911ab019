-- ===== src/Dashboard/Recent.antt =====
-- The circular buffer of recent frames against the frames that were read.
use i_can.Common.{
  ℕ, zero, suc, ◌+◌, ◌-◌, ◌%◌, ◌^◌, ◌≡◌, ◌≢◌, ◌<◌, refl, sym, ap, ap₂, ◌∙◌, true, false, some, List,
  [], ◌∷◌, ltb, ◌==◌, if◌then◌else◌, length, take, get_elem?, arith,
}
use i_can.Can.{Packet}
use i_can.Dashboard.{
  ParsedFrame, parse_all, Dashboard, note_frame, note_frames, reader_round, recent_from,
  recent_frames,
}
use i_can.Dashboard.Histogram.{read_rounds, count_of, frames_read, read_rounds-count}

-- The buffer holds the newest of the frames `hs`, which are newest first.
pub record Keeps (d : Dashboard) (hs : List ParsedFrame) : Type 0 where
  pub head_in : d.recent_head < 200
  pub count_is : d.recent_count ≡ (if ltb (length hs) 200 then length hs else 200)
  pub places :
      (i : ℕ)
      → i < d.recent_count
      → get_elem? hs i ≡ some (d.recent_buf ((d.recent_head + 200 - 1 - i) % 200))

note_frame-Keeps :
    (d : Dashboard) (p : ParsedFrame) (hs : List ParsedFrame)
    → Keeps d hs
    → Keeps (note_frame d p) (p ∷ hs)
note_frame-Keeps d p hs k = record {
  head_in = omega arith;
  count_is = ground (arith, k.count_is);
  places = places;
}
  where
    after : Dashboard
    after = note_frame d p

    newest : (after.recent_head + 200 - 1 - 0) % 200 ≡ d.recent_head
    newest = omega (arith, k.head_in)

    older :
        (i : ℕ)
        → suc i < 200
        → (after.recent_head + 200 - 1 - suc i) % 200 ≡ (d.recent_head + 200 - 1 - i) % 200
    older i l = omega (arith, k.head_in)

    apart : (i : ℕ) → suc i < 200 → ((d.recent_head + 200 - 1 - i) % 200 == d.recent_head) ≡ false
    apart i l =
        let ne : (d.recent_head + 200 - 1 - i) % 200 ≢ d.recent_head = omega (arith, k.head_in) in
        ground (arith, ne)

    same : (d.recent_head == d.recent_head) ≡ true
    same = ground arith

    places :
        (i : ℕ)
        → i < after.recent_count
        → get_elem? (p ∷ hs) i ≡ some (after.recent_buf ((after.recent_head + 200 - 1 - i) % 200))
    places zero l = sym (ap (λ x. some (after.recent_buf x)) newest ∙ rw same refl)
    places (suc i) l =
        let small : suc i < 200 = ground (arith, l, k.count_is) in
        let there : i < d.recent_count = ground (arith, l) in
        k.places i there
        ∙ sym (ap (λ x. some (after.recent_buf x)) (older i small) ∙ rw (apart i small) refl)

-- The frames of a list behind those before, newest first.
abbrev pub history : List ParsedFrame → List ParsedFrame → List ParsedFrame
history hs [] = hs
history hs (p ∷ ps) = history (p ∷ hs) ps

note_frames-Keeps :
    (ps : List ParsedFrame) (d : Dashboard) (hs : List ParsedFrame)
    → Keeps d hs
    → Keeps (note_frames d ps) (history hs ps)
note_frames-Keeps [] d hs k = k
note_frames-Keeps (p ∷ ps) d hs k =
    note_frames-Keeps ps (note_frame d p) (p ∷ hs) (note_frame-Keeps d p hs k)

reader_round-Keeps :
    (d : Dashboard) (ps : List Packet) (hs : List ParsedFrame)
    → Keeps d hs
    → Keeps (reader_round d ps) (history hs (parse_all ps))
unfolding reader_round
reader_round-Keeps d ps hs k =
    note_frames-Keeps (parse_all ps) _ hs
      (record { head_in = k.head_in; count_is = k.count_is; places = k.places })

abbrev pub rounds_history : List ParsedFrame → List (List Packet) → List ParsedFrame
rounds_history hs [] = hs
rounds_history hs (ps ∷ pss) = rounds_history (history hs (parse_all ps)) pss

read_rounds-Keeps :
    (pss : List (List Packet)) (d : Dashboard) (hs : List ParsedFrame)
    → Keeps d hs
    → Keeps (read_rounds d pss) (rounds_history hs pss)
read_rounds-Keeps [] d hs k = k
read_rounds-Keeps (ps ∷ pss) d hs k =
    read_rounds-Keeps pss (reader_round d ps) (history hs (parse_all ps))
      (reader_round-Keeps d ps hs k)

recent_from-take :
    (n : ℕ) (d : Dashboard) (i : ℕ) (l : List ParsedFrame)
    → ((j : ℕ)
        → j < n
        → get_elem? l j ≡ some (d.recent_buf ((d.recent_head + 200 - 1 - (i + j)) % 200)))
    → recent_from n d i ≡ take n l
unfolding recent_from
recent_from-take zero d i l at = refl
recent_from-take (suc n) d i [] at = absurd (let e = at 0 (omega arith) in cc)
recent_from-take (suc n) d i (x ∷ l) at =
    let first : some x ≡ some (d.recent_buf ((d.recent_head + 200 - 1 - (i + 0)) % 200)) =
      at 0 (omega arith) in
    let here : i + 0 ≡ i = omega arith in
    ap₂ (λ a b. a ∷ b)
      (sym (is_some first ∙ ap (λ k. d.recent_buf ((d.recent_head + 200 - 1 - k) % 200)) here))
      (recent_from-take n d (i + 1) l (λ j h.
        let next : i + suc j ≡ i + 1 + j = omega arith in
        at (suc j) (omega (arith, h))
        ∙ ap (λ k. some (d.recent_buf ((d.recent_head + 200 - 1 - k) % 200))) next))
  where
    is_some : {a b : ParsedFrame} → some a ≡ some b → a ≡ b
    is_some e = cc

recent_frames-take :
    (d : Dashboard) (hs : List ParsedFrame) → Keeps d hs → recent_frames d ≡ take d.recent_count hs
recent_frames-take d hs k = recent_from-take d.recent_count d 0 hs (λ j h.
    let zero_more : 0 + j ≡ j = omega arith in
    k.places j h
    ∙ ap (λ x. some (d.recent_buf ((d.recent_head + 200 - 1 - x) % 200))) (sym zero_more))

-- From a state of the dashboard whose buffer holds the newest of some frames, however packets come
-- in batches: the frames that snapshot shows are the newest of all frames, newest first, all of
-- them or 200; and the count for each id went up, in 32 bits, by the number of packets whose can_id
-- has the id in its low 29 bits.
pub read_rounds_lem :
    (pss : List (List Packet)) (d : Dashboard) (hs : List ParsedFrame)
    → Keeps d hs
    → (let r = read_rounds d pss in
        (recent_frames r ≡ take r.recent_count (rounds_history hs pss))
        × (r.recent_count ≡ (
            if ltb (length (rounds_history hs pss)) 200
            then length (rounds_history hs pss)
            else 200))
        × ((id : ℕ)
            → count_of r.id_counts id % 2 ^ 32
              ≡ (count_of d.id_counts id + frames_read pss id) % 2 ^ 32))
read_rounds_lem pss d hs k =
    let kept = read_rounds-Keeps pss d hs k in
    (
      recent_frames-take (read_rounds d pss) (rounds_history hs pss) kept,
      kept.count_is,
      read_rounds-count pss d,
    )
