-- ===== src/Dashboard/Histogram.antt =====
-- The counts for each CAN id against the frames that were read.
use i_can.Common.{
  ap, refl, ℕ, ◌+◌, ◌%◌, ◌^◌, ◌≡◌, Bool, false, List, [], ◌∷◌, ◌==◌, if◌then◌else◌, Bool-cases, inl,
  inr, arith,
}
use i_can.Common.Words.{add32}
use i_can.Can.{Packet}
use i_can.Dashboard.{
  ParsedFrame, parse, parse_all, IdInfo, Dashboard, count_id, note_frame, note_frames, reader_round,
}

-- The count of an id, 0 where it is not kept, and how many ids are kept twice.
abbrev pub count_of : List IdInfo → ℕ → ℕ
count_of [] id = 0
count_of (e ∷ es) id = if e.raw_id == id then e.count else count_of es id

-- How many frames of a list have the id.
abbrev pub frames_with : List ParsedFrame → ℕ → ℕ
frames_with [] id = 0
frames_with (p ∷ ps) id = (if p.raw_id == id then 1 else 0) + frames_with ps id

count_id_lem :
    (es : List IdInfo) (p : ParsedFrame) (id : ℕ)
    → count_of (count_id es p) id % 2 ^ 32
      ≡ (count_of es id + (if p.raw_id == id then 1 else 0)) % 2 ^ 32
unfolding count_id
count_id_lem [] p id = omega arith
count_id_lem (e ∷ es) p id = elim (Bool-cases (e.raw_id == p.raw_id)) [
  | inl same ↦
      let eq : e.raw_id ≡ p.raw_id = ground (arith, same) in rw same (known (p.raw_id == id) eq)
  | inr differ ↦ elim (Bool-cases (e.raw_id == id)) [
    | inl here ↦
        let away : (p.raw_id == id) ≡ false = ground (arith, differ, here) in
        rw (differ, here, away) (omega arith)
    | inr there ↦ rw (differ, there) (count_id_lem es p id)
  ]
]
  where
    known :
        (b : Bool)
        → e.raw_id ≡ p.raw_id
        → (if e.raw_id == id then add32 e.count 1 else count_of es id) % 2 ^ 32
          ≡ ((if e.raw_id == id then e.count else count_of es id)
              + (if p.raw_id == id then 1 else 0))
            % 2 ^ 32
    known b eq = rw eq (elim (Bool-cases (p.raw_id == id)) [
      | inl f ↦ rw f (omega arith)
      | inr f ↦ rw f (omega arith)
    ])

note_frames_lem :
    (ps : List ParsedFrame) (d : Dashboard) (id : ℕ)
    → count_of (note_frames d ps).id_counts id % 2 ^ 32
      ≡ (count_of d.id_counts id + frames_with ps id) % 2 ^ 32
note_frames_lem [] d id = omega arith
note_frames_lem (p ∷ ps) d id =
    let rest = note_frames_lem ps (note_frame d p) id in
    let first = count_id_lem d.id_counts p id in omega (arith, rest, first)

-- The frames that the rounds of readerLoop read.
abbrev pub read_rounds : Dashboard → List (List Packet) → Dashboard
read_rounds d [] = d
read_rounds d (ps ∷ pss) = read_rounds (reader_round d ps) pss

-- How many packets have the id in the low 29 bits of their can_id.
abbrev pub packets_with : List Packet → ℕ → ℕ
packets_with [] id = 0
packets_with (p ∷ ps) id = (if p.frame.can_id % 2 ^ 29 == id then 1 else 0) + packets_with ps id

abbrev pub frames_read : List (List Packet) → ℕ → ℕ
frames_read [] id = 0
frames_read (ps ∷ pss) id = packets_with ps id + frames_read pss id

frames_with-parse_all :
    (ps : List Packet) (id : ℕ) → frames_with (parse_all ps) id ≡ packets_with ps id
unfolding parse
frames_with-parse_all [] id = refl
frames_with-parse_all (p ∷ ps) id =
    ap (λ n. (if p.frame.can_id % 2 ^ 29 == id then 1 else 0) + n) (frames_with-parse_all ps id)

reader_round_lem :
    (d : Dashboard) (ps : List Packet) (id : ℕ)
    → count_of (reader_round d ps).id_counts id % 2 ^ 32
      ≡ (count_of d.id_counts id + packets_with ps id) % 2 ^ 32
unfolding reader_round
reader_round_lem d ps id = rw (← frames_with-parse_all ps id) (note_frames_lem (parse_all ps) _ id)

-- However the packets come in batches, the count that readerLoop keeps for an id went up, in
-- 32 bits, by the number of frames with the id among all packets.
pub read_rounds-count :
    (pss : List (List Packet)) (d : Dashboard) (id : ℕ)
    → count_of (read_rounds d pss).id_counts id % 2 ^ 32
      ≡ (count_of d.id_counts id + frames_read pss id) % 2 ^ 32
read_rounds-count [] d id = omega arith
read_rounds-count (ps ∷ pss) d id =
    omega (arith, read_rounds-count pss (reader_round d ps) id, reader_round_lem d ps id)
