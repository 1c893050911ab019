-- ===== src/Slcan/Cutting.antt =====
-- LineAccumulator against a description by whole lines: the stream is cut at the carriage returns,
-- and each line is read by itself.
use i_can.Common.{
  ℕ, zero, suc, ◌<◌, ◌≡◌, refl, sym, ap, ◌∙◌, Bool, true, false, Option, none, some, List, [], ◌∷◌,
  ◌++◌, append_assoc, append-nil, ◌==◌, not, ◌&&◌, ltb, if◌then◌else◌, length, take, arith,
  Bool-cases, inl, inr,
}
use i_can.Common.Words.{u32_mod, add32}
use i_can.Can.{Frame}
use i_can.Slcan.Text.{decode}
use i_can.Slcan.Lines.{LineAccumulator, count_line, end_line, process_byte, process_bytes}

-- The first byte of a stream that is cut into lines, and what is left behind the last of them.
abbrev pub put_first : ℕ → List (List ℕ) × List ℕ → List (List ℕ) × List ℕ
put_first c ([], rest) = ([], c ∷ rest)
put_first c (l ∷ ls, rest) = ((c ∷ l) ∷ ls, rest)

-- The lines of a stream, each ended by a carriage return, and the bytes behind the last.
abbrev pub cut_lines : List ℕ → List (List ℕ) × List ℕ
cut_lines [] = ([], [])
cut_lines (c ∷ cs) =
    let (ls, rest) = cut_lines cs in if c == 13 then ([] ∷ ls, rest) else put_first c (ls, rest)

-- A line without its newlines.
abbrev pub without_newlines : List ℕ → List ℕ
without_newlines [] = []
without_newlines (c ∷ cs) = if c == 10 then without_newlines cs else c ∷ without_newlines cs

-- What is read of a line: its first 255 bytes that are no newline.
abbrev pub line_text : List ℕ → List ℕ
line_text l = take 255 (without_newlines l)

abbrev pub if_text : List ℕ → List (List ℕ) → List (List ℕ)
if_text [] ts = ts
if_text (c ∷ cs) ts = (c ∷ cs) ∷ ts

-- The texts of the lines that have one.
abbrev pub texts : List (List ℕ) → List (List ℕ)
texts [] = []
texts (l ∷ ls) = if_text (line_text l) (texts ls)

abbrev pub if_frame : Option Frame → List Frame → List Frame
if_frame none fs = fs
if_frame (some f) fs = f ∷ fs

abbrev pub if_failed : Option Frame → ℕ → ℕ
if_failed none n = suc n
if_failed (some f) n = n

-- The frames of the texts that decode reads, and the number of the others.
abbrev pub frames_of : List (List ℕ) → List Frame
frames_of [] = []
frames_of (t ∷ ts) = if_frame (decode t) (frames_of ts)

abbrev pub failures : List (List ℕ) → ℕ
failures [] = 0
failures (t ∷ ts) = if_failed (decode t) (failures ts)

-- The unfinished line `pre` of an earlier stream goes on in the first line of this one.
abbrev pub go_on : List ℕ → List (List ℕ) × List ℕ → List (List ℕ) × List ℕ
go_on pre ([], rest) = ([], pre ++ rest)
go_on pre (l ∷ ls, rest) = ((pre ++ l) ∷ ls, rest)

-- The accumulator and the frames after some texts, with `rest` in the buffer.
abbrev pub read_texts : LineAccumulator → List (List ℕ) → List ℕ → LineAccumulator × List Frame
read_texts a ts rest = (
  record {
    buf = rest;
    lines_total = add32 a.lines_total (length ts);
    lines_decoded = add32 a.lines_decoded (length (frames_of ts));
    lines_failed = add32 a.lines_failed (failures ts);
  },
  frames_of ts,
)

abbrev pub read_lines : LineAccumulator → List (List ℕ) × List ℕ → LineAccumulator × List Frame
read_lines a (ls, rest) = read_texts a (texts ls) (line_text rest)

go_on-put_first :
    (pre : List ℕ) (c : ℕ) (x : List (List ℕ) × List ℕ)
    → go_on pre (put_first c x) ≡ go_on (pre ++ (c ∷ [])) x
go_on-put_first pre c ([], rest) = ap (λ l. ([], l)) (sym (append_assoc pre (c ∷ []) rest))
go_on-put_first pre c (l ∷ ls, rest) = ap (λ k. (k ∷ ls, rest)) (sym (append_assoc pre (c ∷ []) l))

go_on-nil : (x : List (List ℕ) × List ℕ) → go_on [] x ≡ x
go_on-nil ([], rest) = refl
go_on-nil (l ∷ ls, rest) = refl

-- A byte at the end of a line: a newline is left out, and others are there while there is room.
without_newlines-snoc :
    (l : List ℕ) (c : ℕ)
    → without_newlines (l ++ (c ∷ [])) ≡ without_newlines l ++ (if c == 10 then [] else c ∷ [])
without_newlines-snoc [] c = elim (Bool-cases (c == 10)) [ inl e ↦ rw e refl | inr e ↦ rw e refl ]
without_newlines-snoc (b ∷ l) c = elim (Bool-cases (b == 10)) [
  | inl e ↦ rw e (without_newlines-snoc l c)
  | inr e ↦ rw e (ap (λ k. b ∷ k) (without_newlines-snoc l c))
]

take-snoc :
    (n : ℕ) (l : List ℕ) (c : ℕ)
    → take n (l ++ (c ∷ []))
      ≡ (if ltb (length (take n l)) n then take n l ++ (c ∷ []) else take n l)
take-snoc zero l c = refl
take-snoc (suc zero) [] c = refl
take-snoc (suc (suc n)) [] c = let room : ltb 0 (suc (suc n)) ≡ true = ground arith in rw room refl
take-snoc (suc n) (x ∷ l) c =
    let P = λ (b : Bool). if b then take n l ++ (c ∷ []) else take n l in
    let same : ltb (suc (length (take n l))) (suc n) ≡ ltb (length (take n l)) n = ground arith in
    elim (Bool-cases (ltb (length (take n l)) n)) [
      | inl e ↦ rw (same, e) (ap (λ k. x ∷ k) (take-snoc n l c ∙ ap P e))
      | inr e ↦ rw (same, e) (ap (λ k. x ∷ k) (take-snoc n l c ∙ ap P e))
    ]

-- The text of a line with a byte more is what the loop makes of the buffer.
line_text-snoc :
    (l : List ℕ) (c : ℕ)
    → line_text (l ++ (c ∷ [])) ≡ (
        if not (c == 10) && ltb (length (line_text l)) 255
        then line_text l ++ (c ∷ [])
        else line_text l)
line_text-snoc l c = ap (take 255) (without_newlines-snoc l c) ∙ elim (Bool-cases (c == 10)) [
  | inl e ↦ rw e (ap (take 255) (append-nil (without_newlines l)))
  | inr e ↦ rw e (take-snoc 255 (without_newlines l) c)
]

record Fits (a : LineAccumulator) : Type 0 where
  total : a.lines_total < u32_mod
  decoded : a.lines_decoded < u32_mod
  failed : a.lines_failed < u32_mod

-- The body of the loop on a byte inside a line.
process_byte-inside :
    (c : ℕ) (a : LineAccumulator) (pre : List ℕ)
    → (c == 13) ≡ false
    → process_byte (record a { buf = line_text pre }) c
      ≡ (record a { buf = line_text (pre ++ (c ∷ [])) }, [])
unfolding process_byte
process_byte-inside c a pre n =
    rw (n, line_text-snoc pre c)
      (elim (Bool-cases (not (c == 10) && ltb (length (line_text pre)) 255)) [
        | inl t ↦ rw t refl
        | inr t ↦ rw t refl
      ])

-- The frames of a byte before those of the bytes behind it.
abbrev join : List Frame → LineAccumulator × List Frame → LineAccumulator × List Frame
join fs (a, gs) = (a, fs ++ gs)

counted_text :
    (o : Option Frame) (a : LineAccumulator) (ts : List (List ℕ)) (rest : List ℕ)
    → join (count_line a o).1 (read_texts (count_line a o).0 ts rest) ≡ (
      record {
        buf = rest;
        lines_total = add32 a.lines_total (suc (length ts));
        lines_decoded = add32 a.lines_decoded (length (if_frame o (frames_of ts)));
        lines_failed = add32 a.lines_failed (if_failed o (failures ts));
      },
      if_frame o (frames_of ts),
    )
unfolding count_line
counted_text none a ts rest =
    let t : add32 (add32 a.lines_total 1) (length ts) ≡ add32 a.lines_total (suc (length ts)) =
      omega arith in
    let n : add32 (add32 a.lines_failed 1) (failures ts)
        ≡ add32 a.lines_failed (suc (failures ts)) =
      omega arith in
    λ i. (
      record {
        buf = rest;
        lines_total = t i;
        lines_decoded = add32 a.lines_decoded (length (frames_of ts));
        lines_failed = n i;
      },
      frames_of ts,
    )
counted_text (some f) a ts rest =
    let t : add32 (add32 a.lines_total 1) (length ts) ≡ add32 a.lines_total (suc (length ts)) =
      omega arith in
    let n : add32 (add32 a.lines_decoded 1) (length (frames_of ts))
        ≡ add32 a.lines_decoded (suc (length (frames_of ts))) =
      omega arith in
    λ i. (
      record {
        buf = rest;
        lines_total = t i;
        lines_decoded = n i;
        lines_failed = add32 a.lines_failed (failures ts);
      },
      f ∷ frames_of ts,
    )

-- The end of a line whose text is `t`.
end_line-text :
    (a : LineAccumulator) (t : List ℕ) (ts : List (List ℕ)) (rest : List ℕ)
    → join
        (end_line (record a { buf = t })).1
        (read_texts (end_line (record a { buf = t })).0 ts rest)
      ≡ read_texts a (if_text t ts) rest
unfolding end_line
end_line-text a [] ts rest = refl
end_line-text a (c ∷ cs) ts rest =
    counted_text (decode (c ∷ cs)) (record a { buf = c ∷ cs }) ts rest

count_line-Fits :
    (o : Option Frame) (a : LineAccumulator)
    → Fits a
    → Fits (count_line a o).0 × ((count_line a o).0.buf ≡ [])
unfolding count_line
count_line-Fits none a v =
    (record { total = omega arith; decoded = v.decoded; failed = omega arith }, refl)
count_line-Fits (some f) a v =
    (record { total = omega arith; decoded = omega arith; failed = v.failed }, refl)

end_line-Fits :
    (a : LineAccumulator) (t : List ℕ)
    → Fits a
    → (let b = (end_line (record a { buf = t })).0 in Fits b × (b.buf ≡ []))
unfolding end_line
end_line-Fits a [] v = (record { total = v.total; decoded = v.decoded; failed = v.failed }, refl)
end_line-Fits a (c ∷ cs) v =
    count_line-Fits (decode (c ∷ cs)) (record a { buf = c ∷ cs })
      (record { total = v.total; decoded = v.decoded; failed = v.failed })

at_end :
    (pre : List ℕ) (a : LineAccumulator)
    → process_byte (record a { buf = line_text pre }) 13
      ≡ end_line (record a { buf = line_text pre })
unfolding process_byte
at_end pre a = refl

process_bytes-from :
    (cs : List ℕ) (a : LineAccumulator) (pre : List ℕ)
    → Fits a
    → process_bytes (record a { buf = line_text pre }) cs ≡ read_lines a (go_on pre (cut_lines cs))
unfolding process_bytes
process_bytes-from [] a pre v =
    let text : line_text pre ≡ line_text (pre ++ []) = ap line_text (sym (append-nil pre)) in
    let total : a.lines_total ≡ add32 a.lines_total 0 = omega (arith, v.total) in
    let done : a.lines_decoded ≡ add32 a.lines_decoded 0 = omega (arith, v.decoded) in
    let failed : a.lines_failed ≡ add32 a.lines_failed 0 = omega (arith, v.failed) in
    λ i. (
      record {
        buf = text i;
        lines_total = total i;
        lines_decoded = done i;
        lines_failed = failed i;
      },
      [],
    )
process_bytes-from (c ∷ cs) a pre v = elim (Bool-cases (c == 13)) [
  | inr n ↦
      rw (n, go_on-put_first pre c (cut_lines cs))
        (ap (λ (p : LineAccumulator × List Frame). join p.1 (process_bytes p.0 cs))
            (process_byte-inside c a pre n)
          ∙ process_bytes-from cs a (pre ++ (c ∷ [])) v)
  | inl e ↦
      let here : c ≡ 13 = ground (arith, e) in
      let ended = end_line (record a { buf = line_text pre }) in
      let (w, nil) = end_line-Fits a (line_text pre) v in
      let rest =
        ap (λ b. process_bytes (record ended.0 { buf = b }) cs) nil
        ∙ process_bytes-from cs ended.0 [] w
        ∙ ap (read_lines ended.0) (go_on-nil (cut_lines cs)) in
      rw e (
        ap (λ (p : LineAccumulator × List Frame). join p.1 (process_bytes p.0 cs))
          (ap (process_byte (record a { buf = line_text pre })) here ∙ at_end pre a)
        ∙ ap (join ended.1) rest
        ∙ end_line-text a (line_text pre) (texts (cut_lines cs).0) (line_text (cut_lines cs).1)
        ∙ ap
            (λ l.
              read_texts a (if_text (line_text l) (texts (cut_lines cs).0))
                (line_text (cut_lines cs).1))
            (sym (append-nil pre)))
]

-- processBytes of any bytes, from counters below 2 ^ 32 and any buffer that holds the text of an
-- unfinished line `pre`, cuts the stream of `pre` and those bytes at the carriage returns. Of each
-- line it reads the first 255 bytes that are no newline; the lines that have any are counted, each
-- is counted as decoded or as failed by what decode makes of it, in 32 bits, and the frames are
-- handed on in order. The buffer holds the text of the bytes behind the last carriage return.
pub process_bytes-lines :
    (a : LineAccumulator) (pre bytes : List ℕ)
    → a.buf ≡ line_text pre
    → a.lines_total < u32_mod
    → a.lines_decoded < u32_mod
    → a.lines_failed < u32_mod
    → process_bytes a bytes ≡ read_lines a (go_on pre (cut_lines bytes))
process_bytes-lines a pre bytes e t d f =
    ap (λ b. process_bytes (record a { buf = b }) bytes) e
    ∙ process_bytes-from bytes a pre (record { total = t; decoded = d; failed = f })
