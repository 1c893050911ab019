-- ===== src/Slcan/Stream.antt =====
-- LineAccumulator on a stream of bytes: a stream of encoded frames gives those frames.
use i_can.Common.{
  ℕ, ◌+◌, ◌≤◌, ◌<◌, ◌≡◌, ◌≢◌, refl, sym, ap, ap₂, ◌∙◌, false, some, List, [], ◌∷◌, ◌++◌, map,
  append_assoc, append-nil, ◌==◌, length, length-append, All, arith, lt→ltb,
}
use i_can.Common.Words.{u32_mod, add32}
use i_can.Can.{Frame, IsFrame, is_fdf}
use i_can.Slcan.Text.{encode, decode}
use i_can.Slcan.Lines.{LineAccumulator, count_line, end_line, process_byte, process_bytes}
use i_can.Slcan.RoundTrip.{IsLength, IsText, IsTextOf, kept, decode-encode}

-- processBytes on one transfer and then on another is processBytes on the bytes of both: the
-- accumulator ends in the same state, and the frames of the second follow those of the first.
pub process_bytes-append :
    (xs ys : List ℕ) (a : LineAccumulator)
    → process_bytes a (xs ++ ys) ≡ (
        let (a', first) = process_bytes a xs in
        let (a'', second) = process_bytes a' ys in (a'', first ++ second))
unfolding process_bytes
process_bytes-append [] ys a = refl
process_bytes-append (x ∷ xs) ys a = rw (process_bytes-append xs ys (process_byte a x).0) (
    ap (λ l. ((process_bytes (process_bytes (process_byte a x).0 xs).0 ys).0, l))
      (sym (append_assoc (process_byte a x).1 _ _)))

kept_byte :
    (c : ℕ) (a : LineAccumulator)
    → c ≢ 13
    → c ≢ 10
    → length a.buf < 255
    → process_byte a c ≡ (record a { buf = a.buf ++ (c ∷ []) }, [])
unfolding process_byte
kept_byte c a n m l =
    let cr : (c == 13) ≡ false = ground arith in
    let lf : (c == 10) ≡ false = ground arith in rw (cr, lf, lt→ltb (length a.buf) 255 l)

-- Plain text is collected in the buffer, as long as there is room.
process_bytes-text :
    (text : List ℕ) (a : LineAccumulator)
    → All IsText text
    → length a.buf + length text ≤ 255
    → process_bytes a text ≡ (record a { buf = a.buf ++ text }, [])
unfolding process_bytes
process_bytes-text [] a h l = ap (λ b. (record a { buf = b }, [])) (sym (append-nil a.buf))
process_bytes-text (c ∷ text) a ((n13, n10), h) l =
    rw
      (
        kept_byte c a n13 n10 (omega arith),
        process_bytes-text text (record a { buf = a.buf ++ (c ∷ []) }) h
            (omega (arith, length-append a.buf (c ∷ []))),
      )
      (ap (λ b. (record a { buf = b }, [])) (append_assoc a.buf (c ∷ []) text))

-- A carriage return hands on the frame of the line before it.
process_byte-end :
    (a : LineAccumulator) (text : List ℕ) (f : Frame)
    → decode text ≡ some f
    → process_byte (record a { buf = text }) 13 ≡ (
      record a {
        buf = [];
        lines_total = add32 a.lines_total 1;
        lines_decoded = add32 a.lines_decoded 1;
      },
      f ∷ [],
    )
unfolding process_byte end_line count_line
process_byte-end a [] f e = unfold decode in cc
process_byte-end a (c ∷ text) f e = ap (count_line (record a { buf = c ∷ text })) e

abbrev pub encoded : List Frame → List ℕ
encoded [] = []
encoded (f ∷ fs) = encode f 256 ++ encoded fs

-- The accumulator after `n` good lines.
abbrev pub after : LineAccumulator → ℕ → LineAccumulator
after a n = record a {
  buf = [];
  lines_total = add32 a.lines_total n;
  lines_decoded = add32 a.lines_decoded n;
}

process_bytes-line :
    (a : LineAccumulator) (text : List ℕ) (f : Frame)
    → a.buf ≡ []
    → IsTextOf f text
    → process_bytes a (encode f 256) ≡ (after a 1, kept f ∷ [])
process_bytes-line a text f e t =
    ap (process_bytes a) t.written
    ∙ process_bytes-append text (13 ∷ []) a
    ∙ ap (λ r. ((process_bytes r.0 (13 ∷ [])).0, r.1 ++ (process_bytes r.0 (13 ∷ [])).1))
        (process_bytes-text text a t.plain (omega (arith, t.short, ap length e))
          ∙ ap (λ b. (record a { buf = b ++ text }, [])) e)
    ∙ unfold process_bytes in (ap (λ r. (r.0, r.1 ++ [])) (process_byte-end a text (kept f) t.read))

-- From an empty buffer, a stream of encoded frames, whose lengths the text can carry, gives what
-- the text keeps of each of them, in order; each counts as one line that was decoded, and the
-- buffer is empty again.
pub process_bytes-encoded :
    (fs : List Frame) (a : LineAccumulator)
    → a.buf ≡ []
    → a.lines_total < u32_mod
    → a.lines_decoded < u32_mod
    → All (λ f. IsFrame f × IsLength (is_fdf f.flags) f.len) fs
    → process_bytes a (encoded fs) ≡ (after a (length fs), map kept fs)
process_bytes-encoded [] a e t d h =
    unfold process_bytes in
    (let p : a.lines_total ≡ add32 a.lines_total 0 = omega arith in
      let q : a.lines_decoded ≡ add32 a.lines_decoded 0 = omega arith in
      λ i. (record a { buf = e i; lines_total = p i; lines_decoded = q i }, []))
process_bytes-encoded (f ∷ fs) a e t d ((v, l), h) =
    let (text, is) = decode-encode f v l in
    process_bytes-append (encode f 256) (encoded fs) a
    ∙ ap (λ r. ((process_bytes r.0 (encoded fs)).0, r.1 ++ (process_bytes r.0 (encoded fs)).1))
        (process_bytes-line a text f e is)
    ∙ ap (λ r. (r.0, kept f ∷ r.1))
        (process_bytes-encoded fs (after a 1) refl (omega arith) (omega arith) h)
    ∙ ap₂ (λ n m. (record a { buf = []; lines_total = n; lines_decoded = m }, kept f ∷ map kept fs))
        (omega arith) (omega arith)
