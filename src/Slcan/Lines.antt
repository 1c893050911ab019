-- ===== src/Slcan/Lines.antt =====
-- LineAccumulator: raw bytes from the device are cut into lines, and each line is decoded.
use i_can.Common.{
  ℕ, not, ◌&&◌, Option, none, some, List, [], ◌∷◌, ◌++◌, ltb, ◌==◌, if◌then◌else◌, length,
}
use i_can.Common.Words.{add32}
use i_can.Can.{Frame}
use i_can.Slcan.Text.{carriage_return, decode}

-- The bytes of `buf_` that are in use, and the counters.
pub record LineAccumulator : Type 0 where
  pub buf : List ℕ
  pub lines_total : ℕ
  pub lines_decoded : ℕ
  pub lines_failed : ℕ

-- LineAccumulator::reset
abbrev pub reset : LineAccumulator → LineAccumulator
reset a = record { buf = []; lines_total = 0; lines_decoded = 0; lines_failed = 0 }

-- A line is counted by what decode made of it, and the buffer is empty again.
unfoldable pub count_line : LineAccumulator → Option Frame → LineAccumulator × List Frame
count_line a (some f) = (
  record a {
    buf = [];
    lines_total = add32 a.lines_total 1;
    lines_decoded = add32 a.lines_decoded 1;
  },
  f ∷ [],
)
count_line a none = (
  record a { buf = []; lines_total = add32 a.lines_total 1; lines_failed = add32 a.lines_failed 1 },
  [],
)

-- processBytes at the end of a line.
unfoldable pub end_line : LineAccumulator → LineAccumulator × List Frame
end_line a = elim a.buf [
  | [] ↦ (record a { buf = [] }, [])
  | b ∷ bs ↦ count_line a (decode (b ∷ bs))
]

-- The body of the loop of processBytes. `buf_` has 256 bytes, and takes 255.
unfoldable pub process_byte : LineAccumulator → ℕ → LineAccumulator × List Frame
process_byte a ch =
    if ch == carriage_return
    then end_line a
    else if not (ch == 10) && ltb (length a.buf) 255
    then (record a { buf = a.buf ++ (ch ∷ []) }, [])
    else (a, [])

-- LineAccumulator::processBytes, with the frames handed to `onFrame`, in order.
unfoldable pub process_bytes : LineAccumulator → List ℕ → LineAccumulator × List Frame
process_bytes a [] = (a, [])
process_bytes a (ch ∷ bytes) =
    let (a', here) = process_byte a ch in
    let (a'', later) = process_bytes a' bytes in (a'', here ++ later)
