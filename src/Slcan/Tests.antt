-- ===== src/Slcan/Tests.antt =====
-- The theorems on the SLCAN codec, on two frames and on a ring that holds them.
use i_can.Common.{ℕ, ◌≡◌, refl, false, true, List, [], ◌∷◌, map, arith}
use i_can.Common.Outcome.{ok}
use i_can.Common.IoReturn.{success}
use i_can.Can.{can_fd_dlc2len, can_fd_len2dlc}
use i_can.Codec.{SendFn, DrainResult}
use i_can.Slcan.{LineAccumulator, process_bytes, drain_tx}
use i_can.Slcan.RoundTrip.{IsTextOf, IsLength, kept, decode-encode}
use i_can.Slcan.Stream.{encoded, after, process_bytes-encoded}
use i_can.Slcan.Cutting.{read_lines, go_on, cut_lines, process_bytes-lines}
use i_can.Slcan.Drain.{Sent, drain_tx_sends}
use i_can.Samples.{
  classic, flexible, classic-IsFrame, flexible-IsFrame, header, header-HoldsFrames, tx-IsCapacity,
  waiting0, waiting1,
}

abbrev empty_line : LineAccumulator
empty_line = record { buf = []; lines_total = 0; lines_decoded = 0; lines_failed = 0 }

flexible-IsLength : IsLength true 12
unfolding can_fd_dlc2len can_fd_len2dlc
flexible-IsLength = refl

decode-encode_example : (text : List ℕ) × IsTextOf flexible text
decode-encode_example = decode-encode flexible flexible-IsFrame flexible-IsLength

process_bytes-encoded_example :
    process_bytes empty_line (encoded waiting0) ≡ (after empty_line 2, map kept waiting0)
process_bytes-encoded_example =
    process_bytes-encoded waiting0 empty_line refl (omega arith) (omega arith)
      ((classic-IsFrame, omega arith), ((flexible-IsFrame, flexible-IsLength), tt))

-- `t1` and a newline came before; the rest of the line, a line that is no frame, and a part of one.
abbrev begun : LineAccumulator
begun = record empty_line { buf = b't' ∷ b'1' ∷ [] }

abbrev begun_bytes : List ℕ
begun_bytes = b'2' ∷ b'3' ∷ b'0' ∷ 13 ∷ 10 ∷ b'q' ∷ 13 ∷ b't' ∷ []

process_bytes-lines_example :
    process_bytes begun begun_bytes
    ≡ read_lines begun (go_on (b't' ∷ b'1' ∷ 10 ∷ []) (cut_lines begun_bytes))
process_bytes-lines_example =
    process_bytes-lines begun (b't' ∷ b'1' ∷ 10 ∷ []) begun_bytes refl (omega arith) (omega arith)
      (omega arith)

abbrev willing : SendFn
willing bytes = success

drain_tx_sends_example :
    (r : DrainResult) × (drain_tx willing header false ≡ ok r) × Sent willing header waiting0 r
drain_tx_sends_example =
    drain_tx_sends willing header tx-IsCapacity classic waiting1 header-HoldsFrames
