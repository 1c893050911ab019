-- ===== src/Client/Tests.antt =====
-- The theorems on the client, on a header with packets and frames in its rings.
use i_can.Common.{get_elem?, ◌≡◌, ◌≢◌, refl, true, false, none, some, [], ◌∷◌, replicate, arith}
use i_can.Common.Outcome.{ok, stuck}
use i_can.Client.{Client, ReaderSlot, drain_rx_frames, write_tx_frame}
use i_can.Client.Fifo.{Queued}
use i_can.Client.Send.{Wrote, write_tx_frame_lem}
use i_can.Client.Rounds.{drain_rx_frames-ne-stuck}
use i_can.Client.Delivery.{drain_rx_frames-Queued}
use i_can.Samples.{
  header, received, flexible, flexible-IsFrame, header-HoldsPackets, header-HoldsFrames,
  header-HoldsFrames1, rx-IsCapacity, tx-IsCapacity, waiting0, waiting1,
}

abbrev idle : ReaderSlot
idle = record {
  fifo = λ i. received;
  head = 0;
  tail = 0;
  epoch = 0;
  channel = none;
  active = false;
}

-- A reader on channel 1 with one packet.
abbrev reader : ReaderSlot
reader = record {
  fifo = λ i. received;
  head = 3;
  tail = 2;
  epoch = 3;
  channel = some 1;
  active = true;
}

abbrev client : Client
client = record {
  ring_header = some header;
  readers = reader ∷ replicate 7 idle;
  tx_write_count = 0 ∷ 0 ∷ [];
  tx_writer_count = 0 ∷ 0 ∷ [];
}

reader-Queued : Queued reader (received ∷ [])
reader-Queued = record {
  tail_in = omega arith;
  bounded = omega arith;
  head_at = refl;
  stored = refl;
}

drain_rx_frames-ne-stuck_example : drain_rx_frames client ≢ stuck
drain_rx_frames-ne-stuck_example =
    drain_rx_frames-ne-stuck client header refl (omega arith) (omega arith)

write_tx_frame_example :
    Wrote client header 1 waiting0 waiting1 flexible (write_tx_frame client flexible 1)
write_tx_frame_example =
    write_tx_frame_lem client header 1 waiting0 waiting1 flexible refl tx-IsCapacity tx-IsCapacity
      (record { ring0 = header-HoldsFrames; ring1 = header-HoldsFrames1 }) flexible-IsFrame

drain_rx_frames-Queued_example :
    (c' : Client) × (r' : ReaderSlot) × (drain_rx_frames client ≡ ok (c', 1))
    × (get_elem? c'.readers 0 ≡ some r')
    × Queued r' (received ∷ received ∷ [])
drain_rx_frames-Queued_example =
    drain_rx_frames-Queued client header (received ∷ []) 0 reader 1 (received ∷ []) refl
      rx-IsCapacity header-HoldsPackets refl refl refl reader-Queued (omega arith)
