-- ===== src/Ring/Tests.antt =====
-- The theorems on the shared rings, on a header with packets and frames in its rings.
use i_can.Common.{◌+◌, ◌*◌, ◌≤◌, ◌<◌, ◌≡◌, ◌⊎◌, true, false, [], ◌∷◌}
use i_can.Common.Outcome.{ok, ◌>>=◌}
use i_can.Ring.{write_rx_frame, read_tx_frame}
use i_can.Ring.Receive.{HoldsPackets, write_rx_frame_lem}
use i_can.Ring.Transmit.{parse_entry, count_dropped, tx_entries, read_tx_frame_parses}
use i_can.Samples.{
  header, received, received-IsPacket, header-HoldsPackets, header-HoldsFrames, rx-IsCapacity,
  tx-IsCapacity, waiting0,
}

write_rx_frame_example :
    (262144 < 82 * (1 + 1))
      × (write_rx_frame header 0 received.frame 1000000 ≡ (record header { rx_dropped = 1 }, false))
    ⊎ (82 * (1 + 1) ≤ 262144)
      × (let (h', done) = write_rx_frame header 0 received.frame 1000000 in
          (done ≡ true)
          × HoldsPackets 0 h' (received ∷ received ∷ [])
          × (h'.rx_produce_count ≡ 2)
          × (h'.rx_dropped ≡ 0))
write_rx_frame_example =
    write_rx_frame_lem header rx-IsCapacity (received ∷ []) received header-HoldsPackets
      received-IsPacket

read_tx_frame_parses_example :
    read_tx_frame header header.tx0 262144 16384 0
    ≡ (parse_entry (tx_entries waiting0) >>= λ r. ok (r, count_dropped header r))
read_tx_frame_parses_example =
    read_tx_frame_parses tx-IsCapacity header header.tx0 (tx_entries waiting0)
      header-HoldsFrames.bytes
