-- ===== src/TxPath/Tests.antt =====
-- The path on a header with frames in both rings: a write and two drains.
use i_can.Common.{◌≡◌, refl, some, List, [], ◌∷◌}
use i_can.Common.Outcome.{ok}
use i_can.Common.IoReturn.{success}
use i_can.Codec.{SendFn}
use i_can.Client.{Client}
use i_can.TxPath.{Call, write, drain, run, queue_run}
use i_can.TxPath.Refinement.{Ready, run-refines}
use i_can.Samples.{
  classic, classic-IsFrame, header, header-HoldsFrames, header-HoldsFrames1, tx-IsCapacity,
  waiting0, waiting1,
}

abbrev willing : SendFn
willing bytes = success

abbrev client : Client
client = record {
  ring_header = some header;
  readers = [];
  tx_write_count = 0 ∷ 0 ∷ [];
  tx_writer_count = 0 ∷ 0 ∷ [];
}

client-Ready : Ready 16384 waiting0 waiting1 client
client-Ready = record {
  header = header;
  mapped = refl;
  magic_ok = refl;
  cap_is = refl;
  sound0 = tx-IsCapacity;
  sound1 = tx-IsCapacity;
  both = record { ring0 = header-HoldsFrames; ring1 = header-HoldsFrames1 };
}

abbrev calls : List Call
calls = write classic ∷ drain ∷ drain ∷ []

run-refines_example :
    (c' : Client) × (run willing client calls ≡ ok (c', (queue_run willing 16384 waiting0 calls).1))
    × Ready 16384 (queue_run willing 16384 waiting0 calls).0 waiting1 c'
run-refines_example =
    run-refines willing 16384 waiting0 waiting1 client calls client-Ready
      (classic-IsFrame, (tt, (tt, tt)))
