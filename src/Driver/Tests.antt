-- ===== src/Driver/Tests.antt =====
-- The theorems on the driver at concrete inputs: a PCAN driver with the sample header, and a system
-- that grants every request.
use i_can.Common.{
  ℕ, suc, true, false, ◌≡◌, ◌<◌, ◌≤◌, ◌+◌, ◌⊎◌, refl, List, [], ◌∷◌, ◌++◌, none, some, replicate,
  length, arith, All,
}
use i_can.Common.Outcome.{ok}
use i_can.Common.IoReturn.{IoReturn, success}
use i_can.Ring.{Header}
use i_can.Pcan.Codec.{ring0, ring1}
use i_can.Driver.State.{Driver, Pipe, Transfers, pcan}
use i_can.Driver.Slots.{
  RxSlotState, free, inflight, BundledFn, pending, submit_pending_reads, no_reads, mark_inflight,
}
use i_can.Driver.Runs.{FirstRun, IsBusy, pending_lem}
use i_can.Driver.Marks.{IsCounted}
use i_can.Driver.Reads.{IsAccepting, Reached-IsCounted, submit_keeps_reading}
use i_can.Driver.Reads as Reads
use i_can.Driver.Setup.{new_channels, new_counts}
use i_can.Driver.Drains.{drain_tx_ring_of}
use i_can.Driver.Fronts.{RingHolds}
use i_can.Driver.Dual.{IsDual, drain_tx_ring_dual}
use i_can.Driver.Answers.{Tells}
use i_can.Driver.Fallback.{IsFallback, drain_tx_ring_fallback}
use i_can.Samples.{
  header, header-HoldsFrames, header-HoldsFrames1, tx-IsCapacity, classic, flexible,
}

abbrev pub takes_all : BundledFn
takes_all start count = (success, count)

-- Slots 14, 15, 0 and 1 are free: only 0 and 1 are submitted.
abbrev round_the_end : List RxSlotState
round_the_end = replicate 2 free ++ (replicate 12 inflight ++ replicate 2 free)

pending_round_the_end : pending round_the_end ≡ some (0, 2)
unfolding pending
pending_round_the_end = refl

pending_example :
    (All IsBusy round_the_end × (pending round_the_end ≡ none))
    ⊎ ((pre : List RxSlotState) × (n : ℕ) × FirstRun round_the_end pre (suc n)
        × (length pre + suc n ≤ 16)
        × (pending round_the_end ≡ some (length pre, suc n)))
pending_example = pending_lem round_the_end (omega arith)

all_submitted :
    (submit_pending_reads takes_all true no_reads).1
    ≡ record { states = replicate 16 inflight; in_flight = 16 }
unfolding submit_pending_reads pending mark_inflight
all_submitted = refl

Reached-IsCounted_example : IsCounted (submit_pending_reads takes_all true no_reads).1
Reached-IsCounted_example =
    Reached-IsCounted
      (Reads.next Reads.start (Reads.submit takes_all true (λ start count. omega arith) refl))

submit_keeps_reading_example : 0 < (submit_pending_reads takes_all true no_reads).1.in_flight
submit_keeps_reading_example = submit_keeps_reading takes_all Reads.start (record {
  bundled = λ start n. omega arith;
  takes = λ start n h. h;
  succeeds = λ start n. refl;
})

abbrev pub granting : Transfers
granting = record {
  bulk_out = λ bytes. success;
  data_out2 = λ bytes. success;
  command_out = λ bytes. success;
  maps_buffer2 = λ n. true;
  create_cmd_buffer = success;
}

abbrev pub pipe : ℕ → Pipe
pipe endpoint = record { interface = 0; endpoint = endpoint }

-- A PCAN driver with all of its endpoints.
abbrev pub dual_driver : Driver
dual_driver = record {
  has_device = true;
  control_interface = some 0;
  data_interface = some 0;
  bulk_in_pipe = some (pipe 0x82);
  bulk_out_pipe = some (pipe 0x02);
  command_out_pipe = some (pipe 0x01);
  command_in_pipe = some (pipe 0x81);
  data_out_pipe2 = some (pipe 0x03);
  has_read_action = true;
  slots = no_reads;
  has_tx_buffer = true;
  has_write_action = true;
  tx_in_flight = false;
  has_tx_buffer2 = true;
  has_write_action2 = true;
  tx_in_flight2 = false;
  has_cmd_buffer = false;
  cmd_in_flight = false;
  ring_header = some header;
  has_user_client = true;
  codec = pcan new_channels new_counts;
  detected_protocol = 3;
  is_configured = true;
  is_running = true;
  baud_rate = 115200;
  matched_on_interface = true;
  device_opened = true;
  control_interface_opened = true;
  data_interface_opened = true;
  read_complete_count = 0;
  read_complete_bytes = 0;
}

dual_driver-IsDual : IsDual granting dual_driver
dual_driver-IsDual = record {
  channels = new_channels;
  counts = new_counts;
  out0 = pipe 0x02;
  out1 = pipe 0x03;
  codec_is = refl;
  protocol = refl;
  configured = refl;
  pipe0 = refl;
  pipe1 = refl;
  buffer1 = refl;
  action1 = refl;
  mapped1 = λ n h. refl;
  idle0 = refl;
  idle1 = refl;
}

drain_tx_ring_dual_example :
    (ret : IoReturn) × (d' : Driver) × (h' : Header) × (drain_tx_ring_of granting dual_driver
      ≡ ok (ret, d'))
    × Tells success success ret
    × (d'.ring_header ≡ some h')
    × RingHolds ring0 h' (flexible ∷ [])
    × RingHolds ring1 h' []
    × (d'.tx_in_flight ≡ true)
    × (d'.tx_in_flight2 ≡ true)
drain_tx_ring_dual_example =
    drain_tx_ring_dual granting dual_driver header classic flexible (flexible ∷ []) []
      dual_driver-IsDual refl tx-IsCapacity tx-IsCapacity header-HoldsFrames header-HoldsFrames1

-- The same driver without the second data endpoint.
abbrev single_driver : Driver
single_driver = record dual_driver { data_out_pipe2 = none; has_tx_buffer2 = false }

single_driver-IsFallback : IsFallback single_driver
single_driver-IsFallback = record {
  channels = new_channels;
  counts = new_counts;
  out0 = pipe 0x02;
  codec_is = refl;
  configured = refl;
  pipe0 = refl;
  pipe1 = refl;
  idle0 = refl;
}

drain_tx_ring_fallback_example :
    (d' : Driver) × (h' : Header) × (drain_tx_ring_of granting single_driver ≡ ok (success, d'))
    × (d'.ring_header ≡ some h')
    × (d'.tx_in_flight ≡ true)
    × RingHolds ring0 h' (flexible ∷ [])
    × RingHolds ring1 h' (flexible ∷ [])
drain_tx_ring_fallback_example =
    drain_tx_ring_fallback granting single_driver header classic (flexible ∷ []) (flexible ∷ [])
      single_driver-IsFallback refl tx-IsCapacity header-HoldsFrames header-HoldsFrames1 refl
