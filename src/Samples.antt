-- ===== src/Samples.antt =====
-- Frames, packets and a shared header on which the theorems are tried. The capacities are those
-- that the driver stores in the header.
use i_can.Common.{
  ℕ, zero, suc, ◌-◌, List, [], ◌∷◌, refl, ltb, if◌then◌else◌, get_or, replicate, arith,
}
use i_can.Common.{All, ◌<◌, ℕ}
use i_can.Common.Words.{IsByte}
use i_can.Can.{Frame, IsFrame, Packet, IsPacket}
use i_can.Ring.{
  read_at, Header, CodecCounters, ring_magic, shared_rx_capacity, shared_tx0_capacity,
  shared_tx1_capacity,
}
use i_can.Ring.Queue.{IsCapacity}
use i_can.Ring.Transmit.{tx_entries, HoldsFrames}
use i_can.Ring.Receive.{rx_entries, HoldsPackets}

-- A classic frame of two bytes, and an extended FD frame of twelve on channel 1.
abbrev pub classic : Frame
classic = record {
  can_id = 0x123;
  len = 2;
  flags = 0;
  res0 = 0;
  res1 = 0;
  payload = 17 ∷ 34 ∷ replicate 62 0;
}

abbrev pub flexible : Frame
flexible = record {
  can_id = 0x80012345;
  len = 12;
  flags = 4;
  res0 = 1;
  res1 = 0;
  payload = 255 ∷ 1 ∷ replicate 62 7;
}

replicate-IsByte : (n b : ℕ) → b < 256 → All IsByte (replicate n b)
replicate-IsByte zero b h = tt
replicate-IsByte (suc n) b h = (h, replicate-IsByte n b h)

pub classic-IsFrame : IsFrame classic
classic-IsFrame = record {
  id_fits = omega arith;
  len_fits = omega arith;
  flags_fit = omega arith;
  res0_fits = omega arith;
  res1_fits = omega arith;
  payload_size = refl;
  payload_bytes = (omega arith, (omega arith, replicate-IsByte 62 0 (omega arith)));
}

pub flexible-IsFrame : IsFrame flexible
flexible-IsFrame = record {
  id_fits = omega arith;
  len_fits = omega arith;
  flags_fit = omega arith;
  res0_fits = omega arith;
  res1_fits = omega arith;
  payload_size = refl;
  payload_bytes = (omega arith, (omega arith, replicate-IsByte 62 7 (omega arith)));
}

abbrev pub received : Packet
received = record { timestamp_us = 1000000; frame = flexible }

pub received-IsPacket : IsPacket received
received-IsPacket = record { time_fits = omega arith; frame_ok = flexible-IsFrame }

-- The RX ring holds one packet, tx0 two frames, and tx1 one.
abbrev pub waiting0 : List Frame
waiting0 = classic ∷ flexible ∷ []

abbrev pub waiting1 : List Frame
waiting1 = flexible ∷ []

abbrev pub memory : ℕ → ℕ
memory i =
    if ltb i 262144
    then get_or (rx_entries (received ∷ [])) i 0
    else if ltb i 278528
    then get_or (tx_entries waiting0) (i - 262144) 0
    else get_or (tx_entries waiting1) (i - 278528) 0

abbrev no_counts : CodecCounters
no_counts = record {
  echo_count = 0;
  overrun_count = 0;
  calibration_count = 0;
  error_count = 0;
  status_count = 0;
  truncated_count = 0;
  zero_sentinel_count = 0;
  transfer_seq = 0;
  transfer_len = 0;
  msgs_parsed = 0;
  zeros_hit = 0;
  dbg_head = [];
}

abbrev pub header : Header
header = record {
  magic = ring_magic;
  layout_version = 5;
  rx_capacity = shared_rx_capacity;
  tx0_capacity = shared_tx0_capacity;
  rx_produce_count = 1;
  rx_dropped = 0;
  tx_drain_count = 0;
  tx_dropped = 0;
  protocol_id = 0;
  channel_count = 2;
  codec = no_counts;
  rx = record { head = 82; tail = 0 };
  tx0 = record { head = 148; tail = 0 };
  tx1 = record { head = 74; tail = 0 };
  tx1_capacity = shared_tx1_capacity;
  bytes = memory;
}

pub rx-IsCapacity : IsCapacity 262144
rx-IsCapacity = record {
  rounds = 16384;
  divides = refl;
  small = omega arith;
  positive = omega arith;
}

pub tx-IsCapacity : IsCapacity 16384
tx-IsCapacity = record {
  rounds = 262144;
  divides = refl;
  small = omega arith;
  positive = omega arith;
}

pub header-HoldsPackets : HoldsPackets 0 header (received ∷ [])
unfolding read_at
header-HoldsPackets = record {
  bytes = record { tail_fits = omega arith; fits = omega arith; head_is = refl; bytes_are = refl };
  packets = (received-IsPacket, tt);
}

pub header-HoldsFrames : HoldsFrames 262144 16384 header header.tx0 waiting0
unfolding read_at
header-HoldsFrames = record {
  bytes = record { tail_fits = omega arith; fits = omega arith; head_is = refl; bytes_are = refl };
  frames = (classic-IsFrame, (flexible-IsFrame, tt));
}

pub header-HoldsFrames1 : HoldsFrames 278528 16384 header header.tx1 waiting1
unfolding read_at
header-HoldsFrames1 = record {
  bytes = record { tail_fits = omega arith; fits = omega arith; head_is = refl; bytes_are = refl };
  frames = (flexible-IsFrame, tt);
}
