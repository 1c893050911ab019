-- ===== src/Client/CallTests.antt =====
-- The theorems on the calls of a client, on a reader with one packet and a driver that takes every
-- call.
use i_can.Common.{
  ℕ, ◌+◌, ◌≡◌, refl, true, false, none, some, List, [], ◌∷◌, replicate, take, drop, All, arith,
}
use i_can.Common.Outcome.{ok}
use i_can.Client.{Client, ReaderSlot, drain_rx_frames}
use i_can.Client.Reading.{read_loop, wait_loop, Waiting}
use i_can.Client.Calls.{Driver, Connection, not_connected, close, start, stop, Writer}
use i_can.Client.Fifo.{Queued}
use i_can.Client.Frames.{usable}
use i_can.Client.Handles.{new_slot, new_client}
use i_can.Client.Reads.{SlotHolds, read_loop_lem}
use i_can.Client.Waits.{Ended, wait_loop-ends}
use i_can.Client.Drain.{deliver_all, drain_rx_frames_lem}
use i_can.Client.Control.{close_lem}
use i_can.Client.Writers.{Counted, written, written-Counted}
use i_can.Samples.{classic, header, received, header-HoldsPackets, rx-IsCapacity}

abbrev reader : ReaderSlot
reader = record new_slot {
  fifo = λ i. received;
  head = 1;
  tail = 0;
  channel = some 1;
  active = true;
}

abbrev readers : List ReaderSlot
readers = reader ∷ replicate 7 new_slot

readers-SlotHolds : SlotHolds readers 0 (received ∷ []) readers
readers-SlotHolds = record {
  slot = reader;
  there = refl;
  queued = record { tail_in = omega arith; bounded = omega arith; head_at = refl; stored = refl };
  others = λ j n. refl;
}

read_loop_lem_example :
    ((read_loop 5 readers (some 0)).0 ≡ take 5 (received ∷ []))
    × SlotHolds readers 0 (drop 5 (received ∷ [])) (read_loop 5 readers (some 0)).1
read_loop_lem_example = read_loop_lem 5 readers readers 0 (received ∷ []) readers-SlotHolds

-- The clock moves on by one with each look, and the first wait brings the packet of the sample
-- header to the ring.
abbrev arriving : Waiting
arriving = record {
  numer = 1;
  denom = 1;
  now = 100;
  clock = λ n. 100 + n;
  arrive = λ n c. record c { ring_header = some header };
}

abbrev Any : Client → Type 0
Any c = Unit

arriving_drains :
    (n : ℕ) (c : Client)
    → Any c
    → (c' : Client) × (k : ℕ) × (drain_rx_frames (arriving.arrive n c) ≡ ok (c', k)) × Any c'
arriving_drains n c g =
    let sent = record c { ring_header = some header } in
    (
      record sent {
        ring_header =
            some (record header { rx = record { head = header.rx.head; tail = header.rx.head } });
        readers = deliver_all (received ∷ []) c.readers;
      },
      1,
      drain_rx_frames_lem sent header (received ∷ []) refl rx-IsCapacity header-HoldsPackets,
      tt,
    )

abbrev hungry : Client
hungry = record new_client { readers = record reader { head = 0 } ∷ replicate 7 new_slot }

wait_loop-ends_example :
    (c' : Client) × (wait_loop 6 arriving 0 105 hungry (some 0) ≡ ok c')
    × Ended arriving 105 (some 0) Any arriving_drains 5 0 hungry c'
wait_loop-ends_example =
    wait_loop-ends arriving 105 (some 0) Any arriving_drains 5 hungry tt (omega arith)

abbrev client : Client
client = record new_client { ring_header = some header; readers = readers }

abbrev connection : Connection
connection = record {
  client = client;
  is_connected = true;
  is_open = false;
  linked = true;
  last_error = none;
}

abbrev willing : Driver
willing call = true

close_lem_example :
    (let c = (close connection 1).0 in
      All (λ r. Queued r []) c.client.readers
      × (usable c.client.ring_header ≡ none)
      × (start willing c 0 500000 ≡ record {
        state = record c { last_error = some not_connected };
        calls = [];
        done = false;
      })
      × ((stop c 0).calls ≡ [])
      × ((close c 0).1 ≡ []))
close_lem_example = close_lem willing connection 1 0 500000

abbrev writer : Writer
writer = record { client = client; tx_id_last_seen = λ k. []; is_tx_registered = false }

written-Counted_example : Counted writer 1 (written writer 1 ((classic, 10) ∷ (classic, 20) ∷ []))
written-Counted_example = written-Counted writer 1 ((classic, 10) ∷ (classic, 20) ∷ [])
