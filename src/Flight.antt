-- ===== src/Flight.antt =====
-- FlightWindow of ican/perf/FlightWindow.hpp. Each of the three threads stores to its own fields, so
-- the operations of the threads are functions on one state, and a run is a sequence of them. The
-- bitmap is a map from the index of a word to the word. deliveryRate returns the two numbers of
-- which the code makes a percentage.
use i_can.Common.{
  ℕ, zero, suc, ◌+◌, ◌-◌, ◌*◌, ◌/◌, ◌%◌, ◌^◌, ◌<◌, ◌≤◌, ◌≡◌, Bool, ◌&&◌, Option, none, some, ltb,
  leb, ◌==◌, if◌then◌else◌,
}
use i_can.Common.Words.{u64_mod, add64, sub64, set_bit}
use i_can.Common.Bits.{popcount}
mod Tests
pub mod Steps
pub mod Tracking
pub mod Reap

abbrev pub capacity : ℕ
capacity = 16384

abbrev pub grace_entries : ℕ
grace_entries = 8000

pub record FlightWindow : Type 0 where
  pub head_seq : ℕ
  pub ack_bitmap : ℕ → ℕ
  pub base_seq : ℕ
  pub total_sent : ℕ
  pub total_confirmed : ℕ
  pub rx_calls : ℕ
  pub rx_stale_rejects : ℕ
  pub rx_reaped_rejects : ℕ

-- A window before its first use, and what reset makes of any window.
abbrev pub reset : FlightWindow → FlightWindow
reset w = record {
  head_seq = 0;
  ack_bitmap = λ i. 0;
  base_seq = 0;
  total_sent = 0;
  total_confirmed = 0;
  rx_calls = 0;
  rx_stale_rejects = 0;
  rx_reaped_rejects = 0;
}

unfoldable pub on_tx_sent : ℕ → FlightWindow → FlightWindow
on_tx_sent seq w = record w { head_seq = add64 seq 1 }

-- The bitmap with a word replaced.
unfoldable pub put_word : ℕ → ℕ → (ℕ → ℕ) → ℕ → ℕ
put_word i v m j = if j == i then v else m j

unfoldable pub on_rx_received : ℕ → FlightWindow → FlightWindow
on_rx_received seq w =
    let v = record w { rx_calls = add64 w.rx_calls 1 } in
    let idx = seq % capacity in
    if ltb seq w.head_seq && ltb capacity (sub64 w.head_seq seq)
    then record v { rx_stale_rejects = add64 w.rx_stale_rejects 1 }
    else if ltb seq w.base_seq
    then record v { rx_reaped_rejects = add64 w.rx_reaped_rejects 1 }
    else record v {
      ack_bitmap = put_word (idx / 64) (set_bit (idx % 64) (w.ack_bitmap (idx / 64))) w.ack_bitmap;
    }

-- The condition of the loop of reap, on the head that reap read.
abbrev pub can_reap : ℕ → FlightWindow → Bool
can_reap head w = leb (add64 (add64 w.base_seq 64) grace_entries) head

-- The body of the loop of reap: one word of the bitmap.
unfoldable pub reap_word : FlightWindow → FlightWindow
reap_word w =
    let word = w.base_seq % capacity / 64 in
    record w {
      ack_bitmap = put_word word 0 w.ack_bitmap;
      total_sent = add64 w.total_sent 64;
      total_confirmed = add64 w.total_confirmed (popcount 64 (w.ack_bitmap word));
      base_seq = add64 w.base_seq 64;
    }

unfoldable pub reap_loop : ℕ → ℕ → FlightWindow → FlightWindow
reap_loop zero head w = w
reap_loop (suc fuel) head w =
    let rest = reap_loop fuel head (reap_word w) in if can_reap head w then rest else w

-- Each round takes 64 positions, so the distance from the base to the head is more than enough.
unfoldable pub reap : FlightWindow → FlightWindow
reap w = reap_loop (w.head_seq - w.base_seq) w.head_seq w

-- The frames confirmed and sent, if there are any that were reaped.
unfoldable pub delivery_rate : FlightWindow → Option (ℕ × ℕ) × FlightWindow
delivery_rate w =
    let v = reap w in
    (if v.total_sent == 0 then none else some (v.total_confirmed, v.total_sent), v)
