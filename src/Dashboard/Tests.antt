-- ===== src/Dashboard/Tests.antt =====
-- The theorem on the dashboard, on two batches of one packet each.
use i_can.Common.{
  ℕ, ◌+◌, ◌%◌, ◌^◌, ◌≡◌, refl, List, [], ◌∷◌, take, length, ltb, if◌then◌else◌, arith,
}
use i_can.Can.{Packet}
use i_can.Dashboard.{parse, Dashboard, recent_frames}
use i_can.Dashboard.Histogram.{count_of, frames_read, read_rounds}
use i_can.Dashboard.Recent.{Keeps, rounds_history, read_rounds_lem}
use i_can.Samples.{received}

abbrev idle : Dashboard
idle = record {
  total_messages = 0;
  total_bytes = 0;
  sec_messages = 0;
  sec_bytes = 0;
  last_tx_count = 0;
  sec_tx = 0;
  start_time = 0;
  id_counts = [];
  recent_buf = λ i. parse received;
  recent_head = 0;
  recent_count = 0;
}

idle-Keeps : Keeps idle []
idle-Keeps = record { head_in = omega arith; count_is = refl; places = λ i l. absurd (omega arith) }

abbrev batches : List (List Packet)
batches = (received ∷ []) ∷ (received ∷ []) ∷ []

read_rounds_lem_example :
    (let r = read_rounds idle batches in
      (recent_frames r ≡ take r.recent_count (rounds_history [] batches))
      × (r.recent_count ≡ (
          if ltb (length (rounds_history [] batches)) 200
          then length (rounds_history [] batches)
          else 200))
      × ((id : ℕ)
          → count_of r.id_counts id % 2 ^ 32
            ≡ (count_of idle.id_counts id + frames_read batches id) % 2 ^ 32))
read_rounds_lem_example = read_rounds_lem batches idle [] idle-Keeps
