-- ===== src/Client/HandleTests.antt =====
-- Objects of a program: one is made and reads, a copy of it reads, and the first is destroyed.
use i_can.Common.{ℕ, refl, none, some}
use i_can.Client.Handles.{
  Handle, new_client, new_handle, copy, put, destroy, ensure_reader, World, Reached, empty, next,
  created, copied, used, destroyed,
}
use i_can.Client.Ownership.{IsSound}
use i_can.Client.Lifetimes.{Reached-IsSound}

abbrev with_one : World
with_one = record {
  heap = put (λ k. new_client) 0 new_client;
  handles = put (λ v. none) 5 (some (new_handle 0));
}

abbrev after_use : World → ℕ → Handle → World
after_use w v h = record {
  heap = (ensure_reader w.heap h).0;
  handles = put w.handles v (some (ensure_reader w.heap h).1);
}

abbrev first : World
first = after_use with_one 5 (new_handle 0)

abbrev reading : Handle
reading = (ensure_reader with_one.heap (new_handle 0)).1

abbrev with_copy : World
with_copy = record first { handles = put first.handles 6 (some (copy reading)) }

abbrev both : World
both = after_use with_copy 6 (copy reading)

abbrev one_left : World
one_left = record { heap = destroy both.heap reading; handles = put both.handles 5 none }

one_left-Reached : Reached one_left
one_left-Reached =
    next
      (next
        (next
          (next (next empty (created _ 5 0 refl (λ u h e. absurd cc)))
            (used with_one 5 (new_handle 0) refl))
          (copied first 6 5 reading refl refl))
        (used with_copy 6 (copy reading) refl))
      (destroyed both 5 reading refl)

Reached-IsSound_example : IsSound one_left
Reached-IsSound_example = Reached-IsSound one_left-Reached
