-- ===== src/Client/Control.antt =====
-- The calls that control the connection.
use i_can.Common.{
  ℕ, zero, suc, ◌≡◌, ◌≢◌, ◌<◌, ◌⊎◌, inl, inr, refl, ap, ◌∙◌, Bool, true, false, ◌&&◌, none, some,
  List, [], ◌∷◌, map, get_elem?, All, Bool-cases, lt→ltb, arith,
}
use i_can.Client.Readers.{ReaderSlot, on_channel}
use i_can.Client.Fifo.{Queued}
use i_can.Client.Frames.{usable}
use i_can.Client.Calls.{
  open_channel_call, Driver, Connection, not_connected, ApiResult, clear_slot, clear_channel,
  open_channel, start, stop, close_channel, close,
}

clear_slot-Queued : (r : ReaderSlot) → Queued (clear_slot r) []
clear_slot-Queued r = record {
  tail_in = omega arith;
  bounded = omega arith;
  head_at = refl;
  stored = refl;
}

get_elem?-map {ℓ κ} :
    {A : Type ℓ} {B : Type κ} (f : A → B) (l : List A) (i : ℕ) (x : A)
    → get_elem? l i ≡ some x
    → get_elem? (map f l) i ≡ some (f x)
get_elem?-map f [] i x e = absurd cc
get_elem?-map f (y ∷ l) zero x e = let f' : y ≡ x = cc in ap (λ z. some (f z)) f'
get_elem?-map f (y ∷ l) (suc i) x e = get_elem?-map f l i x e

-- What openChannel did for a channel at a bitrate.
pub record Opened (driver : Driver) (s : Connection) (channel bitrate : ℕ) (r : ApiResult)
    : Type 0 where
  pub failed :
      r.done ≡ false
      → (r.state.is_open ≡ s.is_open)
        × (r.state.client ≡ s.client)
        × (r.state.last_error ≢ none)
        × ((s.is_connected ≡ false) ⊎ (driver (open_channel_call bitrate channel) ≡ false))
  pub opened :
      r.done ≡ true
      → (s.is_connected ≡ true)
        × (driver (open_channel_call bitrate channel) ≡ true)
        × (r.state.is_open ≡ true)
        × (r.state.last_error ≡ none)
  pub emptied :
      r.done ≡ true
      → (i : ℕ) (slot : ReaderSlot) → get_elem? s.client.readers i ≡ some slot
      → (slot.active && on_channel slot channel) ≡ true
      → get_elem? r.state.client.readers i ≡ some (clear_slot slot)
  pub kept :
      r.done ≡ true
      → (i : ℕ) (slot : ReaderSlot) → get_elem? s.client.readers i ≡ some slot
      → (slot.active && on_channel slot channel) ≡ false
      → get_elem? r.state.client.readers i ≡ some slot

contradiction {ℓ} : {b : Bool} {A : Type ℓ} → b ≡ false → b ≡ true → A
contradiction e f = absurd cc

-- openChannel on a channel below 2: where it fails, for want of a connection or because the driver
-- refused, the state is as before but for the error; where it succeeds, the channel counts as open,
-- the slots of the channel's readers are emptied, and all other slots are as before.
pub open_channel-Opened :
    (driver : Driver) (s : Connection) (channel bitrate : ℕ)
    → channel < 2
    → Opened driver s channel bitrate (open_channel driver s channel bitrate)
unfolding open_channel
open_channel-Opened driver s channel bitrate l = elim (Bool-cases s.is_connected) [
  | inr off ↦ rw off (record {
    failed = λ e. (refl, refl, (λ f. cc), inl refl);
    opened = λ e. contradiction refl e;
    emptied = λ e. contradiction refl e;
    kept = λ e. contradiction refl e;
  })
  | inl on ↦ elim (Bool-cases (driver (open_channel_call bitrate channel))) [
    | inr refused ↦
        rw (on, refused)
          (record {
            failed = λ e. (refl, refl, (λ f. cc), inr refused);
            opened = λ e. contradiction refl e;
            emptied = λ e. contradiction refl e;
            kept = λ e. contradiction refl e;
          })
    | inl taken ↦
        rw (on, taken, lt→ltb channel 2 l)
          (record {
            failed = λ e. contradiction e refl;
            opened = λ e. (refl, taken, refl, refl);
            emptied = λ e i slot at b.
                get_elem?-map (clear_channel channel) s.client.readers i slot at ∙ rw b refl;
            kept = λ e i slot at b.
                get_elem?-map (clear_channel channel) s.client.readers i slot at ∙ rw b refl;
          })
  ]
]

cleared : (l : List ReaderSlot) → All (λ r. Queued r []) (map clear_slot l)
cleared [] = tt
cleared (r ∷ l) = (clear_slot-Queued r, cleared l)

-- After close, no packet waits in any slot, and no call reaches the driver any more: start fails
-- and says why, and stop and a second close make no calls.
pub close_lem :
    (driver : Driver) (s : Connection) (channel channel' bitrate : ℕ)
    → (let c = (close s channel).0 in
        All (λ r. Queued r []) c.client.readers
        × (usable c.client.ring_header ≡ none)
        × (start driver c channel' bitrate ≡ record {
          state = record c { last_error = some not_connected };
          calls = [];
          done = false;
        })
        × ((stop c channel').calls ≡ [])
        × ((close c channel').1 ≡ []))
unfolding close start close_channel
close_lem driver s channel channel' bitrate = (cleared s.client.readers, refl, refl, refl, refl)
