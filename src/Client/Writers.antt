-- ===== src/Client/Writers.antt =====
-- The count of the writers of a channel.
use i_can.Common.{
  ℕ, ◌%◌, ◌≡◌, ◌⊎◌, inl, inr, refl, sym, ap, ◌∙◌, Bool, true, false, ◌&&◌, Option, none, some, List,
  [], ◌∷◌, ltb, ◌==◌, get_or, set, Bool-cases,
}
use i_can.Common.Words.{add32}
use i_can.Can.{Frame}
use i_can.Ring.{Header}
use i_can.Client.Frames.{Client, usable, write_on, finish_write, enqueue_tx, write_tx_frame}
use i_can.Client.Calls.{Writer, finish, track_id, register_writer, write}

finish_write-writers :
    (c : Client) (channel : ℕ) (o : Option Header)
    → (finish_write c channel o).0.tx_writer_count ≡ c.tx_writer_count
unfolding finish_write
finish_write-writers c channel none = refl
finish_write-writers c channel (some h) = refl

write_on-writers :
    (c : Client) (f : Frame) (channel : ℕ) (o : Option Header)
    → (write_on c f channel o).0.tx_writer_count ≡ c.tx_writer_count
write_on-writers c f channel none = refl
write_on-writers c f channel (some h) = finish_write-writers c channel (enqueue_tx h channel f)

write_tx_frame-writers :
    (c : Client) (f : Frame) (channel : ℕ)
    → (write_tx_frame c f channel).0.tx_writer_count ≡ c.tx_writer_count
unfolding write_tx_frame
write_tx_frame-writers c f channel = write_on-writers c f channel (usable c.ring_header)

-- How the count of writers moved between two states of an object on a channel: it did not, or the
-- object was no writer, is one now, and was counted once.
abbrev pub Counted : Writer → ℕ → Writer → Type 0
Counted w channel w' =
    ((w'.is_tx_registered ≡ w.is_tx_registered)
      × (w'.client.tx_writer_count ≡ w.client.tx_writer_count))
    ⊎ ((w.is_tx_registered ≡ false)
        × (w'.is_tx_registered ≡ true)
        × (w'.client.tx_writer_count
            ≡ set w.client.tx_writer_count channel
                (add32 (get_or w.client.tx_writer_count channel 0) 1)))

register_writer-Counted : (w : Writer) (channel : ℕ) → Counted w channel (register_writer w channel)
register_writer-Counted w channel = elim (Bool-cases w.is_tx_registered) [
  | inl e ↦ inl (rw e refl, rw e refl)
  | inr e ↦ elim (Bool-cases (ltb channel 2)) [
    | inl f ↦ inr (e, rw (e, f) refl, rw (e, f) refl)
    | inr f ↦ inl (rw (e, f) refl, rw (e, f) refl)
  ]
]

track_id-same :
    (w : Writer) (channel can_id now : ℕ)
    → ((track_id w channel can_id now).is_tx_registered ≡ w.is_tx_registered)
      × ((track_id w channel can_id now).client ≡ w.client)
track_id-same w channel can_id now =
    elim (Bool-cases (ltb channel 2 && get_or w.client.tx_write_count channel 0 % 256 == 0)) [
      | inl e ↦ (rw e refl, rw e refl)
      | inr e ↦ (rw e refl, rw e refl)
    ]

-- The count does not see what else happens to the state.
Counted-same :
    (w v v' : Writer) (channel : ℕ)
    → v'.is_tx_registered ≡ v.is_tx_registered
    → v'.client.tx_writer_count ≡ v.client.tx_writer_count
    → Counted w channel v
    → Counted w channel v'
Counted-same w v v' channel a b (inl (c, d)) = inl (a ∙ c, b ∙ d)
Counted-same w v v' channel a b (inr (c, d, e)) = inr (c, a ∙ d, b ∙ e)

finish-Counted :
    (w : Writer) (channel can_id now : ℕ) (r : Client × Bool)
    → r.0.tx_writer_count ≡ w.client.tx_writer_count
    → Counted w channel (finish w channel can_id now r).0
finish-Counted w channel can_id now (c, false) e = inl (refl, e)
finish-Counted w channel can_id now (c, true) e =
    let v : Writer = record w { client = c } in
    let (a, b) = track_id-same (register_writer v channel) channel can_id now in
    Counted-same w (register_writer v channel)
      (track_id (register_writer v channel) channel can_id now) channel a
      (ap (λ x. x.tx_writer_count) b)
      (older (register_writer v channel) (register_writer-Counted v channel))
  where
    older : (x : Writer) → Counted (record w { client = c }) channel x → Counted w channel x
    older x (inl (a, b)) = inl (a, b ∙ e)
    older x (inr (a, b, d)) =
        inr (a, b, d ∙ ap (λ l. set l channel (add32 (get_or l channel 0) 1)) e)

write-Counted :
    (w : Writer) (channel : ℕ) (f : Frame) (now : ℕ) → Counted w channel (write w channel f now).0
unfolding write
write-Counted w channel f now =
    finish-Counted w channel f.can_id now
      (write_tx_frame w.client (record f { res0 = channel % 256 }) channel)
      (write_tx_frame-writers w.client (record f { res0 = channel % 256 }) channel)

-- Frames written one after another, each at its time.
abbrev pub written : Writer → ℕ → List (Frame × ℕ) → Writer
written w channel [] = w
written w channel ((f, now) ∷ l) = written (write w channel f now).0 channel l

-- However many frames an object writes, and whichever of them find room, it is counted as a writer
-- of its channel at most once, and never again once it is registered.
pub written-Counted :
    (w : Writer) (channel : ℕ) (l : List (Frame × ℕ)) → Counted w channel (written w channel l)
written-Counted w channel [] = inl (refl, refl)
written-Counted w channel ((f, now) ∷ l) =
    join (write w channel f now).0 (written (write w channel f now).0 channel l)
      (write-Counted w channel f now) (written-Counted (write w channel f now).0 channel l)
  where
    join : (v x : Writer) → Counted w channel v → Counted v channel x → Counted w channel x
    join v x (inl (a, b)) (inl (c, d)) = inl (c ∙ a, d ∙ b)
    join v x (inl (a, b)) (inr (c, d, e)) =
        inr (sym a ∙ c, d, e ∙ ap (λ y. set y channel (add32 (get_or y channel 0) 1)) b)
    join v x (inr (a, b, c)) (inl (d, e)) = inr (a, d ∙ b, e ∙ c)
    join v x (inr (a, b, c)) (inr (d, e, g)) = absurd cc
