-- ===== src/Driver/Starts.antt =====
-- StartIO, StopIO and the drains keep the driver valid.
use i_can.Common.{
  ℕ, zero, suc, set, ◌≡◌, refl, sym, subst, Bool, true, false, not, ◌&&◌, Option, none, some, List,
  if◌then◌else◌, if_both, arith, Bool-cases, inl, inr,
}
use i_can.Common.IoReturn.{IoReturn, success, not_ready, is_success}
use i_can.Gsusb.Device.{UsbDevice}
use i_can.Driver.State.{Driver, is_some}
use i_can.Driver.Slots.{RxSlotState, free}
use i_can.Driver.Setup.{configure_device_of}
use i_can.Driver.Lifecycle.{
  StartCalls, prepare_slots, first_reads, after_slots, start_async_read, prepare_channel1,
  reset_rings, finish_start, start_configured, start_after, start_io, stop_io, set_line_coding,
}
use i_can.Driver.Valid.{IsValid, configure-IsValid}

-- StartAsyncRead changes the slots and the action only, and has the action if it succeeds.
pub record Reads (d : Driver) (r : IoReturn × Driver) : Type 0 where
  same_in : r.1.bulk_in_pipe ≡ d.bulk_in_pipe
  same_out : r.1.bulk_out_pipe ≡ d.bulk_out_pipe
  same_buffer : r.1.has_tx_buffer ≡ d.has_tx_buffer
  same_configured : r.1.is_configured ≡ d.is_configured
  pub same_running : r.1.is_running ≡ d.is_running
  same_action : r.1.has_write_action ≡ d.has_write_action
  same_buffer2 : r.1.has_tx_buffer2 ≡ d.has_tx_buffer2
  same_action2 : r.1.has_write_action2 ≡ d.has_write_action2
  has_action : is_success r.0 ≡ true → r.1.has_read_action ≡ true

-- A failure is no success.
abbrev FailsOnly : Option IoReturn → Type 0
FailsOnly none = Unit {0}
FailsOnly (some ret) = is_success ret ≡ false

prepare_slots-FailsOnly :
    (sys : StartCalls) (n i : ℕ) (states : List RxSlotState)
    → FailsOnly (prepare_slots sys n i states).0
unfolding prepare_slots
prepare_slots-FailsOnly sys zero i states = tt
prepare_slots-FailsOnly sys (suc n) i states = elim (Bool-cases (is_success (sys.create_slot i))) [
  | inr e ↦ rw e e
  | inl e ↦ elim (Bool-cases (is_success (sys.set_slot i))) [
    | inr f ↦ rw (e, f) f
    | inl f ↦ rw (e, f) (prepare_slots-FailsOnly sys n (suc i) (set states i free))
  ]
]

first_reads-Reads :
    (sys : StartCalls) (states : List RxSlotState) (d : Driver) → Reads d (first_reads sys states d)
unfolding first_reads
first_reads-Reads sys states d = ground arith

after_slots-Reads :
    (sys : StartCalls) (ready : Option IoReturn × List RxSlotState) (d : Driver)
    → FailsOnly ready.0
    → Reads d (after_slots sys ready d)
unfolding after_slots
after_slots-Reads sys (none, states) d h = first_reads-Reads sys states d
after_slots-Reads sys (some ret, states) d h = ground arith

pub start_async_read-Reads : (sys : StartCalls) (d : Driver) → Reads d (start_async_read sys d)
unfolding start_async_read
start_async_read-Reads sys d =
    let ready = prepare_slots sys 16 0 d.slots.states in
    elim (Bool-cases (is_success sys.create_ring)) [
      | inr e ↦ rw e (record {
        same_in = refl;
        same_out = refl;
        same_buffer = refl;
        same_configured = refl;
        same_running = refl;
        same_action = refl;
        same_buffer2 = refl;
        same_action2 = refl;
        has_action = λ h. cc;
      })
      | inl e ↦
          rw e (after_slots-Reads sys ready d (prepare_slots-FailsOnly sys 16 0 d.slots.states))
    ]

-- What StartIO has made when it starts the reads.
record IsStarting (d : Driver) : Type 0 where
  out_there : is_some d.bulk_out_pipe ≡ true
  in_there : is_some d.bulk_in_pipe ≡ true
  buffer_there : d.has_tx_buffer ≡ true
  is_set_up : d.is_configured ≡ true
  action_there : d.has_write_action ≡ true
  pair : d.has_write_action2 ≡ true → d.has_tx_buffer2 ≡ true

prepare_channel1-IsStarting :
    (sys : StartCalls) (d : Driver) → IsStarting d → IsStarting (prepare_channel1 sys d)
unfolding prepare_channel1
prepare_channel1-IsStarting sys d v = ground arith

finish_start-IsValid :
    (d : Driver) (r : IoReturn × Driver) → IsStarting d → Reads d r → IsValid (finish_start r).1
unfolding finish_start
finish_start-IsValid d (ret, e) v h = ground arith

start_configured-IsValid :
    (sys : StartCalls) (d : Driver)
    → d.is_configured ≡ true
    → IsValid d
    → IsValid (start_configured sys d).1
unfolding start_configured
start_configured-IsValid sys d c v =
    let sending : Driver = record d {
      is_running = true;
      read_complete_count = 0;
      read_complete_bytes = 0;
      has_write_action = true;
      tx_in_flight = false;
    } in
    let channels = prepare_channel1 sys sending in
    let reset : Driver = record channels { ring_header = reset_rings channels.ring_header } in
    let starting : IsStarting sending = record {
      out_there = v.out c;
      in_there = v.in_ c;
      buffer_there = v.buffer c;
      is_set_up = c;
      action_there = refl;
      pair = v.paired;
    } in
    let ready : IsStarting reset =
      let s = prepare_channel1-IsStarting sys sending starting in
      record {
        out_there = s.out_there;
        in_there = s.in_there;
        buffer_there = s.buffer_there;
        is_set_up = s.is_set_up;
        action_there = s.action_there;
        pair = s.pair;
      } in
    if_both (λ (p : IoReturn × Driver). IsValid p.1)
      (not d.has_write_action && not (is_success sys.create_write_action))
      (record {
        out = v.out;
        in_ = v.in_;
        buffer = v.buffer;
        configured = λ h. cc;
        writes = λ h. cc;
        reads = λ h. cc;
        paired = v.paired;
      })
      (finish_start-IsValid reset (start_async_read sys reset) ready
        (start_async_read-Reads sys reset))

start_after-IsValid :
    (sys : StartCalls) (ret : IoReturn) (d : Driver)
    → IsValid d
    → IsValid (start_after sys (ret, d)).1
unfolding start_after
start_after-IsValid sys ret d v =
    let P = λ (p : IoReturn × Driver). IsValid p.1 in
    if_both P (not (is_success ret)) v (elim (Bool-cases d.is_configured) [
      | inl e ↦
          subst (λ b. IsValid (if not b then (not_ready, d) else start_configured sys d).1) (sym e)
            (start_configured-IsValid sys d e v)
      | inr e ↦
          subst (λ b. IsValid (if not b then (not_ready, d) else start_configured sys d).1) (sym e)
            v
    ])

-- ConfigureDevice where StartIO calls it.
configure_first-IsValid :
    (sys : StartCalls) (d : Driver)
    → d.is_running ≡ false
    → IsValid d
    → IsValid
        (if not d.is_configured && d.has_device
          then configure_device_of sys.setup d
          else (success, d)).1
configure_first-IsValid sys d stopped v =
    let P = λ (p : IoReturn × Driver). IsValid p.1 in
    elim (Bool-cases d.is_configured) [
      | inl c ↦
          subst
            (λ b.
              P (if not b && d.has_device then configure_device_of sys.setup d else (success, d)))
            (sym c) v
      | inr c ↦
          if_both P (not d.is_configured && d.has_device)
            (configure-IsValid sys.setup d
              (record { unconfigured = c; stopped = stopped; pairs = v.paired }))
            v
    ]

pub start_io-IsValid : (sys : StartCalls) (d : Driver) → IsValid d → IsValid (start_io sys d).1
unfolding start_io
start_io-IsValid sys d v =
    let first : IoReturn × Driver =
      if not d.is_configured && d.has_device
      then configure_device_of sys.setup d
      else (success, d) in
    let P = λ (b : Bool). IsValid (if b then (success, d) else start_after sys first).1 in
    elim (Bool-cases d.is_running) [
      | inl e ↦ subst P (sym e) v
      | inr e ↦
          subst P (sym e)
            (start_after-IsValid sys first.0 first.1 (configure_first-IsValid sys d e v))
    ]

pub stop_io-IsValid : (dev : UsbDevice) (d : Driver) → IsValid d → IsValid (stop_io dev d).1
unfolding stop_io
stop_io-IsValid dev d v =
    if_both (λ (p : IoReturn × Driver). IsValid p.1) (not d.is_running) v
      (record {
        out = v.out;
        in_ = v.in_;
        buffer = v.buffer;
        configured = λ h. cc;
        writes = λ h. cc;
        reads = λ h. cc;
        paired = v.paired;
      })

pub set_line_coding-IsValid :
    (dev : UsbDevice) (d : Driver) (baud data_bits stop parity : ℕ)
    → IsValid d
    → IsValid (set_line_coding dev d baud data_bits stop parity).1
unfolding set_line_coding
set_line_coding-IsValid dev d baud data_bits stop parity v = ground arith
