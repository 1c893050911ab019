-- ===== src/Driver/Running.antt =====
-- Whether the driver runs after StartIO and StopIO.
use i_can.Common.{
  ◌≡◌, refl, sym, subst, ◌∙◌, Bool, true, false, not, ◌&&◌, if◌then◌else◌, if_both, arith,
  Bool-cases, inl, inr,
}
use i_can.Common.IoReturn.{IoReturn, success, not_ready, is_success}
use i_can.Gsusb.Device.{UsbDevice}
use i_can.Driver.State.{Driver}
use i_can.Driver.Pipes.{find_interfaces, configure_pipes}
use i_can.Driver.Setup.{
  SetupCalls, detected, configure_buffer, after_pipes, after_interfaces, configure_device_of,
}
use i_can.Driver.Lifecycle.{
  StartCalls, start_async_read, prepare_channel1, reset_rings, finish_start, start_configured,
  start_after, start_io, stop_io,
}
use i_can.Driver.Keeps.{find_interfaces-Keeps, configure_pipes-Keeps}
use i_can.Driver.Starts.{start_async_read-Reads}

running-configure_buffer :
    (sys : SetupCalls) (d : Driver) → (configure_buffer sys d).1.is_running ≡ d.is_running
unfolding configure_buffer
running-configure_buffer sys d = ground arith

running-after_pipes :
    (sys : SetupCalls) (ret : IoReturn) (d : Driver)
    → (after_pipes sys (ret, d)).1.is_running ≡ d.is_running
unfolding after_pipes
running-after_pipes sys ret d =
    if_both (λ (r : IoReturn × Driver). r.1.is_running ≡ d.is_running) (is_success ret)
      (running-configure_buffer sys d) refl

running-after_interfaces :
    (sys : SetupCalls) (ret : IoReturn) (d : Driver)
    → (after_interfaces sys (ret, d)).1.is_running ≡ d.is_running
unfolding after_interfaces
running-after_interfaces sys ret d =
    let found = configure_pipes sys.interfaces d in
    if_both (λ (r : IoReturn × Driver). r.1.is_running ≡ d.is_running) (is_success ret)
      (running-after_pipes sys found.0 found.1 ∙ (configure_pipes-Keeps sys.interfaces d).running)
      refl

-- ConfigureDevice does not start the driver.
running-configure :
    (sys : SetupCalls) (d : Driver) → (configure_device_of sys d).1.is_running ≡ d.is_running
unfolding configure_device_of
running-configure sys d =
    let found = find_interfaces sys.interfaces (detected sys d) in
    let P = λ (r : IoReturn × Driver). r.1.is_running ≡ d.is_running in
    if_both P d.is_configured refl (
      if_both P (not d.matched_on_interface && not (is_success sys.open_device)) refl (
        running-after_interfaces sys found.0 found.1
        ∙ (find_interfaces-Keeps sys.interfaces (detected sys d)).running))

-- The driver runs exactly if the call succeeded.
abbrev IsTold : IoReturn × Driver → Type 0
IsTold r = r.1.is_running ≡ is_success r.0

running-prepare_channel1 :
    (sys : StartCalls) (d : Driver) → (prepare_channel1 sys d).is_running ≡ d.is_running
unfolding prepare_channel1
running-prepare_channel1 sys d = ground arith

finish_start-IsTold :
    (ret : IoReturn) (d : Driver) → d.is_running ≡ true → IsTold (finish_start (ret, d))
unfolding finish_start
finish_start-IsTold ret d h = elim (Bool-cases (is_success ret)) [
  | inl e ↦ rw e h
  | inr e ↦ rw e (sym e)
]

and_false : (b : Bool) → (b && false) ≡ false
and_false true = refl
and_false false = refl

start_configured-IsTold : (sys : StartCalls) (d : Driver) → IsTold (start_configured sys d)
unfolding start_configured
start_configured-IsTold sys d =
    let fresh : Driver = record d {
      is_running = true;
      read_complete_count = 0;
      read_complete_bytes = 0;
    } in
    let sending : Driver = record fresh { has_write_action = true; tx_in_flight = false } in
    let channels = prepare_channel1 sys sending in
    let reset : Driver = record channels { ring_header = reset_rings channels.ring_header } in
    let stopped : Driver = record fresh { is_running = false } in
    let started = start_async_read sys reset in
    let runs : started.1.is_running ≡ true =
      (start_async_read-Reads sys reset).same_running ∙ running-prepare_channel1 sys sending in
    let P = λ (b : Bool). IsTold (
      if not d.has_write_action && not b
      then (sys.create_write_action, stopped)
      else finish_start started) in
    elim (Bool-cases (is_success sys.create_write_action)) [
      | inl e ↦ subst P (sym e) (
          subst
            (λ b. IsTold (if b then (sys.create_write_action, stopped) else finish_start started))
            (sym (and_false (not d.has_write_action)))
            (finish_start-IsTold started.0 started.1 runs))
      | inr e ↦ subst P (sym e) (
          if_both IsTold (not d.has_write_action && true) (sym e)
            (finish_start-IsTold started.0 started.1 runs))
    ]

start_after-IsTold :
    (sys : StartCalls) (ret : IoReturn) (d : Driver)
    → d.is_running ≡ false
    → IsTold (start_after sys (ret, d))
unfolding start_after
start_after-IsTold sys ret d stopped =
    let P = λ (b : Bool). IsTold (
      if not b
      then (ret, d)
      else if not d.is_configured
      then (not_ready, d)
      else start_configured sys d) in
    elim (Bool-cases (is_success ret)) [
      | inl e ↦
          subst P (sym e)
            (if_both IsTold (not d.is_configured) stopped (start_configured-IsTold sys d))
      | inr e ↦ subst P (sym e) (stopped ∙ sym e)
    ]

-- Whatever the system answers, StartIO leaves the driver running exactly if it returns success.
pub running-start_io :
    (sys : StartCalls) (d : Driver) → (start_io sys d).1.is_running ≡ is_success (start_io sys d).0
unfolding start_io
running-start_io sys d =
    let first : IoReturn × Driver =
      if not d.is_configured && d.has_device
      then configure_device_of sys.setup d
      else (success, d) in
    let P = λ (b : Bool). IsTold (if b then (success, d) else start_after sys first) in
    elim (Bool-cases d.is_running) [
      | inl e ↦ subst P (sym e) e
      | inr e ↦ subst P (sym e) (
          start_after-IsTold sys first.0 first.1 (
            if_both (λ (r : IoReturn × Driver). r.1.is_running ≡ false)
              (not d.is_configured && d.has_device) (running-configure sys.setup d ∙ e) e))
    ]

-- StopIO leaves it stopped.
pub running-stop_io : (dev : UsbDevice) (d : Driver) → (stop_io dev d).1.is_running ≡ false
unfolding stop_io
running-stop_io dev d = ground arith
