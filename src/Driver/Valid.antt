-- ===== src/Driver/Valid.antt =====
-- What holds of the driver between any two of its operations.
use i_can.Common.{◌≡◌, true, false, not, ◌&&◌, if_both, arith, Bool-cases, inl, inr}
use i_can.Common.IoReturn.{IoReturn, is_success}
use i_can.Driver.State.{Driver, is_some}
use i_can.Driver.Pipes.{find_interfaces, configure_pipes}
use i_can.Driver.Setup.{
  SetupCalls, detected, give_up, configure_buffer, after_pipes, after_interfaces,
  configure_device_of,
}
use i_can.Driver.Keeps.{
  Keeps, HasPipes, find_interfaces-Keeps, configure_pipes-Keeps, configure_pipes-HasPipes,
}

-- A configured driver has its bulk pipes and its TX buffer, and a running one is configured and has
-- the actions for its transfers; where there is an action for channel 1, there is its buffer.
pub record IsValid (d : Driver) : Type 0 where
  pub out : d.is_configured ≡ true → is_some d.bulk_out_pipe ≡ true
  pub in_ : d.is_configured ≡ true → is_some d.bulk_in_pipe ≡ true
  pub buffer : d.is_configured ≡ true → d.has_tx_buffer ≡ true
  pub configured : d.is_running ≡ true → d.is_configured ≡ true
  pub writes : d.is_running ≡ true → d.has_write_action ≡ true
  pub reads : d.is_running ≡ true → d.has_read_action ≡ true
  pub paired : d.has_write_action2 ≡ true → d.has_tx_buffer2 ≡ true

-- A driver before it is configured.
pub record IsUnready (d : Driver) : Type 0 where
  pub unconfigured : d.is_configured ≡ false
  pub stopped : d.is_running ≡ false
  pub pairs : d.has_write_action2 ≡ true → d.has_tx_buffer2 ≡ true

unready-IsValid : (d : Driver) → IsUnready d → IsValid d
unready-IsValid d v = ground arith

Keeps-IsUnready : (d e : Driver) → Keeps d e → IsUnready d → IsUnready e
Keeps-IsUnready d e k v = ground arith

detected-Keeps : (sys : SetupCalls) (d : Driver) → Keeps d (detected sys d)
detected-Keeps sys d = ground arith

give_up-IsValid : (ret : IoReturn) (d : Driver) → IsUnready d → IsValid (give_up ret d).1
give_up-IsValid ret d v = ground arith

configure_buffer-IsValid :
    (sys : SetupCalls) (d : Driver) → HasPipes d → IsUnready d → IsValid (configure_buffer sys d).1
unfolding configure_buffer
configure_buffer-IsValid sys d p v = ground arith

after_pipes-IsValid :
    (sys : SetupCalls) (ret : IoReturn) (d : Driver)
    → (is_success ret ≡ true → HasPipes d)
    → IsUnready d
    → IsValid (after_pipes sys (ret, d)).1
unfolding after_pipes
after_pipes-IsValid sys ret d p v = elim (Bool-cases (is_success ret)) [
  | inl e ↦ rw e (configure_buffer-IsValid sys d (p e) v)
  | inr e ↦ rw e (give_up-IsValid ret d v)
]

after_interfaces-IsValid :
    (sys : SetupCalls) (ret : IoReturn) (d : Driver)
    → IsUnready d
    → IsValid (after_interfaces sys (ret, d)).1
unfolding after_interfaces
after_interfaces-IsValid sys ret d v = elim (Bool-cases (is_success ret)) [
  | inl e ↦ rw e (
      after_pipes-IsValid sys (configure_pipes sys.interfaces d).0
        (configure_pipes sys.interfaces d).1 (configure_pipes-HasPipes sys.interfaces d)
        (Keeps-IsUnready d _ (configure_pipes-Keeps sys.interfaces d) v))
  | inr e ↦ rw e (give_up-IsValid ret d v)
]

-- ConfigureDevice of a driver that is not configured.
pub configure-IsValid :
    (sys : SetupCalls) (d : Driver) → IsUnready d → IsValid (configure_device_of sys d).1
unfolding configure_device_of
configure-IsValid sys d v =
    let found = find_interfaces sys.interfaces (detected sys d) in
    let ready = after_interfaces-IsValid sys found.0 found.1 (
      Keeps-IsUnready (detected sys d) _ (find_interfaces-Keeps sys.interfaces (detected sys d))
        (Keeps-IsUnready d (detected sys d) (detected-Keeps sys d) v)) in
    let P = λ (p : IoReturn × Driver). IsValid p.1 in
    if_both P d.is_configured (unready-IsValid d v) (
      if_both P (not d.matched_on_interface && not (is_success sys.open_device))
        (unready-IsValid d v) ready)
