-- ===== src/Driver/Keeps.antt =====
-- What finding the interfaces and the pipes leaves as it was.
use i_can.Common.{ℕ, suc, ◌≡◌, true, Option, none, some, List, [], ◌∷◌, arith}
use i_can.Common.IoReturn.{IoReturn, is_success}
use i_can.Driver.State.{Driver, is_some}
use i_can.Driver.Pipes.{
  Interfaces, note_interface, each_interface, share_control, find_interfaces, with_control_pipes,
  cdc_pipes, pcan_pipes, plain_pipes, other_interface, with_first_pipes, pipes_result, pipes_on,
  configure_pipes,
}

-- The members of the driver that say how far it is set up.
pub record Keeps (d e : Driver) : Type 0 where
  pub configured : e.is_configured ≡ d.is_configured
  pub running : e.is_running ≡ d.is_running
  pub read_action : e.has_read_action ≡ d.has_read_action
  pub write_action : e.has_write_action ≡ d.has_write_action
  pub tx_buffer : e.has_tx_buffer ≡ d.has_tx_buffer
  pub tx_buffer2 : e.has_tx_buffer2 ≡ d.has_tx_buffer2
  pub write_action2 : e.has_write_action2 ≡ d.has_write_action2

Keeps-trans : {a b c : Driver} → Keeps a b → Keeps b c → Keeps a c
Keeps-trans h k = ground arith

note_interface-Keeps :
    (index : ℕ) (ret : IoReturn) (d : Driver) → Keeps d (note_interface index ret d)
unfolding note_interface
note_interface-Keeps index ret d = ground arith

each_interface-Keeps :
    (index : ℕ) (opens : List IoReturn) (d : Driver) → Keeps d (each_interface index opens d)
unfolding each_interface
each_interface-Keeps index [] d = ground arith
each_interface-Keeps index (ret ∷ rest) d =
    Keeps-trans (note_interface-Keeps index ret d)
      (each_interface-Keeps (suc index) rest (note_interface index ret d))

pub find_interfaces-Keeps : (sys : Interfaces) (d : Driver) → Keeps d (find_interfaces sys d).1
unfolding find_interfaces share_control
find_interfaces-Keeps sys d = ground (arith, each_interface-Keeps 0 sys.opens d)

with_control_pipes-Keeps :
    (sys : Interfaces) (c : Option ℕ) (d : Driver) → Keeps d (with_control_pipes sys c d)
unfolding with_control_pipes
with_control_pipes-Keeps sys none d = ground arith
with_control_pipes-Keeps sys (some c) d = ground arith

cdc_pipes-Keeps : (sys : Interfaces) (iface : ℕ) (d : Driver) → Keeps d (cdc_pipes sys iface d)
unfolding cdc_pipes
cdc_pipes-Keeps sys iface d = ground (
  arith,
  with_control_pipes-Keeps sys (other_interface d.control_interface iface)
      (with_first_pipes sys iface d),
)

pipes_on-Keeps :
    (sys : Interfaces) (iface : Option ℕ) (d : Driver) → Keeps d (pipes_on sys iface d).1
unfolding pipes_on pcan_pipes plain_pipes
pipes_on-Keeps sys none d = ground arith
pipes_on-Keeps sys (some iface) d = ground (arith, cdc_pipes-Keeps sys iface d)

pub configure_pipes-Keeps : (sys : Interfaces) (d : Driver) → Keeps d (configure_pipes sys d).1
unfolding configure_pipes
configure_pipes-Keeps sys d = pipes_on-Keeps sys d.data_interface d

-- Both bulk pipes are there.
pub record HasPipes (d : Driver) : Type 0 where
  pub out : is_some d.bulk_out_pipe ≡ true
  pub in_ : is_some d.bulk_in_pipe ≡ true

pipes_result-HasPipes : (d : Driver) → is_success (pipes_result d).0 ≡ true → HasPipes d
pipes_result-HasPipes d h = ground arith

pipes_on-HasPipes :
    (sys : Interfaces) (iface : Option ℕ) (d : Driver)
    → is_success (pipes_on sys iface d).0 ≡ true
    → HasPipes (pipes_on sys iface d).1
unfolding pipes_on
pipes_on-HasPipes sys none d h = cc
pipes_on-HasPipes sys (some iface) d h = pipes_result-HasPipes _ h

pub configure_pipes-HasPipes :
    (sys : Interfaces) (d : Driver)
    → is_success (configure_pipes sys d).0 ≡ true
    → HasPipes (configure_pipes sys d).1
unfolding configure_pipes
configure_pipes-HasPipes sys d h = pipes_on-HasPipes sys d.data_interface d h
