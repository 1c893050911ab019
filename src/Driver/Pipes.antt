-- ===== src/Driver/Pipes.antt =====
-- The interfaces and pipes of the device: FindInterfaces and ConfigurePipes.
use i_can.Common.{
  ℕ, suc, Bool, true, false, not, ◌&&◌, ◌||◌, Option, none, some, List, [], ◌∷◌, ◌==◌,
  if◌then◌else◌,
}
use i_can.Common.IoReturn.{IoReturn, success, not_ready, not_found, is_success}
use i_can.Driver.State.{Driver, Pipe, CodecVariant, slcan, gsusb, pcan, protocol_pcan, is_some}

-- The device: the answer to Open of the interface that the driver matched; the answer to
-- CreateInterfaceIterator; the answers to Open of the interfaces in the order in which CopyInterface
-- gives them; and whether CopyPipe of an interface gives a pipe for an address.
pub record Interfaces : Type 0 where
  pub open_matched : IoReturn
  pub create_iterator : IoReturn
  pub opens : List IoReturn
  pub copy_pipe : ℕ → ℕ → Bool

-- The body of the loop of FindInterfaces.
unfoldable pub note_interface : ℕ → IoReturn → Driver → Driver
note_interface index ret d =
    if index == 0
    then record d {
      control_interface = some index;
      control_interface_opened = if is_success ret then true else d.control_interface_opened;
    }
    else if (index == 1) && not (d.detected_protocol == protocol_pcan)
    then record d {
      data_interface = some index;
      data_interface_opened = if is_success ret then true else d.data_interface_opened;
    }
    else d

-- The loop of FindInterfaces from the interface `index` on.
unfoldable pub each_interface : ℕ → List IoReturn → Driver → Driver
unfolding note_interface
each_interface index [] d = d
each_interface index (ret ∷ rest) d = each_interface (suc index) rest (note_interface index ret d)

-- FindInterfaces from the end of the loop on.
unfoldable pub share_control : Driver → IoReturn × Driver
share_control d =
    let shared : Driver =
      if is_some d.control_interface && not (is_some d.data_interface)
      then record d {
        data_interface = d.control_interface;
        data_interface_opened = d.control_interface_opened;
      }
      else d in
    (if is_some shared.data_interface then success else not_found, shared)

-- USBCANDriver::FindInterfaces
unfoldable pub find_interfaces : Interfaces → Driver → IoReturn × Driver
unfolding each_interface share_control
find_interfaces sys d =
    let matched = record d {
      control_interface_opened = true;
      data_interface_opened = true;
      data_interface = d.control_interface;
    } in
    if d.matched_on_interface && is_some d.control_interface
    then (if is_success sys.open_matched then (success, matched) else (sys.open_matched, d))
    else if not (is_success sys.create_iterator)
    then (sys.create_iterator, d)
    else share_control (each_interface 0 sys.opens d)

-- The first of some addresses for which an interface has a pipe, unless there is a pipe already.
unfoldable pub first_pipe : Interfaces → ℕ → List ℕ → Option Pipe → Option Pipe
first_pipe sys iface addresses (some p) = some p
first_pipe sys iface [] none = none
first_pipe sys iface (a ∷ addresses) none =
    first_pipe sys iface addresses
      (if sys.copy_pipe iface a then some (record { interface = iface; endpoint = a }) else none)

abbrev pub out_addresses : List ℕ
out_addresses = 0x01 ∷ 0x02 ∷ 0x03 ∷ []

abbrev pub in_addresses : List ℕ
in_addresses = 0x81 ∷ 0x82 ∷ 0x83 ∷ []

-- The first bulk pipes of an interface, where they are missing.
abbrev pub with_first_pipes : Interfaces → ℕ → Driver → Driver
with_first_pipes sys iface d = record d {
  bulk_out_pipe = first_pipe sys iface out_addresses d.bulk_out_pipe;
  bulk_in_pipe = first_pipe sys iface in_addresses d.bulk_in_pipe;
}

-- The control interface, if it is another than the data interface.
abbrev pub other_interface : Option ℕ → ℕ → Option ℕ
other_interface none iface = none
other_interface (some c) iface = if c == iface then none else some c

unfoldable pub with_control_pipes : Interfaces → Option ℕ → Driver → Driver
unfolding first_pipe
with_control_pipes sys none d = d
with_control_pipes sys (some c) d =
    if not (is_some d.bulk_out_pipe) || not (is_some d.bulk_in_pipe)
    then with_first_pipes sys c d
    else d

-- ConfigurePipes for a CDC device.
unfoldable pub cdc_pipes : Interfaces → ℕ → Driver → Driver
unfolding with_control_pipes first_pipe
cdc_pipes sys iface d =
    with_control_pipes sys (other_interface d.control_interface iface)
      (with_first_pipes sys iface d)

-- The pipe of an interface at an address, or the old one.
abbrev pub pipe_or : Interfaces → ℕ → ℕ → Option Pipe → Option Pipe
pipe_or sys iface address old =
    if sys.copy_pipe iface address
    then some (record { interface = iface; endpoint = address })
    else old

-- ConfigurePipes for the endpoints of a PCAN and of a gs_usb device.
unfoldable pub pcan_pipes : Interfaces → ℕ → Driver → Driver
pcan_pipes sys iface d = record d {
  command_out_pipe =
      if is_some d.bulk_out_pipe
      then d.command_out_pipe
      else pipe_or sys iface 0x01 d.command_out_pipe;
  bulk_out_pipe = pipe_or sys iface 0x02 d.bulk_out_pipe;
  data_out_pipe2 = pipe_or sys iface 0x03 d.data_out_pipe2;
  command_in_pipe = pipe_or sys iface 0x81 d.command_in_pipe;
  bulk_in_pipe = pipe_or sys iface 0x82 d.bulk_in_pipe;
}

unfoldable pub plain_pipes : Interfaces → ℕ → Driver → Driver
plain_pipes sys iface d = record d {
  bulk_out_pipe =
      if is_some d.bulk_out_pipe then d.bulk_out_pipe else pipe_or sys iface 0x01 d.bulk_out_pipe;
  bulk_in_pipe = pipe_or sys iface 0x81 d.bulk_in_pipe;
}

-- needsCDC of the codec
abbrev pub needs_cdc : CodecVariant → Bool
needs_cdc (slcan a) = true
needs_cdc (gsusb c) = false
needs_cdc (pcan c n) = false

abbrev pub pipes_result : Driver → IoReturn × Driver
pipes_result d =
    (if is_some d.bulk_out_pipe && is_some d.bulk_in_pipe then success else not_found, d)

unfoldable pub pipes_on : Interfaces → Option ℕ → Driver → IoReturn × Driver
unfolding cdc_pipes pcan_pipes plain_pipes
pipes_on sys none d = (not_ready, d)
pipes_on sys (some iface) d = pipes_result (
    if needs_cdc d.codec
    then cdc_pipes sys iface d
    else if d.detected_protocol == protocol_pcan
    then pcan_pipes sys iface d
    else plain_pipes sys iface d)

-- USBCANDriver::ConfigurePipes
unfoldable pub configure_pipes : Interfaces → Driver → IoReturn × Driver
unfolding pipes_on
configure_pipes sys d = pipes_on sys d.data_interface d
