-- ===== src/UserClient/Calls.antt =====
-- The external methods of the user client.
use i_can.Common.{ℕ, ◌%◌, Bool, false, not, ◌&&◌, Option, List, ltb, if◌then◌else◌, length, get_or}
use i_can.Common.Words.{u32_mod}
use i_can.Common.Outcome.{Outcome, ok, ◌>>=◌}
use i_can.Common.IoReturn.{
  IoReturn, success, not_ready, bad_argument, not_open, still_open, is_success,
}
use i_can.Gsusb.Device.{UsbDevice}
use i_can.Driver.State.{Driver, Transfers}
use i_can.Driver.Drains.{send_data, drain_tx_ring_of}
use i_can.Driver.Channels.{open_channel_of, close_channel_of}
use i_can.Driver.Lifecycle.{StartCalls, start_io, stop_io, set_line_coding}
use i_can.UserClient.Waits.{Waits, wait_for_data, cancel_pending}

-- The system: what the driver's operations call.
pub record Platform : Type 0 where
  pub start : StartCalls
  pub usb : UsbDevice
  pub transfers : Transfers

-- USBCANUserClient_IVars with the driver that fDriver points to, if it is not null.
pub record UserClient : Type 0 where
  pub has_driver : Bool
  pub is_open : Bool
  pub waits : Waits
  pub driver : Driver

-- IOUserClientMethodArguments, as far as the methods read them.
pub record Arguments : Type 0 where
  pub completion : Option ℕ
  pub scalar_input : List ℕ
  pub structure_input : List ℕ

-- The client after a call of its driver.
abbrev pub with_driver : UserClient → IoReturn × Driver → Outcome (IoReturn × UserClient)
with_driver c (ret, d) = ok (ret, record c { driver = d })

-- USBCANUserClient::Open
unfoldable pub open_client : Platform → UserClient → IoReturn × UserClient
open_client p c =
    let (ret, d) = start_io p.start c.driver in
    if c.is_open
    then (still_open, c)
    else if not c.has_driver
    then (not_ready, c)
    else (ret, record c { driver = d; is_open = is_success ret })

-- USBCANUserClient::Close
unfoldable pub close_client : Platform → UserClient → IoReturn × UserClient
close_client p c = if not c.is_open then (not_open, c) else (
  success,
  record c {
    waits = cancel_pending c.waits;
    driver = if c.has_driver then (stop_io p.usb c.driver).1 else c.driver;
    is_open = false;
  },
)

-- USBCANUserClient::Stop_Impl, up to the call of its base class
unfoldable pub stop_client : Platform → UserClient → UserClient
stop_client p c =
    let closed = if c.is_open then (close_client p c).1 else c in
    record closed {
      has_driver = false;
      driver =
          if closed.has_driver
          then record closed.driver { has_user_client = false }
          else closed.driver;
    }

abbrev pub is_usable : UserClient → Bool
is_usable c = c.is_open && c.has_driver

-- USBCANUserClient::SendData
unfoldable pub send_data_call : Platform → UserClient → Arguments → Outcome (IoReturn × UserClient)
send_data_call p c args =
    if not (is_usable c)
    then ok (not_open, c)
    else if ltb 0 (length args.structure_input)
    then (send_data p.transfers c.driver args.structure_input >>= with_driver c)
    else (drain_tx_ring_of p.transfers c.driver >>= with_driver c)

-- USBCANUserClient::SetBaudRate
unfoldable pub set_baud_rate : Platform → UserClient → Arguments → Outcome (IoReturn × UserClient)
set_baud_rate p c args =
    if not c.has_driver
    then ok (not_ready, c)
    else if ltb (length args.scalar_input) 1
    then ok (bad_argument, c)
    else with_driver c
        (set_line_coding p.usb c.driver (get_or args.scalar_input 0 0 % u32_mod) 8 0 0)

-- USBCANUserClient::OpenChannel and CloseChannel
unfoldable pub open_channel_call :
    Platform → UserClient → Arguments → Outcome (IoReturn × UserClient)
open_channel_call p c args =
    if not (is_usable c)
    then ok (not_open, c)
    else if ltb (length args.scalar_input) 2
    then ok (bad_argument, c)
    else (open_channel_of p.transfers p.usb c.driver (get_or args.scalar_input 0 0 % u32_mod)
          (get_or args.scalar_input 1 0 % 256)
        >>= with_driver c)

unfoldable pub close_channel_call :
    Platform → UserClient → Arguments → Outcome (IoReturn × UserClient)
close_channel_call p c args =
    if not (is_usable c)
    then ok (not_open, c)
    else if ltb (length args.scalar_input) 1
    then ok (bad_argument, c)
    else (close_channel_of p.transfers p.usb c.driver (get_or args.scalar_input 0 0 % 256)
        >>= with_driver c)

-- USBCANUserClient::WaitForData on the action `a`, where nothing else runs.
unfoldable pub wait_for_data_call : UserClient → ℕ → IoReturn × UserClient
wait_for_data_call c a =
    if not (is_usable c)
    then (not_open, c)
    else (success, record c { waits = wait_for_data c.driver.ring_header a c.waits })
