-- ===== src/Driver/State.antt =====
-- The state of the driver, USBCANDriver_IVars, and the system calls that its operations make.
use i_can.Common.{ℕ, Bool, true, false, Option, none, some}
use i_can.Common.IoReturn.{IoReturn}
use i_can.Ring.{Header}
use i_can.Codec.{SendFn}
use i_can.Slcan.Lines.{LineAccumulator}
use i_can.Gsusb.Device.{CodecState}
use i_can.Pcan.Codec.{Channels}
use i_can.Pcan.Stream.{RxCounts}
use i_can.Driver.Slots.{Slots}

-- enum CANProtocol
abbrev pub protocol_slcan : ℕ
protocol_slcan = 1

abbrev pub protocol_gsusb : ℕ
protocol_gsusb = 2

abbrev pub protocol_pcan : ℕ
protocol_pcan = 3

-- CodecVariant; the codec of PCAN has its channels and its counters.
pub data CodecVariant : Type 0 where
  slcan : LineAccumulator → CodecVariant
  gsusb : CodecState → CodecVariant
  pcan : Channels → RxCounts → CodecVariant

-- A pipe, by the interface that it was copied from and its endpoint.
pub record Pipe : Type 0 where
  pub interface : ℕ
  pub endpoint : ℕ

-- The members of USBCANDriver_IVars that the operations read, less the names of objects: of a buffer
-- or an action there is only whether the driver has one, and of an interface its index.
pub record Driver : Type 0 where
  pub has_device : Bool
  pub control_interface : Option ℕ
  pub data_interface : Option ℕ
  pub bulk_in_pipe : Option Pipe
  pub bulk_out_pipe : Option Pipe
  pub command_out_pipe : Option Pipe
  pub command_in_pipe : Option Pipe
  pub data_out_pipe2 : Option Pipe
  pub has_read_action : Bool
  pub slots : Slots
  pub has_tx_buffer : Bool
  pub has_write_action : Bool
  pub tx_in_flight : Bool
  pub has_tx_buffer2 : Bool
  pub has_write_action2 : Bool
  pub tx_in_flight2 : Bool
  pub has_cmd_buffer : Bool
  pub cmd_in_flight : Bool
  pub ring_header : Option Header
  pub has_user_client : Bool
  pub codec : CodecVariant
  pub detected_protocol : ℕ
  pub is_configured : Bool
  pub is_running : Bool
  pub baud_rate : ℕ
  pub matched_on_interface : Bool
  pub device_opened : Bool
  pub control_interface_opened : Bool
  pub data_interface_opened : Bool
  pub read_complete_count : ℕ
  pub read_complete_bytes : ℕ

abbrev pub is_some {ℓ} : {A : Type ℓ} → Option A → Bool
is_some none = false
is_some (some a) = true

-- The answers of the system to the transfers: AsyncIO of fBulkOutPipe and of fDataOutPipe2, and IO
-- of fCommandOutPipe, for the bytes of the transfer; whether fTxBuffer2 can be mapped for a length;
-- and the creation of the command buffer. An operation makes no call twice with the same arguments.
pub record Transfers : Type 0 where
  pub bulk_out : SendFn
  pub data_out2 : SendFn
  pub command_out : SendFn
  pub maps_buffer2 : ℕ → Bool
  pub create_cmd_buffer : IoReturn
