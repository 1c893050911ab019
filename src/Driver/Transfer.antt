-- ===== src/Driver/Transfer.antt =====
-- Transfers to the device: SendRawBytes, SendRawBytesChannel1, SendCommandBytes and the completions.
use i_can.Common.{ℕ, true, false, not, ◌&&◌, ◌||◌, List, ltb, ◌==◌, if◌then◌else◌, length}
use i_can.Common.IoReturn.{IoReturn, success, not_ready, busy, no_memory, no_space, is_success}
use i_can.Driver.State.{Driver, Transfers, is_some}

-- TX_BUFFER_SIZE
abbrev pub driver_tx_buffer_size : ℕ
driver_tx_buffer_size = 4096

-- USBCANDriver::SendRawBytes. The driver's own buffer is taken to be mapped, as in the code.
unfoldable pub send_raw_bytes : Transfers → Driver → List ℕ → IoReturn × Driver
send_raw_bytes u d bytes =
    if not d.is_configured || not (is_some d.bulk_out_pipe)
    then (not_ready, d)
    else if length bytes == 0
    then (success, d)
    else if ltb driver_tx_buffer_size (length bytes)
    then (no_space, d)
    else if d.tx_in_flight
    then (busy, d)
    else (u.bulk_out bytes, record d { tx_in_flight = is_success (u.bulk_out bytes) })

-- USBCANDriver::SendRawBytesChannel1
unfoldable pub send_raw_bytes_channel1 : Transfers → Driver → List ℕ → IoReturn × Driver
send_raw_bytes_channel1 u d bytes =
    if not d.is_configured || (not (is_some d.data_out_pipe2) || not d.has_tx_buffer2)
    then (not_ready, d)
    else if length bytes == 0
    then (success, d)
    else if ltb driver_tx_buffer_size (length bytes)
    then (no_space, d)
    else if d.tx_in_flight2
    then (busy, d)
    else if not (u.maps_buffer2 (length bytes))
    then (no_memory, record d { tx_in_flight2 = false })
    else (u.data_out2 bytes, record d { tx_in_flight2 = is_success (u.data_out2 bytes) })

-- USBCANDriver::SendCommandBytes
unfoldable pub send_command_bytes : Transfers → Driver → List ℕ → IoReturn × Driver
send_command_bytes u d bytes =
    if not (is_some d.command_out_pipe)
    then (not_ready, d)
    else if length bytes == 0
    then (success, d)
    else if ltb 512 (length bytes)
    then (no_space, d)
    else if not d.has_cmd_buffer && not (is_success u.create_cmd_buffer)
    then (u.create_cmd_buffer, d)
    else (u.command_out bytes, record d { has_cmd_buffer = true })

-- USBCANDriver::CommandWriteComplete_Impl
unfoldable pub command_write_complete : Driver → Driver
command_write_complete d = record d { cmd_in_flight = false }
