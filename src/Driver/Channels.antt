-- ===== src/Driver/Channels.antt =====
-- OpenChannel and CloseChannel of the driver.
use i_can.Common.{
  ℕ, Bool, true, false, not, ◌&&◌, ◌||◌, Option, none, some, List, [], ◌∷◌, ◌==◌, if◌then◌else◌,
}
use i_can.Common.Outcome.{Outcome, ok, ◌>>=◌}
use i_can.Common.IoReturn.{IoReturn, not_ready}
use i_can.Codec.{SendFn}
use i_can.Slcan.Codec as SlcanCodec
use i_can.Gsusb.Device as GsusbDevice
use i_can.Gsusb.Device.{UsbDevice}
use i_can.Pcan.Codec as PcanCodec
use i_can.Driver.State.{Driver, Transfers, CodecVariant, slcan, gsusb, pcan, protocol_pcan, is_some}
use i_can.Driver.Transfer.{send_raw_bytes, send_command_bytes}

-- sendFn of both calls: the command pipe for PCAN, if there is one, and else the data pipe.
unfoldable pub send_channel : Transfers → Driver → List ℕ → IoReturn × Driver
send_channel u d bytes =
    if (d.detected_protocol == protocol_pcan) && is_some d.command_out_pipe
    then send_command_bytes u d bytes
    else send_raw_bytes u d bytes

-- The driver after some calls of sendFn.
unfoldable pub after_sends : Transfers → Driver → List (List ℕ) → Driver
after_sends u d [] = d
after_sends u d (bytes ∷ rest) = after_sends u (send_channel u d bytes).1 rest

-- Whether two transfers have the same bytes.
unfoldable pub same_bytes : List ℕ → List ℕ → Bool
same_bytes [] [] = true
same_bytes [] (b ∷ bs) = false
same_bytes (a ∷ as_) [] = false
same_bytes (a ∷ as_) (b ∷ bs) = let rest = same_bytes as_ bs in (a == b) && rest

-- The answers to the two transfers of openChannel of PCAN, of which the second finds the driver as
-- the first left it.
unfoldable pub two_answers : Transfers → Driver → List ℕ → SendFn
two_answers u d first bytes =
    if same_bytes bytes first
    then (send_channel u d first).0
    else (send_channel u (send_channel u d first).1 bytes).0

abbrev pub at_most_one_transfer : Option (List ℕ) → List (List ℕ)
at_most_one_transfer none = []
at_most_one_transfer (some bytes) = bytes ∷ []

abbrev pub slcan_called :
    Transfers → Driver → Option (List ℕ) × IoReturn → Outcome (IoReturn × Driver)
slcan_called u d (sent, ret) = ok (ret, after_sends u d (at_most_one_transfer sent))

abbrev pub gsusb_called : Driver → IoReturn × GsusbDevice.CodecState → IoReturn × Driver
gsusb_called d (ret, c) = (ret, record d { codec = gsusb c })

-- std::visit of openChannel
unfoldable pub codec_open_channel :
    Transfers → UsbDevice → Driver → CodecVariant → ℕ → ℕ → Outcome (IoReturn × Driver)
codec_open_channel u dev d (slcan a) bitrate channel =
    slcan_called u d (SlcanCodec.open_channel (λ bytes. (send_channel u d bytes).0) bitrate)
codec_open_channel u dev d (gsusb c) bitrate channel =
    GsusbDevice.open_channel dev c bitrate >>= λ r. ok (gsusb_called d r)
codec_open_channel u dev d (pcan c n) bitrate channel =
    PcanCodec.open_channel (two_answers u d (PcanCodec.filter_rows 64 channel 0)) c bitrate channel
    >>= λ r. ok (r.result, record (after_sends u d r.sent) { codec = pcan r.channels n })

-- std::visit of closeChannel
unfoldable pub codec_close_channel :
    Transfers → UsbDevice → Driver → CodecVariant → ℕ → Outcome (IoReturn × Driver)
codec_close_channel u dev d (slcan a) channel =
    slcan_called u d (SlcanCodec.close_channel (λ bytes. (send_channel u d bytes).0))
codec_close_channel u dev d (gsusb c) channel =
    ok (gsusb_called d (GsusbDevice.close_channel dev c))
codec_close_channel u dev d (pcan c n) channel =
    let r = PcanCodec.close_channel (λ bytes. (send_channel u d bytes).0) c channel in
    ok (r.result, record (after_sends u d r.sent) { codec = pcan r.channels n })

-- USBCANDriver::OpenChannel and CloseChannel
unfoldable pub open_channel_of :
    Transfers → UsbDevice → Driver → ℕ → ℕ → Outcome (IoReturn × Driver)
unfolding codec_open_channel
open_channel_of u dev d bitrate channel =
    if not d.is_configured || not (is_some d.bulk_out_pipe)
    then ok (not_ready, d)
    else codec_open_channel u (record dev { present = d.has_device }) d d.codec bitrate channel

unfoldable pub close_channel_of : Transfers → UsbDevice → Driver → ℕ → Outcome (IoReturn × Driver)
unfolding codec_close_channel
close_channel_of u dev d channel =
    if not d.is_configured || not (is_some d.bulk_out_pipe)
    then ok (not_ready, d)
    else codec_close_channel u (record dev { present = d.has_device }) d d.codec channel
