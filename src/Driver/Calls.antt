-- ===== src/Driver/Calls.antt =====
-- OpenChannel and CloseChannel leave the set-up of the driver alone.
use i_can.Common.{ℕ, not, ◌&&◌, ◌||◌, List, [], ◌∷◌, ◌==◌, if_both, arith}
use i_can.Common.Outcome.{Outcome, ok}
use i_can.Common.IoReturn.{IoReturn}
use i_can.Gsusb.Device as GsusbDevice
use i_can.Gsusb.Device.{UsbDevice}
use i_can.Pcan.Codec as PcanCodec
use i_can.Driver.State.{Driver, Transfers, CodecVariant, slcan, gsusb, pcan, protocol_pcan, is_some}
use i_can.Driver.Transfer.{send_command_bytes}
use i_can.Driver.Channels.{
  send_channel, after_sends, two_answers, gsusb_called, codec_open_channel, codec_close_channel,
  open_channel_of, close_channel_of,
}
use i_can.Driver.Histories.{Sends, Sends-refl, Sends-trans, send_raw_bytes-Sends, Ensures}
use i_can.Driver.Reachable.{Ensures-bind, anything}

send_command_bytes-Sends :
    (u : Transfers) (d : Driver) (bytes : List ℕ) → Sends d (send_command_bytes u d bytes).1
unfolding send_command_bytes
send_command_bytes-Sends u d bytes = ground arith

send_channel-Sends :
    (u : Transfers) (d : Driver) (bytes : List ℕ) → Sends d (send_channel u d bytes).1
unfolding send_channel
send_channel-Sends u d bytes =
    if_both (λ (r : IoReturn × Driver). Sends d r.1)
      ((d.detected_protocol == protocol_pcan) && is_some d.command_out_pipe)
      (send_command_bytes-Sends u d bytes) (send_raw_bytes-Sends u d bytes)

after_sends-Sends :
    (u : Transfers) (sent : List (List ℕ)) (d : Driver) → Sends d (after_sends u d sent)
unfolding after_sends
after_sends-Sends u [] d = Sends-refl d
after_sends-Sends u (bytes ∷ rest) d =
    Sends-trans d (send_channel u d bytes).1 _ (send_channel-Sends u d bytes)
      (after_sends-Sends u rest (send_channel u d bytes).1)

recoded-Sends : (d e : Driver) (c : CodecVariant) → Sends d e → Sends d (record e { codec = c })
recoded-Sends d e c s = ground arith

abbrev pub SendsOnly : Driver → Outcome (IoReturn × Driver) → Type 0
SendsOnly d m = Ensures (λ (r : IoReturn × Driver). Sends d r.1) m

codec_open-Sends :
    (u : Transfers) (dev : UsbDevice) (d : Driver) (c : CodecVariant) (bitrate channel : ℕ)
    → SendsOnly d (codec_open_channel u dev d c bitrate channel)
unfolding codec_open_channel
codec_open-Sends u dev d (slcan a) bitrate channel = after_sends-Sends u _ d
codec_open-Sends u dev d (gsusb c) bitrate channel =
    Ensures-bind (λ (r : IoReturn × Driver). Sends d r.1) (λ _. Unit {0})
      (GsusbDevice.open_channel dev c bitrate) (λ r. ok (gsusb_called d r))
      (anything (GsusbDevice.open_channel dev c bitrate))
      (λ r _. recoded-Sends d d (gsusb r.1) (Sends-refl d))
codec_open-Sends u dev d (pcan c n) bitrate channel =
    let run =
      PcanCodec.open_channel (two_answers u d (PcanCodec.filter_rows 64 channel 0)) c bitrate
        channel in
    Ensures-bind (λ (r : IoReturn × Driver). Sends d r.1) (λ _. Unit {0}) run
      (λ r. ok (r.result, record (after_sends u d r.sent) { codec = pcan r.channels n }))
      (anything run)
      (λ r _.
        recoded-Sends d (after_sends u d r.sent) (pcan r.channels n) (after_sends-Sends u r.sent d))

codec_close-Sends :
    (u : Transfers) (dev : UsbDevice) (d : Driver) (c : CodecVariant) (channel : ℕ)
    → SendsOnly d (codec_close_channel u dev d c channel)
unfolding codec_close_channel
codec_close-Sends u dev d (slcan a) channel = after_sends-Sends u _ d
codec_close-Sends u dev d (gsusb c) channel =
    recoded-Sends d d (gsusb (GsusbDevice.close_channel dev c).1) (Sends-refl d)
codec_close-Sends u dev d (pcan c n) channel =
    let r = PcanCodec.close_channel (λ bytes. (send_channel u d bytes).0) c channel in
    recoded-Sends d (after_sends u d r.sent) (pcan r.channels n) (after_sends-Sends u r.sent d)

pub open_channel_of-Sends :
    (u : Transfers) (dev : UsbDevice) (d : Driver) (bitrate channel : ℕ)
    → SendsOnly d (open_channel_of u dev d bitrate channel)
unfolding open_channel_of
open_channel_of-Sends u dev d bitrate channel =
    if_both (SendsOnly d) (not d.is_configured || not (is_some d.bulk_out_pipe)) (Sends-refl d)
      (codec_open-Sends u (record dev { present = d.has_device }) d d.codec bitrate channel)

pub close_channel_of-Sends :
    (u : Transfers) (dev : UsbDevice) (d : Driver) (channel : ℕ)
    → SendsOnly d (close_channel_of u dev d channel)
unfolding close_channel_of
close_channel_of-Sends u dev d channel =
    if_both (SendsOnly d) (not d.is_configured || not (is_some d.bulk_out_pipe)) (Sends-refl d)
      (codec_close-Sends u (record dev { present = d.has_device }) d d.codec channel)
