-- ===== src/Driver/Validity.antt =====
-- Every driver that calls lead to is valid.
use i_can.Common.{ℕ, ◌≡◌, sym, subst, Bool, false, List, arith}
use i_can.Common.Outcome.{ok}
use i_can.Common.IoReturn.{IoReturn}
use i_can.Gsusb.Device.{UsbDevice}
use i_can.Driver.State.{Driver, Transfers}
use i_can.Driver.Slots.{BundledFn}
use i_can.Driver.Channels.{open_channel_of, close_channel_of}
use i_can.Driver.Drains.{send_data, write_complete, write_complete2}
use i_can.Driver.Receive.{Completion, read_complete_bundled}
use i_can.Driver.Lifecycle.{StartCalls, start_io, stop_io, set_line_coding}
use i_can.Driver.Valid.{IsValid}
use i_can.Driver.Starts.{start_io-IsValid, stop_io-IsValid, set_line_coding-IsValid}
use i_can.Driver.Histories.{Sends, Sends-IsValid}
use i_can.Driver.Reachable.{
  Ensures-ok, send_data-Ensures, write_complete-Ensures, write_complete2-Ensures,
  read_complete_bundled-Ensures,
}
use i_can.Driver.Calls.{open_channel_of-Sends, close_channel_of-Sends}

-- The operations of the driver that the user client and the system call, with any answers of the
-- system: t is the driver after one that returned.
pub data Step (d t : Driver) : Type 0 where
  start_step : (sys : StartCalls) → t ≡ (start_io sys d).1 → Step d t
  stop_step : (dev : UsbDevice) → t ≡ (stop_io dev d).1 → Step d t
  coding_step :
      (dev : UsbDevice) (baud data_bits stop parity : ℕ)
      → t ≡ (set_line_coding dev d baud data_bits stop parity).1
      → Step d t
  open_step :
      (u : Transfers) (dev : UsbDevice) (bitrate channel : ℕ) (ret : IoReturn)
      → open_channel_of u dev d bitrate channel ≡ ok (ret, t)
      → Step d t
  close_step :
      (u : Transfers) (dev : UsbDevice) (channel : ℕ) (ret : IoReturn)
      → close_channel_of u dev d channel ≡ ok (ret, t)
      → Step d t
  send_step :
      (u : Transfers) (bytes : List ℕ) (ret : IoReturn)
      → send_data u d bytes ≡ ok (ret, t)
      → Step d t
  written_step : (u : Transfers) (status : IoReturn) → write_complete u status d ≡ ok t → Step d t
  written2_step : (u : Transfers) (status : IoReturn) → write_complete2 u status d ≡ ok t → Step d t
  read_step :
      (u : Transfers) (io : BundledFn) (clock : ℕ → ℕ) (index : ℕ) (cs : List Completion)
      (notified : Bool)
      → read_complete_bundled u io clock index cs d ≡ ok (t, notified)
      → Step d t

-- The drivers that some calls lead to from one that is not configured and not running.
pub data Reached : Driver → Type 0 where
  fresh :
      (d : Driver)
      → d.is_configured ≡ false
      → d.is_running ≡ false
      → d.has_write_action2 ≡ false
      → Reached d
  next : {d t : Driver} → Reached d → Step d t → Reached t

Step-IsValid : (d t : Driver) → Step d t → IsValid d → IsValid t
Step-IsValid d t (start_step sys e) v = subst IsValid (sym e) (start_io-IsValid sys d v)
Step-IsValid d t (stop_step dev e) v = subst IsValid (sym e) (stop_io-IsValid dev d v)
Step-IsValid d t (coding_step dev baud bits stop parity e) v =
    subst IsValid (sym e) (set_line_coding-IsValid dev d baud bits stop parity v)
Step-IsValid d t (open_step u dev bitrate channel ret e) v =
    Sends-IsValid d t
      (Ensures-ok (λ (p : IoReturn × Driver). Sends d p.1) (open_channel_of u dev d bitrate channel)
        (ret, t) (open_channel_of-Sends u dev d bitrate channel) e)
      v
Step-IsValid d t (close_step u dev channel ret e) v =
    Sends-IsValid d t
      (Ensures-ok (λ (p : IoReturn × Driver). Sends d p.1) (close_channel_of u dev d channel)
        (ret, t) (close_channel_of-Sends u dev d channel) e)
      v
Step-IsValid d t (send_step u bytes ret e) v =
    Sends-IsValid d t
      (Ensures-ok (λ (p : IoReturn × Driver). Sends d p.1) (send_data u d bytes) (ret, t)
        (send_data-Ensures u d bytes) e)
      v
Step-IsValid d t (written_step u status e) v =
    Sends-IsValid d t
      (Ensures-ok (Sends d) (write_complete u status d) t (write_complete-Ensures u status d) e) v
Step-IsValid d t (written2_step u status e) v =
    Sends-IsValid d t
      (Ensures-ok (Sends d) (write_complete2 u status d) t (write_complete2-Ensures u status d) e) v
Step-IsValid d t (read_step u io clock index cs notified e) v =
    Sends-IsValid d t
      (Ensures-ok (λ (p : Driver × Bool). Sends d p.0) (read_complete_bundled u io clock index cs d)
        (t, notified) (read_complete_bundled-Ensures u io clock index cs d) e)
      v

-- Whatever the system answers, after any calls of StartIO, StopIO, SetLineCoding, OpenChannel,
-- CloseChannel, SendData and the three completions: a configured driver has both bulk pipes and its
-- TX buffer, a running one is configured and has the actions for its reads and writes, and where
-- there is an action for channel 1, there is a buffer for it.
pub Reached-IsValid : {d : Driver} → Reached d → IsValid d
Reached-IsValid (fresh d c r p) = ground arith
Reached-IsValid (next {d} {t} r st) = Step-IsValid d t st (Reached-IsValid r)
