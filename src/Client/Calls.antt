-- ===== src/Client/Calls.antt =====
-- The calls of class CANClient that control the connection, and those that write. What the driver
-- answers is a parameter, and the calls that reach it are part of the result.
use i_can.Common.{
  ℕ, ◌+◌, ◌-◌, ◌*◌, ◌%◌, ◌^◌, Bool, true, false, not, ◌&&◌, Option, none, some, List, [], ◌∷◌, ◌++◌,
  map, ltb, leb, ◌==◌, if◌then◌else◌, set, get_or, take, drop, replicate,
}
use i_can.Common.Words.{add32, u64_mod}
use i_can.Can.{Frame, can_max_dlen, memcpy}
use i_can.Ring.{Header, CodecCounters, zero_frame}
use i_can.Client.Readers.{ReaderSlot, max_channels, on_channel}
use i_can.Client.Frames.{Client, usable, write_tx_frame}

-- The calls to the driver.
pub data DriverCall : Type 0 where
  set_baud_rate_call : ℕ → DriverCall
  open_channel_call : ℕ → ℕ → DriverCall
  close_channel_call : ℕ → DriverCall
  close_call : DriverCall

-- `last_error`, by the message
pub data ApiError : Type 0 where
  not_connected set_baud_rate_failed open_channel_failed : ApiError

-- The state of CANClientImpl with its connection: `connection != 0` is `linked`.
pub record Connection : Type 0 where
  pub client : Client
  pub is_connected : Bool
  pub is_open : Bool
  pub linked : Bool
  pub last_error : Option ApiError

-- What a call comes to: the state, the calls to the driver, and whether it returned 0.
pub record ApiResult : Type 0 where
  pub state : Connection
  pub calls : List DriverCall
  pub done : Bool

-- Which calls the driver answers with success.
abbrev pub Driver : Type 0
Driver = DriverCall → Bool

abbrev fail : Connection → List DriverCall → ApiError → ApiResult
fail s calls e = record { state = record s { last_error = some e }; calls = calls; done = false }

-- CANClient::openSerial, closeSerial and setBaudRate
abbrev pub open_serial : Connection → ApiResult
open_serial s =
    if s.is_connected
    then record { state = s; calls = []; done = true }
    else fail s [] not_connected

abbrev pub close_serial : Connection → ApiResult
close_serial s = record { state = s; calls = []; done = true }

unfoldable pub set_baud_rate : Driver → Connection → ℕ → ApiResult
set_baud_rate driver s baud_rate =
    let call = set_baud_rate_call baud_rate in
    if not s.is_connected
    then fail s [] not_connected
    else if driver call
    then record { state = s; calls = call ∷ []; done = true }
    else fail s (call ∷ []) set_baud_rate_failed

abbrev pub clear_slot : ReaderSlot → ReaderSlot
clear_slot r = record r { head = 0; tail = 0; epoch = 0 }

-- The slots after openChannel: those of the channel are emptied.
abbrev pub clear_channel : ℕ → ReaderSlot → ReaderSlot
clear_channel channel r = if r.active && on_channel r channel then clear_slot r else r

-- CANClient::openChannel, for `_channel`
unfoldable pub open_channel : Driver → Connection → ℕ → ℕ → ApiResult
open_channel driver s channel bitrate =
    let call = open_channel_call bitrate channel in
    let ch = if ltb channel max_channels then channel else 0 in
    let opened = record s {
      is_open = true;
      client = record s.client { readers = map (clear_channel ch) s.client.readers };
      last_error = none;
    } in
    if not s.is_connected
    then fail s [] not_connected
    else if driver call
    then record { state = opened; calls = call ∷ []; done = true }
    else fail s (call ∷ []) open_channel_failed

-- CANClient::closeChannel
unfoldable pub close_channel : Connection → ℕ → ApiResult
close_channel s channel = record {
  state = record s { is_open = false };
  calls = if s.linked then close_channel_call channel ∷ [] else [];
  done = true;
}

-- CANClient::start and stop
unfoldable pub start : Driver → Connection → ℕ → ℕ → ApiResult
start driver s channel bitrate =
    if (open_serial s).done
    then open_channel driver (open_serial s).state channel bitrate
    else open_serial s

abbrev pub stop : Connection → ℕ → ApiResult
stop s channel =
    let closed = close_channel s channel in
    record { state = (close_serial closed.state).state; calls = closed.calls; done = true }

-- CANClient::close
unfoldable pub close : Connection → ℕ → Connection × List DriverCall
close s channel = (
  record {
    client = record s.client { ring_header = none; readers = map clear_slot s.client.readers };
    is_connected = false;
    is_open = false;
    linked = false;
    last_error = s.last_error;
  },
  (if s.is_open && s.linked then close_channel_call channel ∷ [] else [])
      ++ (if s.linked then close_call ∷ [] else []),
)

-- `struct can_frame`, as writeClassic takes it
pub record ClassicFrame : Type 0 where
  pub can_id : ℕ
  pub len : ℕ
  pub payload : List ℕ

-- The frame that writeClassic writes for `_channel`.
abbrev pub widen : ℕ → ClassicFrame → Frame
widen channel f =
    let copy_len = if ltb can_max_dlen f.len then can_max_dlen else f.len in
    record zero_frame {
      can_id = f.can_id;
      len = copy_len;
      res0 = channel % 256;
      payload = memcpy (replicate 64 0) f.payload copy_len;
    }

-- The state that a write changes: CANClientImpl, the ids that were sent last on each channel with
-- their times, and `_isTxRegistered`.
pub record Writer : Type 0 where
  pub client : Client
  pub tx_id_last_seen : ℕ → List (ℕ × ℕ)
  pub is_tx_registered : Bool

-- `txIdLastSeen[channel][id] = now`
abbrev pub mark_seen : List (ℕ × ℕ) → ℕ → ℕ → List (ℕ × ℕ)
mark_seen [] id now = (id, now) ∷ []
mark_seen ((i, t) ∷ l) id now = if i == id then (id, now) ∷ l else (i, t) ∷ mark_seen l id now

-- The first successful write of an object counts it as a writer of its channel.
abbrev pub register_writer : Writer → ℕ → Writer
register_writer w channel =
    if not w.is_tx_registered && ltb channel max_channels
    then record w {
      client = record w.client {
        tx_writer_count =
            set w.client.tx_writer_count channel
              (add32 (get_or w.client.tx_writer_count channel 0) 1);
      };
      is_tx_registered = true;
    }
    else w

-- One write in 256 notes its id.
abbrev pub track_id : Writer → ℕ → ℕ → ℕ → Writer
track_id w channel can_id now =
    if ltb channel max_channels && get_or w.client.tx_write_count channel 0 % 256 == 0
    then record w {
      tx_id_last_seen = λ k.
          if k == channel
          then mark_seen (w.tx_id_last_seen k) (can_id % 2 ^ 29) now
          else w.tx_id_last_seen k;
    }
    else w

-- What write does with the result of writeTxFrame.
abbrev pub finish : Writer → ℕ → ℕ → ℕ → Client × Bool → Writer × Bool
finish w channel can_id now (c, false) = (record w { client = c }, false)
finish w channel can_id now (c, true) =
    (track_id (register_writer (record w { client = c }) channel) channel can_id now, true)

-- CANClient::write and writeClassic, at the time `now` in microseconds
unfoldable pub write : Writer → ℕ → Frame → ℕ → Writer × Bool
write w channel f now =
    finish w channel f.can_id now
      (write_tx_frame w.client (record f { res0 = channel % 256 }) channel)

unfoldable pub write_classic : Writer → ℕ → ClassicFrame → ℕ → Writer × Bool
write_classic w channel f now =
    finish w channel f.can_id now (write_tx_frame w.client (widen channel f) channel)

-- The counts that a client shows. Those of the shared memory are 0 where it is not usable.
abbrev shown : (Header → ℕ) → Option Header → ℕ
shown count none = 0
shown count (some h) = count h

abbrev pub drop_count : Client → ℕ
drop_count c = shown (λ h. h.rx_dropped) (usable c.ring_header)

abbrev pub codec_count : (CodecCounters → ℕ) → Client → ℕ
codec_count field c = shown (λ h. field h.codec) (usable c.ring_header)

abbrev pub tx_count : Client → ℕ → ℕ
tx_count c channel = if ltb channel max_channels then get_or c.tx_write_count channel 0 else 0

abbrev pub tx_writers : Client → ℕ → ℕ
tx_writers c channel = if ltb channel max_channels then get_or c.tx_writer_count channel 0 else 0

abbrev pub rx_reader_count : List ReaderSlot → ℕ → ℕ
rx_reader_count [] channel = 0
rx_reader_count (r ∷ rs) channel =
    (if r.active && on_channel r channel then 1 else 0) + rx_reader_count rs channel

-- The ids among those noted that were seen within so many seconds.
abbrev pub seen_within : List (ℕ × ℕ) → ℕ → ℕ → ℕ
seen_within [] now window = 0
seen_within ((i, t) ∷ l) now window =
    (if leb t now && ltb (now - t) window then 1 else 0) + seen_within l now window

abbrev pub tx_unique_ids : Writer → ℕ → ℕ → ℕ → ℕ
tx_unique_ids w channel now window_sec =
    if ltb channel max_channels
    then seen_within (w.tx_id_last_seen channel) now (window_sec * 1000000 % u64_mod)
    else 0

-- CANClient::dbgHead, into the array `out` of `max_len` bytes
abbrev head_of : List ℕ → ℕ → Option Header → List ℕ
head_of out n none = out
head_of out n (some h) = take n h.codec.dbg_head ++ drop n out

abbrev pub dbg_head_of : Client → List ℕ → ℕ → List ℕ
dbg_head_of c out max_len =
    let n = if ltb max_len 48 then max_len else 48 in
    if max_len == 0 then out else head_of out n (usable c.ring_header)
