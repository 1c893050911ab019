-- ===== src/Codec.antt =====
-- usb_can_driver/driver_types.h: what the codecs of the three protocols share.
use i_can.Common.{ℕ, Option, none, List}
use i_can.Common.IoReturn.{IoReturn}
use i_can.Ring.{Header}

-- What a call of a codec's drainTx did: the shared memory after it, the bytes that it handed to the
-- driver's callback, if it did, and what it returned. The callback is an argument of the
-- definitions; its answer is all that the codecs use of it.
pub record DrainResult : Type 0 where
  pub header : Header
  pub sent : Option (List ℕ)
  pub result : IoReturn

abbrev pub SendFn : Type 0
SendFn = List ℕ → IoReturn

-- A call that returns before it has done anything.
abbrev pub returned : Header → IoReturn → DrainResult
returned h r = record { header = h; sent = none; result = r }
