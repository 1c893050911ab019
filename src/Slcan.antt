-- ===== src/Slcan.antt =====
-- usb_can_driver/codecs/slcan_codec.h and slcan_codec.cc: the SLCAN text protocol.
mod Text
pub mod Lines
mod Tests
pub mod Digits
pub mod RoundTrip
pub mod Bounds
pub mod Cutting
pub mod Stream
pub mod Codec
pub mod Batch
pub mod Drain
unfoldable pub use Text.*
unfoldable pub use Lines.*
unfoldable pub use Codec.*
