-- ===== src/Pcan.antt =====
-- usb_can_driver/codecs/pcan_codec.h and pcan_codec.cc: the binary protocol of PCAN-USB Pro FD
-- adapters, which have two channels and send several messages in a transfer.
pub mod Frames
pub mod Stream
mod Timing
pub mod Codec
mod Tests
pub mod RoundTrip
pub mod Messages
pub mod Parse
pub mod Search
pub mod Drain
pub mod Commands
pub mod Sessions
unfoldable pub use Frames.*
unfoldable pub use Stream.*
unfoldable pub use Timing.*
unfoldable pub use Codec.*
