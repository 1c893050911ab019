-- ===== src/Gsusb.antt =====
-- usb_can_driver/codecs/gsusb_codec.h and gsusb_codec.cc: the binary protocol of gs_usb adapters,
-- with one frame in each transfer and an echo for each frame that was sent.
pub mod Frames
pub mod Timing
pub mod Codec
pub mod Device
mod Tests
pub mod RoundTrip
pub mod Echo
pub mod Search
pub mod Sessions
unfoldable pub use Frames.*
unfoldable pub use Codec.*
unfoldable pub use Timing.*
unfoldable pub use Device.*
