-- ===== src/Client.antt =====
-- can_client/can_client.cc: the side of the application. A client drains the RX ring into the FIFO
-- of each reader, and writes frames to the TX ring of a channel.
mod Readers
mod Frames
mod Handles
mod Reading
mod Calls
mod Tests
mod HandleTests
mod CallTests
pub mod Fifo
pub mod Send
pub mod Rounds
pub mod Drain
pub mod Delivery
pub mod Reads
pub mod Waits
pub mod Control
pub mod Writers
pub mod Slots
pub mod Ownership
pub mod Objects
pub mod Lifetimes
unfoldable pub use Readers.*
unfoldable pub use Frames.*
