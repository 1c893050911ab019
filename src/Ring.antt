-- ===== src/Ring.antt =====
-- can_client/shared_ring.h and can_client/shared_ring_io.h: the shared memory between the driver
-- and its clients, with its byte rings, and the reading and writing of frames in them.
mod Memory
mod Io
mod Tests
pub mod Bytes
pub mod Queue
pub mod Transmit
pub mod Receive
unfoldable pub use Memory.*
unfoldable pub use Io.*
