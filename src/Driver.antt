-- ===== src/Driver.antt =====
-- usb_can_driver/usb_can_driver.cpp: the class USBCANDriver.
pub mod State
pub mod Transfer
pub mod Drains
pub mod Channels
pub mod Answers
pub mod Fronts
pub mod Dual
pub mod Fallback
pub mod Pipes
pub mod Setup
pub mod Lifecycle
pub mod Keeps
pub mod Valid
pub mod Receive
pub mod Starts
pub mod Running
pub mod Histories
pub mod Reachable
pub mod Calls
pub mod Validity
pub mod Delivery
pub mod Bundles
pub mod Arrivals
pub mod Slots
pub mod Runs
pub mod Marks
pub mod Reads
pub mod Tests
pub mod SessionTests
