-- ===== src/UserClient.antt =====
-- usb_can_driver/usb_can_user_client.cpp: the class USBCANUserClient.
pub mod Waits
pub mod Wakeups
pub mod Calls
pub mod Methods
pub mod Sessions
pub mod Conserved
mod Tests
