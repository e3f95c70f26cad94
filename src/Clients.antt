-- ===== src/Clients.antt =====
-- The clients of the broker: manager/, publisher/ and subscriber/.
pub mod Manager
pub mod Rows
pub mod Listing
pub mod Subscriber
pub mod Printing
pub mod Publisher
pub mod Sending
pub mod Command
pub mod Asking
mod Tests
