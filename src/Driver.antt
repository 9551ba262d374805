-- ===== src/Driver.antt =====
-- driver.c: the queue of transactions between the file system and the server's threads.
pub mod State
pub mod Daemon
pub mod Request
pub mod System
pub mod Invariant
pub mod Progress
pub mod Safety
pub mod Hazards
pub mod Serials
pub mod Delivery
pub mod Lifecycle
pub mod Integrity
pub mod Setup
pub mod Order
pub mod Liveness
pub mod Runs
mod Tests
