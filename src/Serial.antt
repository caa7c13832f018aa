-- ===== src/Serial.antt =====
-- The serial transport of the access point: `ZephyrSerialBackend` of
-- pi-ap/zephyr_serial_backend.py. `State` has its fields; `Lines` what the event loop does with a
-- line from the dongle; `Requests` the requests; `Lifecycle` the reference count and the port.
pub mod State
pub mod Lines
pub mod Requests
pub mod Lifecycle
pub mod Isolation
pub mod Runs
pub mod Invariant
pub mod Replies
pub mod Leaks
pub mod Discovery
pub mod Transfer
mod Tests
