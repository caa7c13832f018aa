-- ===== src/AccessPoints/Silabs.antt =====
-- The access point of a Silicon Labs radio: gateway/silabs. `Operations` has the operations of
-- gateway/silabs/ble_operations and how each handles an event, `Events` the access point's state
-- and its event thread, `Calls` the methods of `SilabsAccessPoint`.
pub mod Operations
pub mod Events
pub mod Calls
pub mod Values
pub mod Histories
pub mod Keeping
pub mod Connecting
pub mod Refusal
pub mod Reading
pub mod Lost
pub mod Steps
pub mod Bounds
pub mod Scanning
pub mod Unsubscribing
mod Tests
