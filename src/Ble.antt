-- ===== src/Ble.antt =====
-- The Bluetooth data that access points handle: `Characteristics` is the property byte of
-- gateway/ble_types.py, `Advertisements` the search of an advertising packet of
-- gateway/silabs/common/util.py.
pub mod Characteristics
pub mod Services
pub mod Advertisements
