-- ===== src/Scim.antt =====
-- Parts of the SCIM server: the registry of extensions, the creation of devices, and the text of
-- FDO vouchers.
mod Extensions
mod Registering
mod Devices
mod Pairing
mod Ethermab
mod Fdo
mod Hooks
mod Sessions
mod Building
mod Creation
mod Macs
mod Stores
mod Duplicates
mod Vouchers
mod Wrapping
mod Tests
