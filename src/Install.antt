-- ===== src/Install.antt =====
-- tools/rpi-hub/bosun_hub/firmware_install.py: the firmware transaction.
pub mod Snapshot
pub mod Action
pub mod Inventory
pub mod Transaction
pub mod Evidence
