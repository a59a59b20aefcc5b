-- ===== src/Update.antt =====
-- tools/rpi-hub/bosun_hub/update_package.py and update_service.py: firmware updates.
pub mod Uf2
pub mod Jobs
pub mod Upload
