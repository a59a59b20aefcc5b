-- ===== src/Hub.antt =====
-- tools/rpi-hub/bosun_hub/hub.py, class Hub: its state, its three request paths and its dispatch.
pub mod State
pub mod Request
pub mod ContextFlight
pub mod PatchKey
pub mod PatchFlight
pub mod PatchReply
pub mod Dispatch
pub mod Send
