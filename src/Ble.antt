-- ===== src/Ble.antt =====
-- The BLE bridge (src/ble_bridge.cpp): the ring of received bytes, the link and its callbacks, the
-- pairing window, the key of a bond and the chunks that are sent.
pub mod Ring
pub mod Link
pub mod Bonds
pub mod Chunks
mod Examples
