-- ===== src/Wifi.antt =====
-- The stored WiFi networks: the list in RAM and the file that keeps it.
pub mod Networks
pub mod Store
