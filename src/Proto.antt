-- ===== src/Proto.antt =====
-- The wire protocol (src/proto_parse.h), one line at a time.
pub mod Json
pub mod State
pub mod Device
pub mod Reply
pub mod Commands
pub mod Events
pub mod Heartbeat
pub mod Apply
mod Purity
mod Rxack
mod Entries
mod Greeting
mod Ingest
pub mod Sample
mod Examples
