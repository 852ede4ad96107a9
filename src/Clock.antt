-- ===== src/Clock.antt =====
-- The wall clock: calendar arithmetic, the formats of the clock face and its orientation.
pub mod Time
pub mod Display
pub mod Orient
mod Examples
