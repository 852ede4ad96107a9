-- ===== src/Input.antt =====
-- What the user does with the device: the two buttons (src/logic/button_logic.h), the debounce of one
-- and the chord of both, and the gestures (src/logic/gesture_logic.h).
pub mod Button
pub mod Chord
pub mod Gesture
mod Examples
