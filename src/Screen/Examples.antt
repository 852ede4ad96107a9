-- ===== src/Screen/Examples.antt =====
-- The layout at concrete inputs.
use sticks3_buddy.Prelude.{◌+◌, ◌≤◌, ◌<◌, arith}
use sticks3_buddy.Screen.{window_start, marquee_offset}
use sticks3_buddy.Screen.Window.{window_start_shows, marquee_offset_le}

window_start_shows_test :
    (window_start 9 10 4 ≤ 9) × (9 < window_start 9 10 4 + 4) × (window_start 9 10 4 + 4 ≤ 10)
window_start_shows_test = window_start_shows 9 10 4 (omega arith) (omega arith) (omega arith)

marquee_offset_le_test : marquee_offset 30 20 100 ≤ 10
marquee_offset_le_test = marquee_offset_le 30 20 100 (omega arith)
