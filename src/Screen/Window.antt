-- ===== src/Screen/Window.antt =====
-- The window of a list and the marquee stay inside what they show.
use sticks3_buddy.Prelude.{
  ℕ, ◌+◌, ◌-◌, ◌*◌, ◌%◌, ◌≤◌, ◌<◌, max, ◌||◌, arith, leb, ◌==◌, if_intro, u16,
}
use sticks3_buddy.Screen.{window_start, marquee_offset, offset_at}

-- In a list of at most 255 rows with the selection inside, the window shows the selection, and it
-- shows no row behind the last unless the list is shorter than the window.
pub window_start_shows :
    (sel count vis : ℕ)
    → sel < count
    → count < 256
    → 0 < vis
    → (window_start sel count vis ≤ sel)
      × (sel < window_start sel count vis + vis)
      × (window_start sel count vis + vis ≤ max count vis)
unfolding window_start
window_start_shows sel count vis h k l = ground arith

-- The marquee never scrolls past the end of its text, at any tick.
pub marquee_offset_le :
    (len window tick : ℕ) → len < 65536 → marquee_offset len window tick ≤ len - window
unfolding marquee_offset
marquee_offset_le len window tick h =
    if_intro (λ (o : ℕ). o ≤ len - window) (window == 0 || leb len window) (omega arith)
      (bound (tick % (u16 (len - window) + 2 * 8)))
  where
    bound : (ph : ℕ) → offset_at (u16 (len - window)) ph ≤ len - window
    bound ph = ground arith
