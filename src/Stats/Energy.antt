-- ===== src/Stats/Energy.antt =====
-- The energy of the pet, and where its byte wraps.
use sticks3_buddy.Prelude.{
  ℕ, ◌-◌, ◌/◌, ◌≤◌, ◌<◌, max, ◌≡◌, Bool, true, false, arith, if◌then◌else◌, sub32,
}
use sticks3_buddy.Stats.{StatsState, energy_tier}

-- Whole steps of two hours since the last nap.
abbrev pub steps : ℕ → StatsState → ℕ
steps now s = sub32 now s.last_nap_end_ms / 3600000 / 2

-- In the first 128 steps, ten days, the energy drains by one a step from what it was, between the
-- floor, which is 1 on USB power, and 5.
pub energy_tier_drains :
    (on_usb : Bool) (now : ℕ) (s : StatsState)
    → s.energy_at_nap ≤ 5
    → steps now s < 128
    → energy_tier on_usb now s ≡ max (if on_usb then 1 else 0) (s.energy_at_nap - steps now s)
unfolding energy_tier
energy_tier_drains true now s h k = ground arith
energy_tier_drains false now s h k = ground arith
