-- ===== src/Stats/RoundTrip.antt =====
-- The settings that a boot reads back.
use sticks3_buddy.Prelude.{
  ℕ, ◌≤◌, ◌<◌, ◌≡◌, refl, false, arith, leb, if_false, ℤ, pos, negsuc, bytes_eq,
}
use sticks3_buddy.Stats.Prefs.{Prefs, Settings, settings_read, settings_save, within, host_slot}

-- The values that the menus can set.
pub record IsValid (s : Settings) : Type 0 where
  pub vol_fits : s.vol ≤ 4
  pub rot_fits : s.clock_rot ≤ 2
  pub bright_fits : s.bright ≤ 4
  pub pair_fits : s.pair ≤ 1
  pub slot_fits : (n : ℕ) → s.hostsel ≡ pos n → n < 7
  pub fb_fits : s.hostfb ≤ 1
  pub tune_fits : s.tune ≤ 1
  pub home_fits : s.home ≤ 1

within_same : (limit fallback n : ℕ) → n ≤ limit → within limit fallback n ≡ n
within_same limit fallback n h = ground arith

host_slot_same : (z : ℤ) → ((n : ℕ) → z ≡ pos n → n < 7) → host_slot z ≡ z
host_slot_same (pos n) h = if_false (leb 7 n) _ _ (low (h n refl))
  where
    low : n < 7 → leb 7 n ≡ false
    low l = ground arith
host_slot_same (negsuc n) h = refl

-- Settings in their ranges come back as they were saved, whatever NVS held.
pub settings_read-settings_save :
    (s : Settings) (p : Prefs) → IsValid s → settings_read (settings_save s p) ≡ s
unfolding settings_read settings_save bytes_eq
settings_read-settings_save s p v = λ i. record s {
  vol = within_same 4 4 s.vol v.vol_fits i;
  clock_rot = within_same 2 0 s.clock_rot v.rot_fits i;
  bright = within_same 4 4 s.bright v.bright_fits i;
  pair = within_same 1 0 s.pair v.pair_fits i;
  hostsel = host_slot_same s.hostsel v.slot_fits i;
  hostfb = within_same 1 1 s.hostfb v.fb_fits i;
  tune = within_same 1 1 s.tune v.tune_fits i;
  home = within_same 1 0 s.home v.home_fits i;
}
