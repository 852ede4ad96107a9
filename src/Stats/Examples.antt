-- ===== src/Stats/Examples.antt =====
-- The statistics at concrete inputs.
use sticks3_buddy.Prelude.{
  ◌+◌, ℕ, ◌*◌, ◌<◌, ◌≡◌, refl, true, false, none, [], ◌∷◌, arith, length, All, pos, codes,
}
use sticks3_buddy.Stats.{
  Stats, StatsState, safe_copy, median_velocity, insert_loop, sort_loop, energy_tier,
}
use sticks3_buddy.Stats.Prefs.{Settings, settings_read, settings_save}
use sticks3_buddy.Stats.Tokens.{feed, feed-tokens}
use sticks3_buddy.Stats.Names.{IsPlain, safe_copy-IsPlain}
use sticks3_buddy.Stats.Energy.{energy_tier_drains}
use sticks3_buddy.Stats.RoundTrip.{IsValid, settings_read-settings_save}

abbrev pet : Stats
pet = record {
  nap_seconds = 0;
  approvals = 4;
  denials = 1;
  velocity = 9 ∷ 40 ∷ 7 ∷ 12 ∷ 0 ∷ 0 ∷ 0 ∷ 0 ∷ [];
  vel_idx = 4;
  vel_count = 4;
  level = 0;
  tokens = 49000;
}

abbrev synced : StatsState
synced = record {
  stats = pet;
  saved = pet;
  dirty = false;
  last_bridge_tokens = 1000;
  tokens_synced = true;
  level_up_pending = false;
  last_nap_end_ms = 0;
  energy_at_nap = 3;
}

median_test : median_velocity pet ≡ 12
unfolding median_velocity insert_loop sort_loop
median_test = refl

feed-tokens_example :
    (feed (1500 ∷ 1500 ∷ 3000 ∷ []) (record synced { tokens_synced = false })).stats.tokens
    ≡ synced.stats.tokens + 1500
feed-tokens_example =
    feed-tokens (1500 ∷ 1500 ∷ 3000 ∷ []) (record synced { tokens_synced = false })
      (omega arith, (omega arith, (omega arith, tt))) (omega arith)

safe_copy-IsPlain_test :
    All IsPlain (safe_copy 24 (codes "My \"pet\""))
    × (length (safe_copy 24 (codes "My \"pet\"")) < 24)
safe_copy-IsPlain_test = safe_copy-IsPlain 24 (codes "My \"pet\"") (omega arith)

energy_tier_drains_test : energy_tier false 7200000 synced ≡ 2
energy_tier_drains_test = energy_tier_drains false 7200000 synced (omega arith) (omega arith)

-- After 255 steps without a nap the byte has wrapped, and the energy is high again.
energy_wraps_test : energy_tier false (255 * 7200000) synced ≡ 4
unfolding energy_tier
energy_wraps_test = refl

abbrev quiet_night : Settings
quiet_night = record {
  vol = 0;
  bt = true;
  wifi = false;
  led = false;
  hud = true;
  clock_rot = 2;
  bright = 1;
  pair = 0;
  hostsel = pos 3;
  hostfb = 0;
  tune = 1;
  home = 0;
}

quiet_night-IsValid : IsValid quiet_night
quiet_night-IsValid = record {
  vol_fits = omega arith;
  rot_fits = omega arith;
  bright_fits = omega arith;
  pair_fits = omega arith;
  slot_fits = slot;
  fb_fits = omega arith;
  tune_fits = omega arith;
  home_fits = omega arith;
}
  where
    slot : (n : ℕ) → pos 3 ≡ pos n → n < 7
    slot n e = let q : 3 ≡ n = cc in omega arith

settings_read-settings_save_example :
    settings_read (settings_save quiet_night (λ k. none)) ≡ quiet_night
settings_read-settings_save_example =
    settings_read-settings_save quiet_night (λ k. none) quiet_night-IsValid
