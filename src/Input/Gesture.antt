-- ===== src/Input/Gesture.antt =====
-- The gestures of the accelerometer (src/logic/gesture_logic.h). The readings are floats that the
-- code only compares and averages, so they are a parameter with these operations.
use sticks3_buddy.Prelude.{
  ℕ, ◌≡◌, Bool, true, false, not, ◌&&◌, Option, none, some, List, [], ◌∷◌, arith, ltb, leb,
  if◌then◌else◌, or_else, All, add32, sub32, before32,
}

-- What the code does with a reading of the z axis: x > 0.4, x < -0.6, |x - y| > 0.45, and
-- y * 0.7 + x * 0.3.
pub record Axis (R : Type 0) : Type 0 where
  pub is_up : R → Bool
  pub is_down : R → Bool
  pub is_spike : R → R → Bool
  pub blend : R → R → R

pub data GestureEvent : Type 0 where
  ge_none ge_flip ge_double_tap : GestureEvent

pub record GestureState (R : Type 0) : Type 0 where
  pub armed : Bool
  pub inverted : Bool
  pub excursion_from_baseline : Bool
  pub left_upright_at : ℕ
  pub inverted_at : ℕ
  pub flip_lockout_until : ℕ
  -- `none` until it is seeded.
  pub z_ema : Option R
  pub tap_pending : Bool
  pub tap_at : ℕ
  pub last_spike : ℕ
  pub lockout_until : ℕ

abbrev pub init : {R : Type 0} → GestureState R
init = record {
  armed = false;
  inverted = false;
  excursion_from_baseline = false;
  left_upright_at = 0;
  inverted_at = 0;
  flip_lockout_until = 0;
  z_ema = none;
  tap_pending = false;
  tap_at = 0;
  last_spike = 0;
  lockout_until = 0;
}

module _ {R : Type 0} (axis : Axis R) where
  -- The way back to upright: an excursion that dipped, for neither too short nor too long, fires.
  unfoldable pub come_back : ℕ → GestureState R → GestureState R × GestureEvent
  come_back now g =
      let dwell = sub32 now g.inverted_at in
      let round_trip = sub32 now g.left_upright_at in
      let closed = record g { excursion_from_baseline = false; inverted = false; armed = true } in
      if (g.excursion_from_baseline && g.inverted && not (before32 now g.flip_lockout_until))
        && (leb 150 dwell && leb dwell 1500 && leb round_trip 2500)
      then (record closed { flip_lockout_until = add32 now 800 }, ge_flip)
      else (closed, ge_none)

  -- An excursion begins where the device was upright.
  unfoldable pub leave : ℕ → GestureState R → GestureState R
  leave now g =
      if g.armed
      then record g { excursion_from_baseline = true; left_upright_at = now; armed = false }
      else record g { armed = false }

  unfoldable pub dip : ℕ → GestureState R → GestureState R
  dip now g = if g.inverted then g else record g { inverted = true; inverted_at = now }

  unfoldable pub flip_feed : R → ℕ → GestureState R → GestureState R × GestureEvent
  unfolding come_back leave dip
  flip_feed az now g =
      if axis.is_up az
      then come_back now g
      else if axis.is_down az
      then (dip now (leave now g), ge_none)
      else (leave now g, ge_none)

  -- A spike that is not the ring of the one before it: the second one within the window fires.
  unfoldable pub tap : ℕ → GestureState R × GestureEvent → GestureState R × GestureEvent
  tap now (g, ev) =
      if leb 80 (sub32 now g.last_spike)
      then (if g.tap_pending && leb (sub32 now g.tap_at) 400
          then (
            record g { tap_pending = false; lockout_until = add32 now 600 },
            elim ev [ ge_none ↦ ge_double_tap | ge_flip ↦ ge_flip | ge_double_tap ↦ ge_double_tap ],
          )
          else (record g { tap_pending = true; tap_at = now }, ev))
      else (g, ev)

  abbrev pub spiked : ℕ → GestureState R × GestureEvent → GestureState R × GestureEvent
  spiked now (g, ev) = (record g { last_spike = now }, ev)

  -- The window closes: that was a single tap.
  unfoldable pub close_window : ℕ → GestureState R → GestureState R
  close_window now g =
      if g.tap_pending && ltb 400 (sub32 now g.tap_at) then record g { tap_pending = false } else g

  -- gestureFeed
  unfoldable pub feed : R → ℕ → GestureState R → GestureState R × GestureEvent
  unfolding flip_feed tap close_window
  feed az now g =
      let (f, ev) = flip_feed az now g in
      let ema = or_else f.z_ema az in
      let h = record f { z_ema = some (axis.blend ema az) } in
      let (k, out) =
        if not (before32 now h.lockout_until) && g.armed && h.armed && axis.is_spike az ema
        then spiked now (tap now (h, ev))
        else (h, ev) in
      (close_window now k, out)

  -- The events of a series of samples with their times.
  unfoldable pub run : List (R × ℕ) → GestureState R → List GestureEvent
  unfolding feed
  run [] g = []
  run ((az, now) ∷ samples) g = let (h, ev) = feed az now g in ev ∷ run samples h

  -- A sample that is not upright fires nothing.
  feed_down :
      (az : R) (now : ℕ) (g : GestureState R)
      → axis.is_up az ≡ false
      → let (h, ev) = feed az now g in (ev ≡ ge_none) × (h.armed ≡ false)
  unfolding feed flip_feed leave dip close_window
  feed_down az now g d = (ground (arith, d), ground (arith, d))

  -- However the device is shaken and tapped, it fires nothing while it is not upright, whatever
  -- went before: one that lies on its face sleeps on.
  run_down :
      (samples : List (R × ℕ)) (g : GestureState R)
      → All (λ (s : R × ℕ). axis.is_up s.0 ≡ false) samples
      → All (λ ev. ev ≡ ge_none) (run samples g)
  unfolding run
  run_down [] g d = tt
  run_down ((az, now) ∷ samples) g d =
      ((feed_down az now g d.0).0, run_down samples (feed az now g).0 d.1)
