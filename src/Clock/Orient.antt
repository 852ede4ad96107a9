-- ===== src/Clock/Orient.antt =====
-- The orientation of the clock face (src/logic/clock_orient_logic.h). A reading of the
-- accelerometer is a float that is only compared, so it is a parameter with its comparisons.
use sticks3_buddy.Prelude.{
  ℕ, ◌+◌, ◌≤◌, ◌<◌, ◌≡◌, refl, Bool, true, false, not, ◌&&◌, List, [], ◌∷◌, arith, leb, ◌==◌,
  if◌then◌else◌, length, ℤ, pos, negsuc, ◌+ℤ◌, ◌-ℤ◌, ltb_ℤ,
}

-- Comparisons of a reading with a bound in tenths of g: x > k, x < -k, |x| > k and |x| < k, and
-- x >= 0.
pub record Reading (R : Type 0) : Type 0 where
  pub above : R → ℕ → Bool
  pub below : R → ℕ → Bool
  pub abs_above : R → ℕ → Bool
  pub abs_below : R → ℕ → Bool
  pub non_neg : R → Bool

-- The three variables that the caller owns: 0 is portrait, 1 and 3 are the two landscapes.
pub record Orient : Type 0 where
  pub orient : ℕ
  pub orient_frames : ℤ
  pub swap_frames : ℕ

-- One sample of the three axes.
pub record Sample (R : Type 0) : Type 0 where
  pub primary : R
  pub secondary : R
  pub az : R

module _ {R : Type 0} (r : Reading R) where
  -- The landscape of the sign of the axis.
  abbrev pub landscape : R → ℕ
  landscape primary = if r.above primary 0 then 1 else 3

  unfoldable pub locked_landscape : Orient → R → Orient
  locked_landscape o primary =
      let first = if o.orient == 0 then (if r.non_neg primary then 1 else 3) else o.orient in
      record o {
        orient =
            if r.above primary 5 && not (first == 1)
            then 1
            else if r.below primary 5 && not (first == 3)
            then 3
            else first;
      }

  -- Strict to enter, loose to stay.
  unfoldable pub is_side : Orient → Sample R → Bool
  is_side o s =
      if o.orient == 0
      then r.abs_above s.primary 7 && r.abs_below s.secondary 5 && r.abs_below s.az 5
      else r.abs_above s.primary 4

  unfoldable pub count_frame : ℤ → Bool → ℤ
  unfolding ◌+ℤ◌ ◌-ℤ◌
  count_frame frames side =
      if side
      then (if ltb_ℤ frames (pos 20) then frames +ℤ pos 1 else frames)
      else if ltb_ℤ (negsuc 9) frames
      then frames -ℤ pos 1
      else frames

  -- The direct flip between the landscapes.
  unfoldable pub watch_swap : Orient → R → Orient
  watch_swap o primary =
      if landscape primary == o.orient
      then record o { swap_frames = 0 }
      else if leb 8 (o.swap_frames + 1)
      then record o { orient = landscape primary; swap_frames = 0 }
      else record o { swap_frames = o.swap_frames + 1 }

  unfoldable pub settle : Orient → R → Bool → Orient
  settle o primary side =
      if (o.orient == 0) && ltb_ℤ (pos 14) o.orient_frames
      then record o { orient = landscape primary }
      else if not (o.orient == 0) && ltb_ℤ o.orient_frames (negsuc 6)
      then record o { orient = 0 }
      else if not (o.orient == 0) && side
      then watch_swap o primary
      else o

  unfoldable pub update : Orient → Sample R → ℕ → Orient
  update o s lock =
      if lock == 1
      then record o { orient = 0 }
      else if lock == 2
      then locked_landscape o s.primary
      else let side = is_side o s in
        settle (record o { orient_frames = count_frame o.orient_frames side }) s.primary side

  unfoldable pub run : Orient → List (Sample R) → Orient
  run o [] = o
  run o (s ∷ samples) = run (update o s 0) samples

  count_frame_le :
      (f : ℤ) (b : Bool) (k : ℕ)
      → ltb_ℤ (pos k) f ≡ false
      → ltb_ℤ (pos (k + 1)) (count_frame f b) ≡ false
  unfolding count_frame
  count_frame_le f true k h = ground arith
  count_frame_le f false k h = ground arith

  settle_stays :
      (o : Orient) (p : R) (side : Bool)
      → o.orient ≡ 0
      → ltb_ℤ (pos 14) o.orient_frames ≡ false
      → settle o p side ≡ o
  unfolding settle
  settle_stays o p side z f = rw (f, z) refl

  ltb_weaken : (f : ℤ) (k m : ℕ) → k ≤ m → ltb_ℤ (pos k) f ≡ false → ltb_ℤ (pos m) f ≡ false
  ltb_weaken f k m h e = ground arith

  abbrev counted : Orient → Sample R → Orient
  counted o s = record o { orient_frames = count_frame o.orient_frames (is_side o s) }

  update-portrait :
      (o : Orient) (s : Sample R) (k : ℕ)
      → o.orient ≡ 0
      → k < 14
      → ltb_ℤ (pos k) o.orient_frames ≡ false
      → ((update o s 0).orient ≡ 0) × (ltb_ℤ (pos (k + 1)) (update o s 0).orient_frames ≡ false)
  unfolding update
  update-portrait o s k z h f =
      let f' = count_frame_le o.orient_frames (is_side o s) k f in
      rw
        (settle_stays (counted o s) s.primary (is_side o s) z
          (ltb_weaken (count_frame o.orient_frames (is_side o s)) (k + 1) 14 (omega arith) f'))
        (z, f')

  -- Turning the stick on its side does not turn the clock before fifteen samples in a row: from a
  -- portrait clock with no frames counted, fewer samples leave it in portrait, whatever they read.
  pub run-portrait :
      (o : Orient) (samples : List (Sample R)) (k : ℕ)
      → o.orient ≡ 0
      → ltb_ℤ (pos k) o.orient_frames ≡ false
      → k + length samples < 15
      → (run o samples).orient ≡ 0
  unfolding run
  run-portrait o [] k z f h = z
  run-portrait o (s ∷ samples) k z f h =
      let (z', f') = update-portrait o s k z (omega arith) f in
      run-portrait (update o s 0) samples (k + 1) z' f' (omega arith)
