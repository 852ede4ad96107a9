-- ===== src/Clock/Time.antt =====
-- The software clock (src/logic/clock_time_logic.h): broken-down time to epoch seconds and back,
-- and the clock that projects the last sync forward by the millisecond tick. A `time_t` has
-- 32 bits and wraps; the days and years that it is split into stay far from the end of theirs.
pub mod Civil
mod Inverse
pub mod RoundTrip
pub mod Calendar
use sticks3_buddy.Prelude.{
  ℕ, ◌+◌, ◌-◌, ◌*◌, ◌/◌, ◌%◌, min, Bool, true, false, Option, none, some, ltb, leb, if◌then◌else◌,
  u32, u32_mod, sub32, ℤ, pos, negsuc, pos_part, ◌+ℤ◌, ◌-ℤ◌, scale, quot, rem, ltb_ℤ, is_neg,
}

-- struct tm, without the two fields that are always 0.
pub record Tm : Type 0 where
  pub year : ℤ
  pub mon : ℤ
  pub mday : ℤ
  pub hour : ℤ
  pub min : ℤ
  pub sec : ℤ
  pub wday : ℤ

-- (unsigned) of an int.
abbrev pub unsigned : ℤ → ℕ
unsigned (pos n) = u32 n
unsigned (negsuc n) = u32_mod - 1 - u32 n

-- The day of a year that begins in March, and the day of an era of 400 such years.
unfoldable pub day_of_year : ℤ → ℤ → ℕ
unfolding ◌+ℤ◌
day_of_year m mday =
    let shifted = m +ℤ (if ltb_ℤ (pos 2) m then negsuc 2 else pos 9) in
    u32 (unsigned (quot (scale 153 shifted +ℤ pos 2) 5) + unsigned mday + (u32_mod - 1))

abbrev pub day_of_era : ℕ → ℕ → ℕ
day_of_era yoe doy = yoe * 365 + yoe / 4 - yoe / 100 + doy

-- Days since 1970-01-01, of a day of a March year.
unfoldable pub days_of : ℤ → ℕ → ℤ
unfolding ◌+ℤ◌ ◌-ℤ◌
days_of y doy =
    let era = quot (if is_neg y then y -ℤ pos 399 else y) 400 in
    let yoe = unsigned (y -ℤ scale 400 era) in
    scale 146097 era +ℤ pos (day_of_era yoe doy) -ℤ pos 719468

unfoldable pub march_year : ℤ → ℤ → ℤ
unfolding ◌+ℤ◌ ◌-ℤ◌
march_year year m = year +ℤ pos 1900 -ℤ (if ltb_ℤ (pos 2) m then pos 0 else pos 1)

unfoldable pub days_from_civil : Tm → ℤ
unfolding days_of march_year day_of_year ◌+ℤ◌
days_from_civil t = let m = t.mon +ℤ pos 1 in days_of (march_year t.year m) (day_of_year m t.mday)

-- The value of a signed 32-bit word.
unfoldable pub i32 : ℤ → ℤ
i32 (pos n) = let m = n % u32_mod in if ltb m 2147483648 then pos m else negsuc (u32_mod - 1 - m)
i32 (negsuc n) = let m = n % u32_mod in if ltb m 2147483648 then negsuc m else pos (u32_mod - 1 - m)

-- The seconds since 1970, before they are stored in a `time_t`.
unfoldable pub civil_epoch : Tm → ℤ
unfolding days_from_civil ◌+ℤ◌
civil_epoch t = scale 86400 (days_from_civil t) +ℤ scale 3600 t.hour +ℤ scale 60 t.min +ℤ t.sec

unfoldable pub tm_to_epoch : Tm → ℤ
tm_to_epoch t = i32 (civil_epoch t)

-- The year of the era that a day of the era falls in.
abbrev pub year_of_era : ℕ → ℕ
year_of_era doe = (doe - doe / 1460 + doe / 36524 - doe / 146096) / 365

-- The date of a day of a March year, of which `mp` is the month, and the time of the seconds left
-- in the day.
unfoldable pub civil_of_month : ℤ → ℕ → ℕ → ℕ → ℕ → ℤ → Tm
unfolding ◌+ℤ◌ ◌-ℤ◌
civil_of_month era yoe doy mp secs w =
    let mm = if ltb mp 10 then mp + 3 else mp - 9 in
    record {
      year = pos yoe +ℤ scale 400 era +ℤ pos (if leb mm 2 then 1 else 0) -ℤ pos 1900;
      mon = pos mm -ℤ pos 1;
      mday = pos (doy - (153 * mp + 2) / 5 + 1);
      hour = pos (secs / 3600);
      min = pos (secs % 3600 / 60);
      sec = pos (secs % 60);
      wday = w;
    }

unfoldable pub civil_of_year : ℤ → ℕ → ℕ → ℕ → ℤ → Tm
civil_of_year era yoe doy secs w = civil_of_month era yoe doy ((5 * doy + 2) / 153) secs w

unfoldable pub civil_of_era : ℤ → ℕ → ℕ → ℤ → Tm
civil_of_era era doe secs w =
    let yoe = year_of_era doe in
    civil_of_year era yoe (doe - (365 * yoe + yoe / 4 - yoe / 100)) secs w

unfoldable pub weekday : ℤ → ℤ
unfolding ◌+ℤ◌
weekday days = let w = rem (days +ℤ pos 4) 7 in if is_neg w then w +ℤ pos 7 else w

unfoldable pub civil_from_days : ℤ → ℕ → Tm
civil_from_days days secs =
    let z = days +ℤ pos 719468 in
    let era = quot (if is_neg z then z -ℤ pos 146096 else z) 146097 in
    civil_of_era era (pos_part (z -ℤ scale 146097 era)) secs (weekday days)

-- The days of an epoch, and the seconds left in its day.
unfoldable pub split_epoch : ℤ → ℤ × ℕ
unfolding ◌+ℤ◌ ◌-ℤ◌
split_epoch epoch =
    let days = quot epoch 86400 in
    let left = rem epoch 86400 in
    if is_neg left then (days -ℤ pos 1, pos_part (left +ℤ pos 86400)) else (days, pos_part left)

unfoldable pub epoch_to_tm : ℤ → Tm
epoch_to_tm epoch = let (days, secs) = split_epoch epoch in civil_from_days days secs

pub record SoftClock : Type 0 where
  pub is_set : Bool
  pub base : ℤ
  pub base_ms : ℕ

abbrev pub soft_init : SoftClock
soft_init = record { is_set = false; base = pos 0; base_ms = 0 }

unfoldable pub soft_seed : SoftClock → Tm → ℕ → SoftClock
soft_seed c lt now_ms = record { is_set = true; base = tm_to_epoch lt; base_ms = now_ms }

-- `none` until the first sync.
unfoldable pub soft_get : SoftClock → ℕ → Option Tm
soft_get c now_ms =
    if c.is_set
    then some (epoch_to_tm (i32 (c.base +ℤ pos (sub32 now_ms c.base_ms / 1000))))
    else none
