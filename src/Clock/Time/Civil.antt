-- ===== src/Clock/Time/Civil.antt =====
-- The calendar of the clock against the rules of the Gregorian calendar.
use sticks3_buddy.Prelude.{
  ℕ, zero, suc, ◌+◌, ◌-◌, ◌*◌, ◌/◌, ◌%◌, ◌≤◌, ◌<◌, ◌≡◌, refl, ap, subst, ◌∙◌, ◌≢◌, inl, inr, Bool,
  not, ◌&&◌, ◌||◌, arith, ltb, ◌==◌, if◌then◌else◌, Bool-cases, ltb→lt, ℤ, pos, sub_ℕ, ◌+ℤ◌,
}
use sticks3_buddy.Clock.Time.{Tm, day_of_year, days_of, march_year, days_from_civil}

-- A date and a time from 1900 on, as the fields of `Tm` hold them, but for the weekday.
pub record Moment : Type 0 where
  pub year : ℕ
  pub mon : ℕ
  pub mday : ℕ
  pub hour : ℕ
  pub min : ℕ
  pub sec : ℕ

abbrev pub tm : Moment → ℤ → Tm
tm t w = record {
  year = pos t.year;
  mon = pos t.mon;
  mday = pos t.mday;
  hour = pos t.hour;
  min = pos t.min;
  sec = pos t.sec;
  wday = w;
}

abbrev pub leap : ℕ → Bool
leap year = let y = year + 1900 in (y % 4 == 0) && (not (y % 100 == 0) || (y % 400 == 0))

abbrev pub days_in_month : ℕ → ℕ → ℕ
days_in_month year mon =
    if mon == 1
    then (if leap year then 29 else 28)
    else if mon == 3 || (mon == 5) || (mon == 8) || (mon == 10)
    then 30
    else 31

pub record IsMoment (t : Moment) : Type 0 where
  pub month : t.mon < 12
  pub first : 1 ≤ t.mday
  pub last : t.mday ≤ days_in_month t.year t.mon
  pub hours : t.hour < 24
  pub mins : t.min < 60
  pub secs : t.sec < 60

-- Years and months that begin in March.
abbrev pub year_from_march : ℕ → ℕ → ℕ
year_from_march year mon = if ltb mon 2 then year + 1899 else year + 1900

abbrev pub month_from_march : ℕ → ℕ
month_from_march mon = if ltb mon 2 then mon + 10 else mon - 2

abbrev pub day_from_march : ℕ → ℕ → ℕ
day_from_march mp mday = (153 * mp + 2) / 5 + mday - 1

abbrev pub day_number : ℕ → ℕ → ℕ
day_number y doy = y / 400 * 146097 + (y % 400 * 365 + y % 400 / 4 - y % 400 / 100 + doy)

march_year-pos :
    (year mon : ℕ) → march_year (pos year) (pos mon +ℤ pos 1) ≡ pos (year_from_march year mon)
unfolding march_year ◌+ℤ◌
march_year-pos year mon = ground arith

day_of_year-pos :
    (mon mday : ℕ)
    → mon < 12
    → 1 ≤ mday
    → mday ≤ 31
    → day_of_year (pos mon +ℤ pos 1) (pos mday) ≡ day_from_march (month_from_march mon) mday
unfolding day_of_year
day_of_year-pos mon mday h k l = ground arith

days_of-pos : (y doy : ℕ) → days_of (pos y) doy ≡ sub_ℕ (day_number y doy) 719468
unfolding days_of
days_of-pos y doy = ground arith

pub days_from_civil-pos :
    (t : Moment) (w : ℤ)
    → t.mon < 12
    → 1 ≤ t.mday
    → t.mday ≤ 31
    → days_from_civil (tm t w)
      ≡ sub_ℕ
          (day_number
            (year_from_march t.year t.mon)
            (day_from_march (month_from_march t.mon) t.mday))
          719468
days_from_civil-pos t w h k l =
    unfold days_from_civil in
    rw (march_year-pos t.year t.mon, day_of_year-pos t.mon t.mday h k l) (days_of-pos _ _)

-- The day after, by the calendar.
abbrev pub tomorrow : Moment → Moment
tomorrow t =
    if ltb t.mday (days_in_month t.year t.mon)
    then record t { mday = t.mday + 1 }
    else if ltb t.mon 11
    then record t { mon = t.mon + 1; mday = 1 }
    else record t { year = t.year + 1; mon = 0; mday = 1 }

abbrev pub number : Moment → ℕ
number t =
    day_number (year_from_march t.year t.mon) (day_from_march (month_from_march t.mon) t.mday)

-- A March year has 366 days if the year of its February is a leap year.
abbrev last_of_february : ℕ → ℕ
last_of_february year = if leap year then 366 else 365

day_number-year :
    (year : ℕ) → day_number (year + 1900) 0 ≡ day_number (year + 1899) (last_of_february year)
day_number-year year = ground arith

day_number-suc : (y doy : ℕ) → day_number y (doy + 1) ≡ day_number y doy + 1
day_number-suc y doy = omega arith

-- Within a March year a month begins where the one before it ends.
month_step :
    (year mon : ℕ)
    → mon < 11
    → mon ≢ 1
    → day_from_march (month_from_march (mon + 1)) 1
      ≡ day_from_march (month_from_march mon) (days_in_month year mon) + 1
month_step year mon h k = ground arith

year_from_march-suc :
    (year mon : ℕ) → mon ≢ 1 → year_from_march year (mon + 1) ≡ year_from_march year mon
year_from_march-suc year mon k = ground arith

february_step :
    (year mday : ℕ)
    → mday ≡ days_in_month year 1
    → last_of_february year ≡ day_from_march (month_from_march 1) mday + 1
february_step year mday e = ground arith

within :
    (year mon : ℕ)
    → mon < 11
    → mon ≢ 1
    → day_number (year_from_march year (mon + 1)) (day_from_march (month_from_march (mon + 1)) 1)
      ≡ day_number
          (year_from_march year mon)
          (day_from_march (month_from_march mon) (days_in_month year mon))
        + 1
within year mon h k =
    rw (year_from_march-suc year mon k, month_step year mon h k) (day_number-suc _ _)

next_month :
    (year mon : ℕ)
    → mon < 11
    → day_number (year_from_march year (mon + 1)) (day_from_march (month_from_march (mon + 1)) 1)
      ≡ day_number
          (year_from_march year mon)
          (day_from_march (month_from_march mon) (days_in_month year mon))
        + 1
next_month year (suc zero) h =
    day_number-year year
    ∙ ap (day_number (year + 1899)) (february_step year (days_in_month year 1) refl)
    ∙ day_number-suc _ _
next_month year zero h = within year 0 h (omega arith)
next_month year (suc (suc mon)) h = within year (suc (suc mon)) h (omega arith)

pub number-tomorrow : (t : Moment) → IsMoment t → number (tomorrow t) ≡ number t + 1
number-tomorrow t v = elim (Bool-cases (ltb t.mday (days_in_month t.year t.mon))) [
  | inl inside ↦ rw inside (omega (arith, v.first))
  | inr last ↦ rw last (at_end (ground (arith, v.last)))
]
  where
    at_end :
        days_in_month t.year t.mon ≡ t.mday
        → number (
            if ltb t.mon 11
            then record t { mon = t.mon + 1; mday = 1 }
            else record t { year = t.year + 1; mon = 0; mday = 1 })
          ≡ number t + 1
    at_end e = elim (Bool-cases (ltb t.mon 11)) [
      | inl early ↦ rw early (
          subst
            (λ d.
              number (record t { mon = t.mon + 1; mday = 1 }) ≡ number (record t { mday = d }) + 1)
            e (next_month t.year t.mon (ltb→lt _ _ early)))
      | inr december ↦ rw december (ground (arith, v.month))
    ]
