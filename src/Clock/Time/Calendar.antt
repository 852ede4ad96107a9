-- ===== src/Clock/Time/Calendar.antt =====
-- The days of the software clock follow the Gregorian calendar.
use sticks3_buddy.Prelude.{
  ℕ, ◌+◌, ◌/◌, ◌%◌, ◌<◌, ◌≡◌, sym, ap, ◌∙◌, some, arith, u32_mod, add32, sub32, ℤ, pos, negsuc,
  sub_ℕ, ◌+ℤ◌, scale,
}
use sticks3_buddy.Clock.Time.{
  SoftClock, soft_seed, soft_get, weekday, days_from_civil, i32, civil_epoch, tm_to_epoch,
  epoch_to_tm,
}
use sticks3_buddy.Clock.Time.Civil.{
  Moment, tm, IsMoment, number, tomorrow, number-tomorrow, days_from_civil-pos,
}
use sticks3_buddy.Clock.Time.RoundTrip.{
  weekday_of, secs_of, civil_epoch-secs, epoch_to_tm-civil_epoch,
}

tomorrow-IsMoment : (t : Moment) → IsMoment t → IsMoment (tomorrow t)
tomorrow-IsMoment t v = ground arith

-- The weekday after a weekday, 0 for Sunday.
abbrev pub next_weekday : ℤ → ℤ
next_weekday (pos n) = pos ((n + 1) % 7)
next_weekday (negsuc n) = pos 0

weekday-suc : (n k : ℕ) → weekday (sub_ℕ (n + 1) k) ≡ next_weekday (weekday (sub_ℕ n k))
unfolding weekday
weekday-suc n k = ground arith

day_later :
    (n k s : ℕ)
    → scale 86400 (sub_ℕ (n + 1) k) +ℤ pos s ≡ scale 86400 (sub_ℕ n k) +ℤ pos s +ℤ pos 86400
unfolding ◌+ℤ◌
day_later n k s = ground arith

day_of : (t : Moment) → IsMoment t → days_from_civil (tm t (pos 0)) ≡ sub_ℕ (number t) 719468
day_of t v = days_from_civil-pos t (pos 0) v.month v.first (ground (arith, v.last))

day_after :
    (t : Moment)
    → IsMoment t
    → days_from_civil (tm (tomorrow t) (pos 0)) ≡ sub_ℕ (number t + 1) 719468
day_after t v =
    day_of (tomorrow t) (tomorrow-IsMoment t v) ∙ ap (λ n. sub_ℕ n 719468) (number-tomorrow t v)

secs-tomorrow : (t : Moment) → secs_of (tomorrow t) ≡ secs_of t
secs-tomorrow t = ground arith

-- The day after a date, by the months and leap years of the Gregorian calendar, is 86400 epoch
-- seconds later and on the next weekday.
pub civil_epoch-tomorrow :
    (t : Moment) (w : ℤ)
    → IsMoment t
    → (civil_epoch (tm (tomorrow t) w) ≡ civil_epoch (tm t w) +ℤ pos 86400)
      × (weekday_of (tomorrow t) ≡ next_weekday (weekday_of t))
civil_epoch-tomorrow t w v = (
  civil_epoch-secs (tomorrow t) w
      ∙ ap (λ d. scale 86400 d +ℤ pos (secs_of (tomorrow t))) (day_after t v)
      ∙ ap (λ s. scale 86400 (sub_ℕ (number t + 1) 719468) +ℤ pos s) (secs-tomorrow t)
      ∙ day_later (number t) 719468 (secs_of t)
      ∙ ap (λ d. scale 86400 d +ℤ pos (secs_of t) +ℤ pos 86400) (sym (day_of t v))
      ∙ ap (λ e. e +ℤ pos 86400) (sym (civil_epoch-secs t w)),
  ap weekday (day_after t v)
      ∙ weekday-suc (number t) 719468
      ∙ ap (λ d. next_weekday (weekday d)) (sym (day_of t v)),
)

-- A day after a sync the clock shows the next date, at the same time of day, also where the
-- millisecond tick has wrapped in between: for dates from 1900 on, where the seconds since 1970 of
-- the sync and of a day later fit a 32-bit `time_t`, which they do from 1901-12-13 20:45:52 to
-- 2038-01-19 03:14:07.
pub soft_get-tomorrow :
    (c : SoftClock) (t : Moment) (w : ℤ) (now : ℕ)
    → IsMoment t
    → i32 (civil_epoch (tm t w)) ≡ civil_epoch (tm t w)
    → i32 (civil_epoch (tm (tomorrow t) w)) ≡ civil_epoch (tm (tomorrow t) w)
    → now < u32_mod
    → soft_get (soft_seed c (tm t w) now) (add32 now 86400000)
      ≡ some (tm (tomorrow t) (next_weekday (weekday_of t)))
unfolding soft_get soft_seed tm_to_epoch
soft_get-tomorrow c t w now v fits fits_after h = ap some (
    ap (λ s. epoch_to_tm (i32 (i32 (civil_epoch (tm t w)) +ℤ pos s))) day_of_ms
    ∙ ap (λ e. epoch_to_tm (i32 (e +ℤ pos 86400))) fits
    ∙ ap (λ e. epoch_to_tm (i32 e)) (sym later.0)
    ∙ ap epoch_to_tm fits_after
    ∙ epoch_to_tm-civil_epoch (tomorrow t) w (tomorrow-IsMoment t v)
    ∙ ap (tm (tomorrow t)) later.1)
  where
    later :
        (civil_epoch (tm (tomorrow t) w) ≡ civil_epoch (tm t w) +ℤ pos 86400)
        × (weekday_of (tomorrow t) ≡ next_weekday (weekday_of t))
    later = civil_epoch-tomorrow t w v

    day_of_ms : sub32 (add32 now 86400000) now / 1000 ≡ 86400
    day_of_ms = omega arith
