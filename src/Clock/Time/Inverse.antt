-- ===== src/Clock/Time/Inverse.antt =====
-- From a day count back to the date.
use sticks3_buddy.Prelude.{
  ℕ, zero, suc, ◌+◌, ◌-◌, ◌*◌, ◌/◌, ◌≤◌, ◌<◌, ◌≡◌, refl, subst, inl, inr, Bool, true, ◌&&◌, ◌||◌,
  arith, ◌==◌, if◌then◌else◌, Bool-cases,
}
use sticks3_buddy.Clock.Time.{year_of_era}

abbrev pub start_of : ℕ → ℕ
start_of yoe = yoe * 365 + yoe / 4 - yoe / 100

-- The last day of the March year: the 400th has one more.
abbrev pub end_of : ℕ → ℕ
end_of yoe = if yoe == 399 then 146096 else start_of (yoe + 1) - 1

-- A year of the era: its first and its last day are days of that year.
abbrev ends_fit : ℕ → Bool
ends_fit yoe = (year_of_era (start_of yoe) == yoe) && (year_of_era (end_of yoe) == yoe)

-- The test of every year from `from` on, for `count` years.
years_fit : ℕ → ℕ → Bool
years_fit from zero = true
years_fit from (suc count) = ends_fit from && years_fit (from + 1) count

years_fit-ends :
    (from count yoe : ℕ)
    → from ≤ yoe
    → yoe < from + count
    → years_fit from count ≡ true
    → ends_fit yoe ≡ true
unfolding years_fit
years_fit-ends from zero yoe a b e = absurd (omega arith)
years_fit-ends from (suc count) yoe a b e = elim (Bool-cases (from == yoe)) [
  | inl h ↦
      subst (λ y. ends_fit y ≡ true) {x = from} {y = yoe} (ground (arith, h)) (ground (arith, e))
  | inr h ↦
      years_fit-ends (from + 1) count yoe (ground (arith, h)) (omega arith) (ground (arith, e))
]

years_table : years_fit 0 400 ≡ true
unfolding years_fit
years_table = refl

year_of_era_mono : (a b : ℕ) → a ≤ b → b < 146097 → year_of_era a ≤ year_of_era b
year_of_era_mono a b h k = omega arith

pub end_of_le : (yoe : ℕ) → yoe < 400 → end_of yoe < 146097
end_of_le yoe h = ground arith

pub year_of_era-day :
    (yoe doe : ℕ) → yoe < 400 → start_of yoe ≤ doe → doe ≤ end_of yoe → year_of_era doe ≡ yoe
year_of_era-day yoe doe h l r =
    pinch (year_of_era doe) (year_of_era (start_of yoe)) (year_of_era (end_of yoe))
      (year_of_era_mono (start_of yoe) doe l (omega (arith, end_of_le yoe h)))
      (year_of_era_mono doe (end_of yoe) r (end_of_le yoe h))
      (years_fit-ends 0 400 yoe (omega arith) h years_table)
  where
    pinch : (y a b : ℕ) → a ≤ y → y ≤ b → ((a == yoe) && (b == yoe)) ≡ true → y ≡ yoe
    pinch y a b p q e = ground arith

-- The longest that a month can be, by its place in a March year.
abbrev pub days_from_march : ℕ → ℕ
days_from_march mp =
    if mp == 11 then 29 else if (mp == 1) || (mp == 3) || (mp == 6) || (mp == 8) then 30 else 31

pub month_of_day :
    (mp mday : ℕ)
    → mp < 12
    → 1 ≤ mday
    → mday ≤ days_from_march mp
    → (5 * ((153 * mp + 2) / 5 + mday - 1) + 2) / 153 ≡ mp
month_of_day mp mday h k l = ground arith
