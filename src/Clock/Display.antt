-- ===== src/Clock/Display.antt =====
-- The texts of the clock face (src/logic/clock_display_logic.h), each written by snprintf into a
-- buffer of `size` bytes, of which the last is the terminator.
use sticks3_buddy.Prelude.{
  ℕ, ◌+◌, ◌-◌, ◌/◌, ◌%◌, ◌<◌, ◌≡◌, refl, ◌∙◌, inl, inr, Bool, false, not, ◌&&◌, ◌||◌, List, [], ◌∷◌,
  ◌++◌, arith, leb, if◌then◌else◌, Bool-cases, length, get_or, take, All, All-get_or, length-append,
  take_of_length_le, ℤ, pos, negsuc, pos_part, Bytes, codes,
}

unfoldable pub value_in_range : ℤ → ℕ → ℕ → Bool
value_in_range (pos n) lo hi = leb lo n && leb n hi
value_in_range (negsuc n) lo hi = false

abbrev pub clock_mon : List Bytes
clock_mon =
    codes "Jan"
    ∷ codes "Feb"
    ∷ codes "Mar"
    ∷ codes "Apr"
    ∷ codes "May"
    ∷ codes "Jun"
    ∷ codes "Jul"
    ∷ codes "Aug"
    ∷ codes "Sep"
    ∷ codes "Oct"
    ∷ codes "Nov"
    ∷ codes "Dec"
    ∷ []

abbrev pub clock_dow : List Bytes
clock_dow =
    codes "Sun"
    ∷ codes "Mon"
    ∷ codes "Tue"
    ∷ codes "Wed"
    ∷ codes "Thu"
    ∷ codes "Fri"
    ∷ codes "Sat"
    ∷ []

unfoldable pub month_label : ℤ → Bytes
unfolding value_in_range
month_label month =
    if value_in_range month 1 12 then get_or clock_mon (pos_part month - 1) [] else codes "---"

unfoldable pub weekday_label : ℤ → Bytes
unfolding value_in_range
weekday_label weekday =
    if value_in_range weekday 0 6 then get_or clock_dow (pos_part weekday) [] else codes "---"

-- snprintf: what fits in front of the terminator.
abbrev pub print_to : ℕ → Bytes → Bytes
print_to size text = take (size - 1) text

-- %02d of a value in 0..99
abbrev pub two_digits : ℤ → Bytes
two_digits v = (b'0' + pos_part v / 10) ∷ (b'0' + pos_part v % 10) ∷ []

unfoldable pub format_hm : ℕ → ℤ → ℤ → Bytes
unfolding value_in_range
format_hm size hours minutes =
    if not (value_in_range hours 0 23) || not (value_in_range minutes 0 59)
    then print_to size (codes "--:--")
    else print_to size (two_digits hours ++ (b':' ∷ two_digits minutes))

unfoldable pub format_seconds : ℕ → ℤ → Bytes
unfolding value_in_range
format_seconds size seconds =
    if not (value_in_range seconds 0 59)
    then print_to size (codes ":--")
    else print_to size (b':' ∷ two_digits seconds)

unfoldable pub format_date_line : ℕ → ℤ → ℤ → Bytes
unfolding value_in_range month_label
format_date_line size month date =
    if not (value_in_range month 1 12) || not (value_in_range date 1 31)
    then print_to size (codes "--- --")
    else print_to size (month_label month ++ (b' ' ∷ two_digits date))

unfoldable pub format_week_date_line : ℕ → ℤ → ℤ → ℤ → Bytes
unfolding value_in_range month_label weekday_label
format_week_date_line size weekday month date =
    if not (value_in_range month 1 12) || not (value_in_range date 1 31)
    then print_to size (weekday_label weekday ++ codes " --- --")
    else print_to size
        (weekday_label weekday ++ (b' ' ∷ (month_label month ++ (b' ' ∷ two_digits date))))

label_width :
    (labels : List Bytes) (i : ℕ)
    → All (λ l. length l ≡ 3) labels
    → i < length labels
    → length (get_or labels i []) ≡ 3
label_width labels i h l = All-get_or (λ l. length l ≡ 3) labels i [] h l

month_label-width : (m : ℤ) → length (month_label m) ≡ 3
month_label-width (negsuc n) = unfold month_label in refl
month_label-width (pos n) = elim (Bool-cases (leb 1 n && leb n 12)) [
  | inl fits ↦
      unfold month_label in rw fits (label_width clock_mon (n - 1) (omega arith) (ground arith))
  | inr bad ↦ unfold month_label in rw bad
]

weekday_label-width : (w : ℤ) → length (weekday_label w) ≡ 3
weekday_label-width (negsuc n) = unfold weekday_label in refl
weekday_label-width (pos n) = elim (Bool-cases (leb 0 n && leb n 6)) [
  | inl fits ↦
      unfold weekday_label in rw fits (label_width clock_dow n (omega arith) (ground arith))
  | inr bad ↦ unfold weekday_label in rw bad
]

print_to-length :
    (size : ℕ) (text : Bytes) (n : ℕ) → n < size → length text ≡ n → length (print_to size text) ≡ n
print_to-length size text n h e = rw (take_of_length_le (size - 1) text (omega arith)) e

-- Whatever the fields hold, before a sync too, the date line takes ten bytes.
pub length-format_week_date_line :
    (size : ℕ) (weekday month date : ℤ)
    → 10 < size
    → length (format_week_date_line size weekday month date) ≡ 10
unfolding format_week_date_line
length-format_week_date_line size weekday month date h =
    elim (Bool-cases (not (value_in_range month 1 12) || not (value_in_range date 1 31))) [
      | inl bad ↦ rw bad (print_to-length size _ 10 h (with_label (codes " --- --")))
      | inr fits ↦ rw fits (print_to-length size _ 10 h (with_label _ ∙ month_part))
    ]
  where
    with_label : (rest : Bytes) → length (weekday_label weekday ++ rest) ≡ 3 + length rest
    with_label rest =
        omega (arith, length-append (weekday_label weekday) rest, weekday_label-width weekday)

    month_part : 3 + length (b' ' ∷ (month_label month ++ (b' ' ∷ two_digits date))) ≡ 10
    month_part =
        omega (
          arith,
          length-append (month_label month) (b' ' ∷ two_digits date),
          month_label-width month,
        )
