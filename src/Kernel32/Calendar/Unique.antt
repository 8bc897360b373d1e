-- ===== src/Kernel32/Calendar/Unique.antt =====
-- A date of the calendar is determined by its time, so the conversion gives back every date.
use uwin_old.Common.{ℕ, zero, suc, ◌+◌, ◌-◌, ◌%◌, ◌^◌, ◌≤◌, ◌<◌}
use uwin_old.Common.{◌≡◌, refl, sym, ap, ◌∙◌, arith}
use uwin_old.Common.{some, List, [], ◌∷◌}
use uwin_old.Common.{get_or, take}
use uwin_old.Kernel32.Calendar.{
  TimeFields, year_length, month_lengths, is_leap_year, days_since_epoch, time_to_time_fields,
}
use uwin_old.Kernel32.Calendar.Years.{days_since_epoch-suc}
use native.Mathlib.Decide.{dec_lt}
use uwin_old.Kernel32.Calendar.Dates.{
  sum, IsDate, day_number, day_of, ticks_of, time_to_time_fields_lem, sum-month_lengths,
}

-- Two places in a row of months that are reached by the same count are one place.
month_unique :
    (ns : List ℕ) (k k' d d' : ℕ)
    → d < get_or ns k 0
    → d' < get_or ns k' 0
    → sum (take k ns) + d ≡ sum (take k' ns) + d'
    → (k ≡ k') × (d ≡ d')
month_unique [] k k' d d' h h' e = absurd (omega arith)
month_unique (n ∷ ns) zero zero d d' h h' e = (refl, omega arith)
month_unique (n ∷ ns) zero (suc k') d d' h h' e = absurd (omega arith)
month_unique (n ∷ ns) (suc k) zero d d' h h' e = absurd (omega arith)
month_unique (n ∷ ns) (suc k) (suc k') d d' h h' e =
    let (same, same') = month_unique ns k k' d d' h h' (omega arith) in (ap suc same, same')

days_since_epoch_mono : (a b : ℕ) → 1601 ≤ a → a ≤ b → days_since_epoch a ≤ days_since_epoch b
unfolding days_since_epoch
days_since_epoch_mono a b h le = omega arith

-- Years do not overlap.
year-le :
    (y z d e : ℕ)
    → 1601 ≤ y
    → d < year_length (is_leap_year y)
    → days_since_epoch y + d ≡ days_since_epoch z + e
    → z ≤ y
year-le y z d e h inside same = elim (dec_lt y z) [
  | yes lt ↦
      absurd
        (omega (arith, days_since_epoch-suc y h, days_since_epoch_mono (suc y) z (omega arith) lt))
  | no ge ↦ omega arith
]

in_year-lt : (ns : List ℕ) (k d : ℕ) → d < get_or ns k 0 → sum (take k ns) + d < sum ns
in_year-lt [] k d h = absurd (omega arith)
in_year-lt (n ∷ ns) zero d h = omega arith
in_year-lt (n ∷ ns) (suc k) d h = omega (arith, in_year-lt ns k d h)

in_year_unique :
    (y z k k' d d' : ℕ)
    → z ≡ y
    → d < get_or (month_lengths (is_leap_year y)) k 0
    → d' < get_or (month_lengths (is_leap_year z)) k' 0
    → day_number y k d ≡ day_number z k' d'
    → (k ≡ k') × (d ≡ d')
in_year_unique y z k k' d d' same h h' e =
    ground (arith, month_unique (month_lengths (is_leap_year y)) k k' d d' h)

-- What a date says of its year.
inside_year :
    (f : TimeFields)
    → IsDate f
    → sum (take (f.month - 1) (month_lengths (is_leap_year f.year))) + (f.day - 1)
      < year_length (is_leap_year f.year)
inside_year f v = omega (
  arith,
  sum-month_lengths (is_leap_year f.year),
  in_year-lt (month_lengths (is_leap_year f.year)) (f.month - 1) (f.day - 1) (omega (arith, v.day)),
)

fields-eq :
    (g f : TimeFields)
    → g.year ≡ f.year
    → g.month ≡ f.month
    → g.day ≡ f.day
    → g.hour ≡ f.hour
    → g.minute ≡ f.minute
    → g.second ≡ f.second
    → g.milliseconds ≡ f.milliseconds
    → g.weekday ≡ f.weekday
    → g ≡ f
fields-eq g f y m d h n s l w = λ i. record {
  year = y i;
  month = m i;
  day = d i;
  hour = h i;
  minute = n i;
  second = s i;
  milliseconds = l i;
  weekday = w i;
}

same_date :
    (f g : TimeFields)
    → IsDate f
    → IsDate g
    → day_of f ≡ day_of g
    → (f.year ≡ g.year) × (f.month ≡ g.month) × (f.day ≡ g.day)
same_date f g v w e =
    let le =
      year-le f.year g.year
        (sum (take (f.month - 1) (month_lengths (is_leap_year f.year))) + (f.day - 1))
        (sum (take (g.month - 1) (month_lengths (is_leap_year g.year))) + (g.day - 1)) v.year
        (inside_year f v) (omega arith) in
    let ge =
      year-le g.year f.year
        (sum (take (g.month - 1) (month_lengths (is_leap_year g.year))) + (g.day - 1))
        (sum (take (f.month - 1) (month_lengths (is_leap_year f.year))) + (f.day - 1)) w.year
        (inside_year g w) (omega arith) in
    let year : g.year ≡ f.year = omega arith in
    let (month, day) =
      in_year_unique f.year g.year (f.month - 1) (g.month - 1) (f.day - 1) (g.day - 1) year
        (omega (arith, v.day)) (omega (arith, w.day)) e in
    (omega arith, omega arith, omega arith)

-- `RtlTimeToTimeFields` gives back every date of the calendar that a 64-bit count of ticks reaches,
-- with the day of the week that belongs to it.
pub time_to_time_fields-ticks_of :
    (f : TimeFields)
    → IsDate f
    → f.weekday ≡ (1 + day_of f) % 7
    → ticks_of f < 2 ^ 64
    → time_to_time_fields (ticks_of f) ≡ some f
time_to_time_fields-ticks_of f v week h =
    let (g, e, w, ticks, week') = time_to_time_fields_lem (ticks_of f) h in
    let same : day_of f ≡ day_of g = omega arith in
    let (year, month, day) = same_date f g v w same in
    e
    ∙ ap some (
        fields-eq g f (sym year) (sym month) (sym day) (omega arith) (omega arith) (omega arith)
          (omega arith) (omega arith))
