-- ===== src/Kernel32/Calendar/Dates.antt =====
-- A date that `RtlTimeToTimeFields` gives is a date of the calendar, and stands for the time given.
use uwin_old.Common.{ℕ, zero, suc, ◌+◌, ◌-◌, ◌*◌, ◌/◌, ◌%◌, ◌^◌, ◌≤◌, ◌<◌}
use uwin_old.Common.{◌≡◌, refl, ◌∙◌, inl, inr, arith}
use uwin_old.Common.{Bool, true, false, Option, some, List, [], ◌∷◌}
use uwin_old.Common.{leb, Bool-cases, length}
use uwin_old.Common.{get_or, take}
use uwin_old.Common.{u32}
use uwin_old.Kernel32.Calendar.{
  ticks_per_sec, secs_per_day, TimeFields, year_length, month_lengths, is_leap_year,
  days_since_epoch, find_year, find_month, first_guess, find_date, time_to_time_fields,
}
use uwin_old.Kernel32.Calendar.Years.{first_guess-le, find_year_lem, wraps_down}

abbrev pub sum : List ℕ → ℕ
sum [] = 0
sum (n ∷ ns) = n + sum ns

regroup : (cur k d : ℕ) → ◌≡◌ {A = Option (ℕ × ℕ)} (some (cur + 1 + k, d)) (some (cur + suc k, d))
regroup cur k d = ground arith

-- The search for the month: the day falls into the month found, behind the months before it.
find_month_lem :
    (months : List ℕ) (cur days : ℕ)
    → days < sum months
    → sum months < 2 ^ 32
    → (k : ℕ) × (d : ℕ) × (find_month months cur days ≡ some (cur + k, d))
      × (d < get_or months k 0)
      × (sum (take k months) + d ≡ days)
      × (k < length months)
unfolding find_month
find_month_lem [] cur days h s = absurd (omega arith)
find_month_lem (len ∷ months) cur days h s = elim (Bool-cases (leb len days)) [
  | inr here ↦ (0, days, rw here (ground arith), ground arith, omega arith, omega arith)
  | inl later ↦
      let (k, d, found, inside, count, lt) =
        find_month_lem months (cur + 1) (days - len) (ground arith) (omega arith) in
      (
        suc k,
        d,
        rw (later, wraps_down days len (omega arith) (ground arith)) (found ∙ regroup cur k d),
        inside,
        ground arith,
        omega arith,
      )
]

get_or-le-sum : (ns : List ℕ) (k : ℕ) → get_or ns k 0 ≤ sum ns
get_or-le-sum [] k = omega arith
get_or-le-sum (n ∷ ns) zero = omega arith
get_or-le-sum (n ∷ ns) (suc k) = omega (arith, get_or-le-sum ns k)

pub sum-month_lengths : (leap : Bool) → sum (month_lengths leap) ≡ year_length leap
sum-month_lengths true = refl
sum-month_lengths false = refl

length-month_lengths : (leap : Bool) → length (month_lengths leap) ≡ 12
length-month_lengths true = refl
length-month_lengths false = refl

-- Days from the epoch to the day `d` (from 0) of the month `k` (from 0) of a year.
abbrev pub day_number : ℕ → ℕ → ℕ → ℕ
day_number year k d = days_since_epoch year + sum (take k (month_lengths (is_leap_year year))) + d

find_date-eq :
    (days y in_year k d : ℕ)
    → days_since_epoch (first_guess days) ≤ days
    → days < 2 ^ 32
    → (let left = days - days_since_epoch (first_guess days) in
        find_year (suc left) (first_guess days) left ≡ some (y, in_year))
    → find_month (month_lengths (is_leap_year y)) 0 in_year ≡ some (0 + k, d)
    → find_date days ≡ some (y, k, d)
unfolding find_date
find_date-eq days y in_year k d le s e e' =
    rw (wraps_down days (days_since_epoch (first_guess days)) s le, e, e', find_date) (ground arith)

find_date_lem :
    (days : ℕ)
    → days < 2 ^ 31
    → (y : ℕ) × (k : ℕ) × (d : ℕ) × (find_date days ≡ some (y, k, d))
      × (1601 ≤ y)
      × (k < 12)
      × (d < get_or (month_lengths (is_leap_year y)) k 0)
      × (day_number y k d ≡ days)
unfolding find_date
find_date_lem days h =
    let guess = first_guess days in
    let le = first_guess-le days in
    let left : ℕ = days - days_since_epoch guess in
    let (y, in_year, e, inside, count, from) =
      find_year_lem (suc left) guess left (omega arith) (omega arith) (omega arith) (omega arith) in
    let leap = is_leap_year y in
    let total = sum-month_lengths leap in
    let (k, d, e', inside', count', lt) =
      find_month_lem (month_lengths leap) 0 in_year (omega arith) (ground arith) in
    (
      y,
      k,
      d,
      find_date-eq days y in_year k d le (omega arith) e e',
      omega arith,
      omega (arith, length-month_lengths leap),
      inside',
      omega arith,
    )

pub record IsDate (f : TimeFields) : Type 0 where
  pub year : 1601 ≤ f.year
  pub month : (1 ≤ f.month) × (f.month ≤ 12)
  pub day : (1 ≤ f.day) × (f.day ≤ get_or (month_lengths (is_leap_year f.year)) (f.month - 1) 0)
  pub time : (f.hour < 24) × (f.minute < 60) × (f.second < 60) × (f.milliseconds < 1000)

abbrev pub day_of : TimeFields → ℕ
day_of f = day_number f.year (f.month - 1) (f.day - 1)

-- The ticks from the epoch to a date, counted from the calendar alone.
abbrev pub ticks_of : TimeFields → ℕ
ticks_of f =
    (day_of f * 86400 + f.hour * 3600 + f.minute * 60 + f.second) * 10000000
    + f.milliseconds * 10000

days-le : (leap : Bool) (k d : ℕ) → k < 12 → d < get_or (month_lengths leap) k 0 → d < 366
days-le leap k d h lt = ground (arith, get_or-le-sum (month_lengths leap) k, sum-month_lengths leap)

year-small : (y days : ℕ) → days_since_epoch y ≤ days → days < 21350400 → y < 2 ^ 16
unfolding days_since_epoch
year-small y days le h = omega arith

abbrev fields_of : ℕ → ℕ → ℕ → ℕ → TimeFields
fields_of time y k d =
    let in_day = time / ticks_per_sec % secs_per_day in
    record {
      year = y;
      month = k + 1;
      day = d + 1;
      hour = in_day / 3600;
      minute = in_day % 3600 / 60;
      second = in_day % 3600 % 60;
      milliseconds = time % ticks_per_sec / 10000;
      weekday = (1 + time / ticks_per_sec / secs_per_day) % 7;
    }

fields_of-eq :
    (time y k d : ℕ)
    → time < 2 ^ 64
    → y < 2 ^ 16
    → k < 12
    → d < 366
    → find_date (time / ticks_per_sec / secs_per_day) ≡ some (y, k, d)
    → time_to_time_fields time ≡ some (fields_of time y k d)
unfolding time_to_time_fields
fields_of-eq time y k d h hy hk hd e =
    let no_wrap : u32 (time / ticks_per_sec / secs_per_day) ≡ time / ticks_per_sec / secs_per_day =
      omega arith in
    rw (no_wrap, e, time_to_time_fields) (ground arith)

add-sub-one : (n : ℕ) → n + 1 - 1 ≡ n
add-sub-one n = omega arith

fields_of-IsDate :
    (time y k d : ℕ)
    → 1601 ≤ y
    → k < 12
    → d < get_or (month_lengths (is_leap_year y)) k 0
    → IsDate (fields_of time y k d)
fields_of-IsDate time y k d from twelve inside = record {
  year = from;
  month = omega arith;
  day = (omega arith, rw (add-sub-one k) (omega arith));
  time = omega arith;
}

ticks_of-fields_of :
    (time y k d : ℕ)
    → day_number y k d ≡ time / ticks_per_sec / secs_per_day
    → ticks_of (fields_of time y k d) ≡ time / 10000 * 10000
ticks_of-fields_of time y k d count = rw (add-sub-one k, add-sub-one d, count) (omega arith)

-- Every 64-bit count of ticks is split into a date of the calendar, to the millisecond, and its day
-- of the week is that of a first of January 1601 that was a Monday.
pub time_to_time_fields_lem :
    (time : ℕ)
    → time < 2 ^ 64
    → (f : TimeFields) × (time_to_time_fields time ≡ some f)
      × IsDate f
      × (ticks_of f ≡ time / 10000 * 10000)
      × (f.weekday ≡ (1 + day_of f) % 7)
time_to_time_fields_lem time h =
    let days : ℕ = time / ticks_per_sec / secs_per_day in
    let (y, k, d, e, from, twelve, inside, count) = find_date_lem days (omega arith) in
    let small_day = days-le (is_leap_year y) k d twelve inside in
    (
      fields_of time y k d,
      fields_of-eq time y k d h (year-small y days (omega arith) (omega arith)) twelve small_day e,
      fields_of-IsDate time y k d from twelve inside,
      ticks_of-fields_of time y k d count,
      rw (add-sub-one k, add-sub-one d, count),
    )
