-- ===== src/Kernel32/Calendar/Years.antt =====
-- The search for the year: it ends, and days are neither lost nor gained.
use uwin_old.Common.{ℕ, zero, suc, ◌+◌, ◌-◌, ◌^◌, ◌≤◌, ◌<◌}
use uwin_old.Common.{◌≡◌, refl, inl, inr, arith}
use uwin_old.Common.{some}
use uwin_old.Common.{ltb, Bool-cases}
use uwin_old.Common.{u32, sub32}
use uwin_old.Kernel32.Calendar.{year_length, is_leap_year, days_since_epoch, find_year, first_guess}

-- One year on is one year's length more.
pub days_since_epoch-suc :
    (y : ℕ)
    → 1601 ≤ y
    → days_since_epoch (suc y) ≡ days_since_epoch y + year_length (is_leap_year y)
unfolding days_since_epoch is_leap_year
days_since_epoch-suc y h = ground arith

-- The first guess is not too late.
pub first_guess-le : (days : ℕ) → days_since_epoch (first_guess days) ≤ days
unfolding days_since_epoch
first_guess-le days = omega arith

wraps_up : (cur : ℕ) → cur + 1 < 2 ^ 32 → u32 (cur + 1) ≡ suc cur
wraps_up cur h = omega arith

pub wraps_down : (a b : ℕ) → a < 2 ^ 32 → b ≤ a → sub32 a b ≡ a - b
wraps_down a b h le = omega arith

-- With fuel for as many years as there are days, the search ends in a year that holds the day, and
-- the days before that year and in it add up to those it started from.
pub find_year_lem :
    (fuel cur days : ℕ)
    → 1601 ≤ cur
    → days < fuel
    → days < 2 ^ 32
    → cur + days < 2 ^ 32
    → (y : ℕ) × (d : ℕ) × (find_year fuel cur days ≡ some (y, d))
      × (d < year_length (is_leap_year y))
      × (days_since_epoch y + d ≡ days_since_epoch cur + days)
      × (cur ≤ y)
unfolding find_year
find_year_lem zero cur days lo f s w = absurd (omega arith)
find_year_lem (suc fuel) cur days lo f s w =
    elim (Bool-cases (ltb days (year_length (is_leap_year cur)))) [
      | inl fits ↦ (cur, days, rw fits, ground arith, refl, omega arith)
      | inr more ↦
          let len : ℕ = year_length (is_leap_year cur) in
          let long : (1 ≤ len) × (len ≤ days) = ground (arith, more) in
          let (y, d, found, inside, count, from) =
            find_year_lem fuel (suc cur) (days - len) (omega arith) (omega arith) (omega arith)
              (omega arith) in
          (
            y,
            d,
            rw (more, wraps_up cur (omega arith), wraps_down days len s long.1) found,
            inside,
            omega (arith, count, days_since_epoch-suc cur lo),
            omega arith,
          )
    ]
