-- ===== src/Sipfw/Clock/Calendar.antt =====
-- SIPFW_Localtime against the calendar.
use linux_program_practice.Sipfw.Types.{Tm}
use linux_program_practice.Sipfw.Clock.{Date, date_of_days, is_leap, localtime, local_seconds}
use linux_program_practice.Base.{
  ℕ, zero, suc, ◌+◌, ◌-◌, ◌<◌, ◌≡◌, refl, Bool, true, false, ◌&&◌, ◌||◌, Option, none, some, arith,
  leb, ◌==◌, if◌then◌else◌, ◌*◌, ◌/◌, ◌%◌, ◌≤◌, ◌⊎◌, inl, inr, Bool-cases,
}

-- The days of a year, and of a month of it (1 to 12).
year_length : ℕ → ℕ
year_length y = if is_leap y then 366 else 365

month_length : ℕ → ℕ → ℕ
month_length y m =
    if m == 2
    then (if is_leap y then 29 else 28)
    else if m == 4 || m == 6 || m == 9 || m == 11
    then 30
    else 31

-- The days of `n` years from 1970 on, and of the `n` first months of a year.
years_length : ℕ → ℕ
years_length zero = 0
years_length (suc n) = years_length n + year_length (1970 + n)

months_length : ℕ → ℕ → ℕ
months_length y zero = 0
months_length y (suc n) = months_length y n + month_length y (n + 1)

-- The number of a day, counted from the first of January 1970, which is day 0.
pub day_number : Date → ℕ
unfolding years_length months_length year_length month_length
day_number d = years_length (d.year - 1970) + months_length d.year (d.mon - 1) + (d.mday - 1)

-- A date that the calendar has.
pub is_date : Date → Bool
unfolding month_length
is_date d =
    leb 1970 d.year
    && leb 1 d.mon
    && leb d.mon 12
    && leb 1 d.mday
    && leb d.mday (month_length d.year d.mon)

-- A test of the `len` days from `first` on.
each_day : (ℕ → Bool) → (first len : ℕ) → Bool
each_day test first zero = true
each_day test first (suc len) = test first && each_day test (first + 1) len

each_day-get :
    (test : ℕ → Bool) (first len day : ℕ)
    → first ≤ day
    → day < first + len
    → each_day test first len ≡ true
    → test day ≡ true
unfolding each_day
each_day-get test first zero day lo hi each = absurd (omega arith)
each_day-get test first (suc len) day lo hi each = elim (Bool-cases (first == day)) [
  | inl here ↦ let same : first ≡ day = ground arith in rw (← same) (ground arith)
  | inr later ↦ each_day-get test (first + 1) len day (ground arith) (omega arith) (ground arith)
]

-- The date that the function gives for a day is the date of the day before.
day_before : ℕ → Option Date → Bool
unfolding day_number is_date
day_before days none = false
day_before days (some d) = is_date d && day_number d + 1 == days

table : each_day (λ day. day_before day (date_of_days day)) 13515 1826 ≡ true
unfolding each_day date_of_days day_before
table = refl

day_before_inversion :
    (days : ℕ) (o : Option Date)
    → day_before days o ≡ true
    → (d : Date) × (o ≡ some d) × (is_date d ≡ true) × (day_number d + 1 ≡ days)
unfolding day_before
day_before_inversion days none h = cc
day_before_inversion days (some d) h = (d, refl, ground arith, ground arith)

date_of_days-day_before :
    (days : ℕ)
    → 13514 < days
    → days ≤ 15340
    → (d : Date) × (date_of_days days ≡ some d) × (is_date d ≡ true) × (day_number d + 1 ≡ days)
date_of_days-day_before days lo hi =
    day_before_inversion days (date_of_days days)
      (each_day-get _ 13515 1826 days (omega arith) (omega arith) table)

date_of_days_outside : (days : ℕ) → (days ≤ 13514) ⊎ (15340 < days) → date_of_days days ≡ none
unfolding date_of_days
date_of_days_outside days h = ground arith

-- From 2007-01-02 to 2012-01-01 in local time, the time of day that SIPFW_Localtime gives is that of
-- the clock, and its date is a date of the calendar, but that of the day before.
pub localtime_inside :
    (time : ℕ)
    → 13514 < local_seconds time / 86400
    → local_seconds time / 86400 ≤ 15340
    → (r : Tm) × (localtime time ≡ some r)
      × (is_date (record { year = r.year; mon = r.mon; mday = r.mday }) ≡ true)
      × (day_number (record { year = r.year; mon = r.mon; mday = r.mday }) + 1
          ≡ local_seconds time / 86400)
      × ((r.hour < 24) × (r.min < 60) × (r.sec < 60))
      × (r.hour * 3600 + r.min * 60 + r.sec ≡ local_seconds time % 86400)
unfolding localtime
localtime_inside time lo hi =
    let (d, e, dated, n) = date_of_days-day_before (local_seconds time / 86400) lo hi in
    (
      record {
        sec = local_seconds time % 86400 % 3600 % 60;
        min = local_seconds time % 86400 % 3600 / 60;
        hour = local_seconds time % 86400 / 3600;
        mday = d.mday;
        mon = d.mon;
        year = d.year;
      },
      rw e,
      dated,
      n,
      omega arith,
      omega arith,
    )

-- On every other day the function reads outside its table of years.
pub localtime_outside :
    (time : ℕ)
    → (local_seconds time / 86400 ≤ 13514) ⊎ (15340 < local_seconds time / 86400)
    → localtime time ≡ none
unfolding localtime
localtime_outside time h = rw (date_of_days_outside (local_seconds time / 86400) h)
