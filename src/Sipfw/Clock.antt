-- ===== src/Sipfw/Clock.antt =====
-- LinuxCode/20/sipfw/module/sipfw_k_common.c: SIPFW_Localtime. A read outside one of its tables is
-- a fault.
pub mod Calendar
use linux_program_practice.Base.{
  ℕ, ◌+◌, ◌-◌, ◌*◌, ◌/◌, ◌%◌, ◌^◌, Bool, not, ◌&&◌, ◌||◌, Option, none, some, List, [], ◌∷◌, ltb,
  ◌==◌, if◌then◌else◌, ◌>>=◌, get_elem?, min,
}
use linux_program_practice.Sipfw.Types.{Tm}

abbrev pub days_since_epoch : List ℕ
days_since_epoch = 13514 ∷ 13879 ∷ 14245 ∷ 14610 ∷ 14975 ∷ 15340 ∷ []

abbrev pub days_since_year : List ℕ
days_since_year = 0 ∷ 31 ∷ 59 ∷ 90 ∷ 120 ∷ 151 ∷ 181 ∷ 212 ∷ 243 ∷ 273 ∷ 304 ∷ 334 ∷ []

abbrev pub days_since_leapyear : List ℕ
days_since_leapyear = 0 ∷ 31 ∷ 60 ∷ 91 ∷ 121 ∷ 152 ∷ 182 ∷ 213 ∷ 244 ∷ 274 ∷ 305 ∷ 335 ∷ []

-- The loop over days_since_epoch, from index `i` on. It has no bound of its own.
pub year_index : List ℕ → ℕ → ℕ → Option ℕ
year_index [] i days = none
year_index (e ∷ es) i days = if ltb e days then year_index es (i + 1) days else some i

-- The loop over the days before each month, which stops at 12.
pub month_index : List ℕ → ℕ → ℕ → ℕ
month_index [] i days = i
month_index (y ∷ ys) i days = if ltb y days then month_index ys (i + 1) days else i

-- x[i - 1], a fault at i = 0.
abbrev pub before_index : List ℕ → ℕ → Option ℕ
before_index xs i = if i == 0 then none else get_elem? xs (i - 1)

abbrev pub is_leap : ℕ → Bool
is_leap year = year % 4 == 0 && (not (year % 100 == 0) || year % 400 == 0)

pub record Date : Type 0 where
  pub year : ℕ
  pub mon : ℕ
  pub mday : ℕ

-- The part of the function that follows the computation of `days`.
unfoldable pub date_of_days : ℕ → Option Date
unfolding year_index month_index
date_of_days days = do
  i ← year_index days_since_epoch 0 days
  epoch ← before_index days_since_epoch i
  let year = 2007 + i - 1
  let yday = if is_leap year then days_since_leapyear else days_since_year
  let rest = days - epoch
  let mon = month_index yday 0 rest
  start ← before_index yday mon
  some (record { year = year; mon = mon; mday = rest - start })

-- `sec = time + 3600*8` in an `unsigned int`, and the days in it.
abbrev pub local_seconds : ℕ → ℕ
local_seconds time = (time + 3600 * 8) % 2 ^ 32

unfoldable pub localtime : ℕ → Option Tm
localtime time = do
  let sec = local_seconds time
  date ← date_of_days (sec / (3600 * 24))
  some (record {
    sec = sec % (3600 * 24) % 3600 % 60;
    min = sec % (3600 * 24) % 3600 / 60;
    hour = sec % (3600 * 24) / 3600;
    mday = date.mday;
    mon = date.mon;
    year = date.year;
  })
