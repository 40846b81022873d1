-- ===== src/Models/Calendar.antt =====
-- The methods of `date` and `datetime` that the replies and exports read: the calendar date of an
-- instant in UTC, and the ISO texts.
use diary_memory_service.Base.{
  ℕ, suc, zero, ◌+◌, ◌-◌, ◌*◌, ◌/◌, ◌%◌, ◌++◌, [], ◌∷◌, ltb, nat_beq, length, if◌then◌else◌,
}
use diary_memory_service.Base.Text.{Text, codes}
use diary_memory_service.Base.Decimal.{decimal}
use diary_memory_service.Models.Routing.{DateTime}
use diary_memory_service.Models.Notes.{Date}

abbrev zeros : ℕ → Text
zeros zero = []
zeros (suc n) = b'0' ∷ zeros n

-- The decimal text of `n` in at least `width` digits.
unfoldable pub padded : ℕ → ℕ → Text
padded width n = let digits = decimal n in zeros (width - length digits) ++ digits

-- `date.isoformat()`
unfoldable pub date_isoformat : Date → Text
date_isoformat d =
    padded 4 d.year ++ (codes "-" ++ (padded 2 d.month ++ (codes "-" ++ padded 2 d.day)))

-- The date, in years that begin in March: `era` counts periods of 400 years from 0000-03-01, and
-- `day_of_era` the days in it.
abbrev date_of_year : ℕ → ℕ → Date
date_of_year year day_of_year =
    let m = (5 * day_of_year + 2) / 153 in
    let day = day_of_year - (153 * m + 2) / 5 + 1 in
    if ltb m 10
    then record { year = year; month = m + 3; day = day }
    else record { year = year + 1; month = m - 9; day = day }

abbrev date_of_era : ℕ → ℕ → Date
date_of_era era day_of_era =
    let y = (day_of_era - day_of_era / 1460 + day_of_era / 36524 - day_of_era / 146096) / 365 in
    date_of_year (era * 400 + y) (day_of_era - (365 * y + y / 4 - y / 100))

-- The date that is `days` days after 1970-01-01.
unfoldable pub date_of_days : ℕ → Date
date_of_days days = date_of_era ((days + 719468) / 146097) ((days + 719468) % 146097)

abbrev pub micros_per_second : ℕ
micros_per_second = 1000000

-- `t.date()`
unfoldable pub datetime_date : DateTime → Date
datetime_date t = date_of_days (t / (86400 * micros_per_second))

abbrev second_of_day : DateTime → ℕ
second_of_day t = t / micros_per_second % 86400

-- Hours, minutes and seconds, with a separator.
abbrev clock_text : Text → ℕ → Text
clock_text separator s =
    padded 2 (s / 3600)
    ++ (separator ++ (padded 2 (s / 60 % 60) ++ (separator ++ padded 2 (s % 60))))

abbrev fraction_text : ℕ → Text
fraction_text micros = if nat_beq micros 0 then [] else codes "." ++ padded 6 micros

-- `t.isoformat()` for an aware `t` in UTC.
unfoldable pub datetime_isoformat : DateTime → Text
datetime_isoformat t =
    date_isoformat (datetime_date t)
    ++ (codes "T"
        ++ (clock_text (codes ":") (second_of_day t)
            ++ (fraction_text (t % micros_per_second) ++ codes "+00:00")))

-- `t.strftime("%Y%m%dT%H%M%SZ")`
unfoldable pub datetime_stamp : DateTime → Text
datetime_stamp t =
    let d = datetime_date t in
    padded 4 d.year
    ++ (padded 2 d.month
        ++ (padded 2 d.day ++ (codes "T" ++ (clock_text [] (second_of_day t) ++ codes "Z"))))
