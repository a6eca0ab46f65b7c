-- ===== src/Notifications/Weeks.antt =====
-- service/notifications/notifications.go: the beginning of the week, for days counted from 1970-01-01,
-- a Thursday. The days that a time falls on, in Los Angeles and in the time's own zone, and the
-- midnights there are the time package's.
use go_mutuals.Prelude.{ℕ, ◌+◌, ◌-◌, ◌%◌, ◌≤◌, ◌<◌, ◌≡◌, arith}

-- `Weekday`: 0 is Sunday.
abbrev pub weekday : ℕ → ℕ
weekday day = (day + 4) % 7

-- `beginningOfWeek`, as a day: the date is of Los Angeles, the weekday of the time's own zone.
unfoldable pub beginning_of_week : ℕ → ℕ → ℕ
beginning_of_week pst_day own_day = pst_day - weekday own_day

-- Where the zone of the time has the date of Los Angeles, the week begins on a Sunday, that day or one
-- of the six before it. Where it is a day ahead, as UTC is every evening, it begins on a Saturday.
pub beginning_of_week-weekday :
    (day : ℕ)
    → 7 ≤ day
    → (weekday (beginning_of_week day day) ≡ 0)
      × (beginning_of_week day day ≤ day)
      × (day < beginning_of_week day day + 7)
      × (weekday (beginning_of_week day (day + 1)) ≡ 6)
unfolding beginning_of_week
beginning_of_week-weekday day h = (omega arith, omega arith, omega arith, omega arith)
