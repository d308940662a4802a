-- ===== src/Schedule/Spec.antt =====
-- internal/schedule/schedule.go: the schedule, its validation and its next window. An instant and
-- a duration are numbers of nanoseconds. The calendar and the zones of package time are a
-- parameter.
use veritix.Base.{ℕ, ◌+◌, ◌*◌, ◌%◌, Bool, not, ◌||◌, Option, none, some, Str, if◌then◌else◌}
use veritix.Base.Int.{ℤ, pos, negsuc, sub_ℕ, ◌+ℤ◌, ◌-ℤ◌, ltb_ℤ}

pub data Kind : Type 0 where
  daily weekly interval : Kind
  other : Str → Kind

pub record Civil : Type 0 where
  pub year : ℤ
  pub month : ℤ
  pub day : ℤ

-- What the code uses of package time: the zone of the server, the date and the weekday that an
-- instant has in a zone, and the instant of a date and a minute, where a day or a minute may be
-- out of range.
pub record Calendar : Type 1 where
  pub Location : Type 0
  pub server : Location
  pub civil : Location → ℤ → Civil
  pub weekday : Location → ℤ → ℤ
  pub date : Location → Civil → ℤ → ℤ

-- `Weekday - Weekday + 7` may be negative for a weekday out of range; `%` is Go's.
unfoldable pub rem_week : ℤ → ℤ
rem_week (pos n) = pos (n % 7)
rem_week (negsuc n) = sub_ℕ 0 ((n + 1) % 7)

abbrev pub second : ℕ
second = 1000000000

abbrev pub min_interval : ℤ
min_interval = pos (60 * second)

abbrev pub max_interval : ℤ
max_interval = pos (366 * 24 * 3600 * second)

-- The reasons of `Validate`.
pub data Refusal : Type 0 where
  bad_time : ℤ → Refusal
  bad_weekday : ℤ → Refusal
  bad_interval : ℤ → Refusal
  bad_kind : Str → Refusal

unfoldable pub later_day : Civil → ℤ → Civil
later_day c n = record c { day = c.day +ℤ n }

module _ (cal : Calendar) where
  pub record Schedule : Type 0 where
    pub kind : Kind
    pub at_minute : ℤ
    pub weekday : ℤ
    pub every : ℤ
    pub location : Option cal.Location

  unfoldable pub loc_of : Option cal.Location → cal.Location
  loc_of none = cal.server
  loc_of (some l) = l

  unfoldable pub loc : Schedule → cal.Location
  unfolding loc_of
  loc s = loc_of s.location

  -- The days from today to the first day looked at, and to the one after it.
  unfoldable pub first_day : Schedule → ℤ → Kind → ℤ
  unfolding rem_week loc
  first_day s after weekly = rem_week (s.weekday -ℤ cal.weekday (loc s) after +ℤ pos 7)
  first_day s after k = pos 0

  unfoldable pub step_days : Kind → ℤ
  step_days weekly = pos 7
  step_days k = pos 1

  unfoldable pub next_wall_clock : Schedule → ℤ → ℤ
  unfolding later_day
  next_wall_clock s after =
      let first = later_day (cal.civil (loc s) after) (first_day s after s.kind) in
      let next = cal.date (loc s) first s.at_minute in
      if not (ltb_ℤ after next)
      then cal.date (loc s) (later_day first (step_days s.kind)) s.at_minute
      else next

  -- The zero `time.Time` for an unknown kind.
  unfoldable pub next_by : ℤ → Schedule → ℤ → Kind → ℤ
  next_by zero_time s after interval = after +ℤ s.every
  next_by zero_time s after daily = next_wall_clock s after
  next_by zero_time s after weekly = next_wall_clock s after
  next_by zero_time s after (other k) = zero_time

  unfoldable pub next : ℤ → Schedule → ℤ → ℤ
  unfolding next_by
  next zero_time s after = next_by zero_time s after s.kind

  unfoldable pub window_by : Schedule → Kind → ℤ
  window_by s daily = pos (24 * 3600 * second)
  window_by s weekly = pos (7 * 24 * 3600 * second)
  window_by s interval = s.every
  window_by s (other k) = pos 0

  unfoldable pub window : Schedule → ℤ
  unfolding window_by
  window s = window_by s s.kind

  abbrev bad_minute : Schedule → Bool
  bad_minute s = ltb_ℤ s.at_minute (pos 0) || not (ltb_ℤ s.at_minute (pos 1440))

  unfoldable pub validate_by : Schedule → Kind → Option Refusal
  validate_by s daily = if bad_minute s then some (bad_time s.at_minute) else none
  validate_by s weekly =
      if bad_minute s
      then some (bad_time s.at_minute)
      else if ltb_ℤ s.weekday (pos 0) || ltb_ℤ (pos 6) s.weekday
      then some (bad_weekday s.weekday)
      else none
  validate_by s interval =
      if ltb_ℤ s.every min_interval || ltb_ℤ max_interval s.every
      then some (bad_interval s.every)
      else none
  validate_by s (other k) = some (bad_kind k)

  unfoldable pub validate : Schedule → Option Refusal
  unfolding validate_by
  validate s = validate_by s s.kind
