-- ===== src/Schedule/Tests.antt =====
-- internal/schedule/schedule.go: UTC as a calendar, some schedules in it, and the theorems there.
use veritix.Base.{
  ℕ, ◌+◌, ◌-◌, ◌*◌, ◌/◌, ◌%◌, ◌<◌, ◌≤◌, ◌≡◌, refl, arith, Option, none, some, [], ◌∷◌, ◌++◌, Str,
  codes,
}
use veritix.Base.Int.{ℤ, pos, negsuc, pos_part, neg_part, ◌+ℤ◌, ◌-ℤ◌, ◌<ℤ◌, +ℤ_parts}
use veritix.Schedule.Spec.{
  Kind, weekly, Calendar, Schedule, second, next, next_wall_clock, first_day, rem_week, step_days,
  validate, loc, later_day,
}
use veritix.Schedule.First.{IsFirstAfter}
use veritix.Schedule.Next.{wall, Regular, DayNumber, next-weekly, next-After}
use veritix.Schedule.Names.{TimeText, two_digits}

abbrev day_length : ℕ
day_length = 86400 * second

-- Days from 1970-01-01, a Thursday.
abbrev day_of : ℤ → ℤ
day_of (pos n) = pos (n / day_length)
day_of (negsuc n) = negsuc (n / day_length)

abbrev midnight : ℤ → ℤ
midnight (pos n) = pos (n * day_length)
midnight (negsuc n) = negsuc (n * day_length + (day_length - 1))

abbrev weekday_of : ℤ → ℤ
weekday_of (pos n) = pos ((n + 4) % 7)
weekday_of (negsuc n) = pos ((3 + 6 * n) % 7)

abbrev pub utc : Calendar
utc = record {
  Location = Unit;
  server = tt;
  civil = λ l t. record { year = pos 1970; month = pos 1; day = day_of t };
  weekday = λ l t. weekday_of (day_of t);
  date = λ l c m. midnight c.day +ℤ pos (pos_part m * (60 * second));
}

abbrev pub at_two : Kind → Schedule utc
at_two k = record {
  kind = k;
  at_minute = pos 120;
  weekday = pos 3;
  every = pos (3600 * second);
  location = none;
}

pub days_in_week : (l : Unit) (u : ℤ) → DayNumber (utc.weekday l u)
days_in_week l (pos n) = ground arith
days_in_week l (negsuc n) = ground arith

increasing_midnight : (a b : ℤ) → a <ℤ b → midnight a <ℤ midnight b
increasing_midnight (pos a) (pos b) h = omega (arith, h)
increasing_midnight (pos a) (negsuc b) h = absurd (omega (arith, h))
increasing_midnight (negsuc a) (pos b) h = omega (arith, h)
increasing_midnight (negsuc a) (negsuc b) h = omega (arith, h)

midnight_parts :
    (d : ℤ)
    → pos_part (midnight d) + neg_part d * day_length
      ≡ pos_part d * day_length + neg_part (midnight d)
midnight_parts (pos n) = omega arith
midnight_parts (negsuc n) = omega arith

day_parts :
    (t : ℤ)
    → (pos_part (day_of t) * day_length + neg_part t
        ≤ pos_part t + neg_part (day_of t) * day_length)
      × (pos_part t + neg_part (day_of t) * day_length
          < pos_part (day_of t) * day_length + day_length + neg_part t)
day_parts (pos n) = (omega arith, omega arith)
day_parts (negsuc n) = (omega arith, omega arith)

pub at_two-Regular : (k : Kind) → Regular utc (at_two k)
unfolding wall loc later_day
at_two-Regular k = record {
  increasing = λ t m n h. omega (
    arith,
    increasing_midnight (day_of t +ℤ m) (day_of t +ℤ n)
        (omega (arith, h, +ℤ_parts (day_of t) m, +ℤ_parts (day_of t) n)),
    +ℤ_parts (midnight (day_of t +ℤ m)) (pos (120 * (60 * second))),
    +ℤ_parts (midnight (day_of t +ℤ n)) (pos (120 * (60 * second))),
  );
  yesterday = λ t. omega (
    arith,
    midnight_parts (day_of t +ℤ negsuc 0),
    day_parts t,
    +ℤ_parts (day_of t) (negsuc 0),
    +ℤ_parts (midnight (day_of t +ℤ negsuc 0)) (pos (120 * (60 * second))),
  );
  tomorrow = λ t. omega (
    arith,
    midnight_parts (day_of t +ℤ pos 1),
    day_parts t,
    +ℤ_parts (day_of t) (pos 1),
    +ℤ_parts (midnight (day_of t +ℤ pos 1)) (pos (120 * (60 * second))),
  );
}

-- Wednesday 1970-01-07, 03:00.
abbrev pub moment : ℤ
moment = pos (6 * day_length + 3 * 3600 * second)

next_run : next utc (pos 0) (at_two weekly) moment ≡ pos (13 * day_length + 2 * 3600 * second)
unfolding next next_wall_clock first_day rem_week loc later_day step_days ◌+ℤ◌ ◌-ℤ◌
next_run = refl

pub weekly_valid : validate utc (at_two weekly) ≡ none
unfolding validate
weekly_valid = refl

next-weekly_example :
    (r : ℕ) × ((pos_part (utc.weekday tt moment) + r) % 7 ≡ 3)
    × IsFirstAfter
        (wall utc (at_two weekly) moment)
        7
        (pos r)
        moment
        (next utc (pos 0) (at_two weekly) moment)
next-weekly_example =
    next-weekly utc (pos 0) (at_two weekly) moment days_in_week (at_two-Regular weekly) weekly_valid
      refl

next-After_example : moment <ℤ next utc (pos 0) (at_two weekly) moment
next-After_example =
    next-After utc (pos 0) (at_two weekly) moment days_in_week (at_two-Regular weekly) weekly_valid

-- One zone, and a reader of hours and minutes of two digits.
abbrev read_clock : Str → Option (ℕ × ℕ)
read_clock (a ∷ b ∷ c ∷ d ∷ e ∷ []) = some ((a - 48) * 10 + (b - 48), (d - 48) * 10 + (e - 48))
read_clock _ = none

abbrev clock_text : TimeText utc
clock_text = record {
  name = λ l. codes "Local";
  load = λ s. some tt;
  parse = λ layout s. read_clock s;
}

clock_law :
    (h n : ℕ)
    → h < 24
    → n < 60
    → read_clock (two_digits h ++ codes ":" ++ two_digits n) ≡ some (h, n)
unfolding two_digits
clock_law h n a b = ground arith
