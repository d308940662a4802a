-- ===== src/Schedule/Next.antt =====
-- internal/schedule/schedule.go: `Next` gives the first window after an instant.
use veritix.Base.{
  ℕ, ◌-◌, ◌%◌, ◌⊎◌, ap, ◌∙◌, ◌+◌, ◌<◌, ◌≡◌, refl, sym, subst, arith, none, inl, inr, Bool-cases,
}
use veritix.Base.Int.{
  ℤ, pos, negsuc, ◌+ℤ◌, ◌-ℤ◌, ◌≤ℤ◌, ◌<ℤ◌, ltb_ℤ, pos_part, eq_of_parts, +ℤ_parts, -ℤ_parts,
}
use veritix.Schedule.Spec.{
  daily, weekly, interval, other, Calendar, Schedule, loc, first_day, step_days, later_day,
  rem_week, next_wall_clock, next, next_by, validate, validate_by,
}
use veritix.Schedule.First.{not_before, assoc, IsFirstAfter, first_window, second_window}

-- The instant of a schedule's time of day, a number of days after the day of another instant.
unfoldable pub wall : (cal : Calendar) → Schedule cal → ℤ → ℤ → ℤ
wall cal s after n = cal.date (loc cal s) (later_day (cal.civil (loc cal s) after) n) s.at_minute

-- Days follow each other: a time of a later day is a later instant, a time of the day before an
-- instant's is not after it, and one of the day after it is.
pub record Regular (cal : Calendar) (s : Schedule cal) : Type 0 where
  pub increasing : (t m n : ℤ) → m <ℤ n → wall cal s t m <ℤ wall cal s t n
  pub yesterday : (t : ℤ) → wall cal s t (negsuc 0) ≤ℤ t
  pub tomorrow : (t : ℤ) → t <ℤ wall cal s t (pos 1)

-- The weekday of a schedule and those of instants are 0 to 6.
abbrev pub DayNumber : ℤ → Type 0
DayNumber d = (pos 0 ≤ℤ d) × (d <ℤ pos 7)

-- The days to go from one weekday to another.
days_to :
    (w l : ℤ)
    → DayNumber w
    → DayNumber l
    → (r : ℕ) × (rem_week (w -ℤ l +ℤ pos 7) ≡ pos r) × (r < 7) × ((pos_part l + r) % 7 ≡ pos_part w)
unfolding rem_week
days_to (pos w) (pos l) hw hl =
    let k = w + 7 - l in
    let e : pos w -ℤ pos l +ℤ pos 7 ≡ pos k =
      eq_of_parts (pos w -ℤ pos l +ℤ pos 7) (pos k)
        (omega (arith, -ℤ_parts (pos w) (pos l), +ℤ_parts (pos w -ℤ pos l) (pos 7), hl.1)) in
    (k % 7, rw e refl, omega arith, omega (arith, hw.1, hl.1))
days_to (negsuc w) l hw hl = absurd (omega (arith, hw.0))
days_to (pos w) (negsuc l) hw hl = absurd (omega (arith, hl.0))

wall_later :
    (cal : Calendar) (s : Schedule cal) (t m n : ℤ)
    → cal.date (loc cal s) (later_day (later_day (cal.civil (loc cal s) t) m) n) s.at_minute
      ≡ wall cal s t (m +ℤ n)
unfolding wall later_day
wall_later cal s t m n =
    ap (λ d. cal.date (loc cal s) (record (cal.civil (loc cal s) t) { day = d }) s.at_minute)
      (assoc (cal.civil (loc cal s) t).day m n)

add_pos : (a b : ℕ) → pos a +ℤ pos b ≡ pos (a + b)
add_pos a b = eq_of_parts (pos a +ℤ pos b) (pos (a + b)) (omega (arith, +ℤ_parts (pos a) (pos b)))

-- The wall clock's answer for a number of days to go and a step that is longer.
wall_clock :
    (cal : Calendar) (s : Schedule cal) (t : ℤ) (r step : ℕ)
    → Regular cal s
    → r < step
    → first_day cal s t s.kind ≡ pos r
    → step_days cal s.kind ≡ pos step
    → IsFirstAfter (wall cal s t) step (pos r) t (next_wall_clock cal s t)
unfolding next_wall_clock wall loc ◌+ℤ◌
wall_clock cal s t r step g h e k =
    let f = wall cal s t in
    rw (e, k, wall_later cal s t (pos r) (pos step), add_pos r step)
      (elim (Bool-cases (ltb_ℤ t (f (pos r)))) [
        | inl b ↦ rw b (
            first_window f t (g.increasing t) (g.yesterday t) (g.tomorrow t) step r h
              (ground arith))
        | inr b ↦ rw b (
            second_window f t (g.increasing t) (g.yesterday t) (g.tomorrow t) step r h
              (not_before t (f (pos r)) b))
      ])

-- With a daily schedule and regular days, `Next` is the first instant after the given one
-- that has the schedule's time of day, on any day.
pub next-daily :
    (cal : Calendar) (zero_time : ℤ) (s : Schedule cal) (t : ℤ)
    → Regular cal s
    → s.kind ≡ daily
    → IsFirstAfter (wall cal s t) 1 (pos 0) t (next cal zero_time s t)
unfolding next first_day step_days
next-daily cal zero_time s t g k =
    let w =
      wall_clock cal s t 0 1 g (omega arith) (ap (first_day cal s t) k) (ap (step_days cal) k) in
    subst (IsFirstAfter (wall cal s t) 1 (pos 0) t) (sym (ap (next_by cal zero_time s t) k)) w

valid_weekday :
    (cal : Calendar) (s : Schedule cal)
    → validate cal s ≡ none
    → s.kind ≡ weekly
    → DayNumber s.weekday
unfolding validate
valid_weekday cal s v k = ground (arith, v, k)

-- With weekdays from 0 to 6, a valid weekly schedule and regular days, `Next` is the first instant after the given one
-- that has the schedule's time of day on the schedule's weekday.
pub next-weekly :
    (cal : Calendar) (zero_time : ℤ) (s : Schedule cal) (t : ℤ)
    → ((l : cal.Location) (u : ℤ) → DayNumber (cal.weekday l u))
    → Regular cal s
    → validate cal s ≡ none
    → s.kind ≡ weekly
    → (r : ℕ) × ((pos_part (cal.weekday (loc cal s) t) + r) % 7 ≡ pos_part s.weekday)
      × IsFirstAfter (wall cal s t) 7 (pos r) t (next cal zero_time s t)
unfolding next first_day step_days
next-weekly cal zero_time s t days g v k =
    let d =
      days_to s.weekday (cal.weekday (loc cal s) t) (valid_weekday cal s v k)
        (days (loc cal s) t) in
    let w =
      wall_clock cal s t d.0 7 g d.2 (ap (first_day cal s t) k ∙ d.1) (ap (step_days cal) k) in
    (
      d.0,
      d.3,
      subst (IsFirstAfter (wall cal s t) 7 (pos d.0) t) (sym (ap (next_by cal zero_time s t) k)) w,
    )

add_after : (t d : ℤ) → pos 0 <ℤ d → t <ℤ t +ℤ d
add_after t d h = omega (arith, +ℤ_parts t d)

valid_interval :
    (cal : Calendar) (s : Schedule cal)
    → validate cal s ≡ none
    → s.kind ≡ interval
    → pos 0 <ℤ s.every
unfolding validate
valid_interval cal s v k = ground (arith, v, k)

kind_cases :
    (cal : Calendar) (s : Schedule cal)
    → validate cal s ≡ none
    → (s.kind ≡ daily) ⊎ ((s.kind ≡ weekly) ⊎ (s.kind ≡ interval))
unfolding validate
kind_cases cal s v =
    elim s.kind
        as (λ k. validate_by cal s k ≡ none → (k ≡ daily) ⊎ ((k ≡ weekly) ⊎ (k ≡ interval))) [
          | daily ↦ λ e. inl refl
          | weekly ↦ λ e. inr (inl refl)
          | interval ↦ λ e. inr (inr refl)
          | other o ↦ λ e. absurd (ground arith)
        ]
      v

-- With weekdays from 0 to 6 and regular days, the next window of a valid schedule is strictly
-- after the instant it is asked for.
pub next-After :
    (cal : Calendar) (zero_time : ℤ) (s : Schedule cal) (t : ℤ)
    → ((l : cal.Location) (u : ℤ) → DayNumber (cal.weekday l u))
    → Regular cal s
    → validate cal s ≡ none
    → t <ℤ next cal zero_time s t
unfolding next
next-After cal zero_time s t days g v = elim (kind_cases cal s v) [
  | inl k ↦ (next-daily cal zero_time s t g k).after
  | inr h ↦ elim h [
    | inl k ↦ (next-weekly cal zero_time s t days g v k).2.after
    | inr k ↦
        subst (λ n. t <ℤ n) (sym (ap (next_by cal zero_time s t) k))
          (add_after t s.every (valid_interval cal s v k))
  ]
]
