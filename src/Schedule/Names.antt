-- ===== src/Schedule/Names.antt =====
-- internal/schedule/schedule.go: `Zone`, `LoadLocation`, `At` and `ParseAt`.
use veritix.Base.{
  ℕ, ◌+◌, ◌*◌, ◌/◌, ◌%◌, ◌<◌, ◌≡◌, arith, ◌||◌, Option, none, some, [], ◌∷◌, ◌++◌, Str, codes,
  str_eq, str_eq_iff, if◌then◌else◌, ap, inl, inr, ◌⊎◌, Bool-cases, sym,
}
use veritix.Schedule.Spec.{Calendar, Schedule, loc}

-- `Location.String`, `time.LoadLocation`, and `time.Parse` with a layout, as an hour and a minute.
pub record TimeText (cal : Calendar) : Type 0 where
  pub name : cal.Location → Str
  pub load : Str → Option cal.Location
  pub parse : Str → Str → Option (ℕ × ℕ)

module _ (cal : Calendar) (text : TimeText cal) where
  unfoldable pub zone : Schedule cal → Str
  zone s = text.name (loc cal s)

  unfoldable pub load_location : Str → Option cal.Location
  load_location name =
      if str_eq name [] || str_eq name (codes "Local") then some cal.server else text.load name

  -- The two layouts in turn.
  unfoldable pub parse_at : Str → Option ℕ
  parse_at at = elim (text.parse (codes "15:04") at) [
    | some t ↦ some (t.0 * 60 + t.1)
    | none ↦ elim (text.parse (codes "15:04:05") at) [
      | some t ↦ some (t.0 * 60 + t.1)
      | none ↦ none
    ]
  ]

-- `%02d` of a number below 100.
unfoldable pub two_digits : ℕ → Str
two_digits n = (48 + n / 10) ∷ (48 + n % 10) ∷ []

-- `At`, for a minute that is not negative.
unfoldable pub at_text : ℕ → Str
unfolding two_digits
at_text m = two_digits (m / 60 % 24) ++ codes ":" ++ two_digits (m % 60)

-- Package time finds a location by its name, gives two locations one name only if they are equal,
-- and calls no other location "Local" or nothing.
pub record NamesZones (cal : Calendar) (text : TimeText cal) : Type 0 where
  pub loads : (l : cal.Location) → text.load (text.name l) ≡ some l
  pub reserved :
      (l : cal.Location) → (text.name l ≡ []) ⊎ (text.name l ≡ codes "Local") → l ≡ cal.server

-- A zone round-trips through its name: the stored name of a schedule's zone loads as that zone,
-- also where the schedule names none, if package time finds each location by its name and calls only the
-- server's "Local" or nothing.
pub load_location-zone :
    (cal : Calendar) (text : TimeText cal) (s : Schedule cal)
    → NamesZones cal text
    → load_location cal text (zone cal text s) ≡ some (loc cal s)
unfolding load_location zone
load_location-zone cal text s h =
    let n = text.name (loc cal s) in
    elim (Bool-cases (str_eq n [])) [
      | inl e ↦ rw e (ap some (sym (h.reserved (loc cal s) (inl ((str_eq_iff n []).0 e)))))
      | inr e ↦ elim (Bool-cases (str_eq n (codes "Local"))) [
        | inl k ↦
            rw (e, k)
              (ap some (sym (h.reserved (loc cal s) (inr ((str_eq_iff n (codes "Local")).0 k)))))
        | inr k ↦ rw (e, k) (h.loads (loc cal s))
      ]
    ]

-- Reading the time of day that a schedule shows gives its minute back, for every minute of a day,
-- if the layout "15:04" reads two digits, a colon and two digits as an hour and a minute.
pub parse_at-at_text :
    (cal : Calendar) (text : TimeText cal) (m : ℕ)
    → ((h n : ℕ)
        → h < 24
        → n < 60
        → text.parse (codes "15:04") (two_digits h ++ codes ":" ++ two_digits n) ≡ some (h, n))
    → m < 1440
    → parse_at cal text (at_text m) ≡ some m
unfolding parse_at at_text
parse_at-at_text cal text m law h =
    let e = law (m / 60 % 24) (m % 60) (omega arith) (omega arith) in
    rw (parse_at, e) (ap some (omega arith))
