-- ===== src/Finding/Severity.antt =====
-- internal/finding/finding.go: `Severity`, its text, and reading it back. `strings.ToLower` and
-- `strings.TrimSpace` are modelled on ASCII text; other bytes pass unchanged.
use veritix.Base.{
  ℕ, ◌+◌, ◌≡◌, refl, Bool, true, false, ◌&&◌, ◌||◌, Option, none, some, [], ◌∷◌, Str, codes, str_eq,
  leb, ◌==◌, if◌then◌else◌, map,
}

pub data Severity : Type 0 where
  info warning error : Severity

-- The order of the constants, which `>` compares.
unfoldable pub rank : Severity → ℕ
rank info = 0
rank warning = 1
rank error = 2

unfoldable pub severity_string : Severity → Str
severity_string error = codes "error"
severity_string warning = codes "warning"
severity_string info = codes "info"

is_space : ℕ → Bool
is_space c = c == 32 || (leb 9 c && leb c 13)

trim_left : Str → Str
trim_left [] = []
trim_left (c ∷ s) = let rest = trim_left s in if is_space c then rest else c ∷ s

-- A trailing space goes when nothing but spaces follows it.
trim_right : Str → Str
trim_right [] = []
trim_right (c ∷ s) = elim (trim_right s) [
  | [] ↦ if is_space c then [] else c ∷ []
  | d ∷ t ↦ c ∷ d ∷ t
]

-- strings.TrimSpace
unfoldable pub trim_space : Str → Str
unfolding trim_left trim_right is_space
trim_space s = trim_right (trim_left s)

unfoldable pub lower_byte : ℕ → ℕ
lower_byte c = if leb 65 c && leb c 90 then c + 32 else c

-- strings.ToLower
unfoldable pub to_lower : Str → Str
unfolding lower_byte
to_lower = map lower_byte

-- The error of the source is `none`.
parse_name : Str → Option Severity
parse_name s =
    if str_eq s (codes "info")
    then some info
    else if str_eq s (codes "warn") || str_eq s (codes "warning")
    then some warning
    else if str_eq s (codes "error")
    then some error
    else none

unfoldable pub parse_severity : Str → Option Severity
unfolding parse_name trim_space to_lower
parse_severity s = parse_name (to_lower (trim_space s))

-- `UnmarshalText`: the receiver after the call, and whether it succeeded.
unfoldable pub unmarshal_text : Severity → Str → Severity × Bool
unfolding parse_severity
unmarshal_text old b = elim (parse_severity b) [ some v ↦ (v, true) | none ↦ (old, false) ]

-- Reading a severity's text gives the severity back, also in a receiver that held another one.
pub unmarshal_text-severity_string :
    (s old : Severity) → unmarshal_text old (severity_string s) ≡ (s, true)
unfolding unmarshal_text severity_string str_eq
unmarshal_text-severity_string info old = refl
unmarshal_text-severity_string warning old = refl
unmarshal_text-severity_string error old = refl
