-- ===== src/Config/Address.antt =====
-- internal/config/config.go: `IsLoopback`, and the refusal of internal/cli/serve.go that rests on it.
use veritix.Base.{
  ℕ, ◌≡◌, refl, arith, Bool, true, false, not, ◌&&◌, ◌||◌, Option, none, some, [], ◌∷◌, Str, codes,
  str_eq, has_prefix, if◌then◌else◌, any_of, ◌==◌,
}
use veritix.Config.Settings.{one_of}

-- What stands before the last colon, if there is one.
unfoldable pub before_last_colon : Str → Option Str
before_last_colon [] = none
before_last_colon (c ∷ s) = elim (before_last_colon s) [
  | some h ↦ some (c ∷ h)
  | none ↦ if c == 58 then some [] else none
]

abbrev pub is_bracket : ℕ → Bool
is_bracket c = c == 91 || c == 93

-- `strings.Trim(host, "[]")`, the ends in turn.
unfoldable pub trim_left : Str → Str
trim_left [] = []
trim_left (c ∷ s) = let rest = trim_left s in if is_bracket c then rest else c ∷ s

unfoldable pub trim_right : Str → Str
trim_right [] = []
trim_right (c ∷ s) =
    let rest = trim_right s in if is_bracket c && str_eq rest [] then [] else c ∷ rest

unfoldable pub host_of : Str → Str
unfolding before_last_colon
host_of addr = elim (before_last_colon addr) [ some h ↦ h | none ↦ addr ]

unfoldable pub is_loopback : Str → Bool
unfolding host_of trim_left trim_right
is_loopback addr =
    let host = trim_right (trim_left (host_of addr)) in
    if one_of ([] ∷ codes "localhost" ∷ codes "127.0.0.1" ∷ codes "::1" ∷ []) host
    then true
    else has_prefix host (codes "127.")

-- The refusal of `veritix serve`.
unfoldable pub serve_refuses : Str → Str → Bool
unfolding is_loopback
serve_refuses addr token = not (is_loopback addr) && str_eq token []

no_colon : (s : Str) → any_of (λ c. c == 58) s ≡ false → before_last_colon s ≡ none
unfolding before_last_colon
no_colon [] h = refl
no_colon (c ∷ s) h = ground (arith, h, no_colon s)

-- The server is not refused without a token on an address that is a colon and a port without a
-- colon, which names no host.
pub serve_refuses-port_only :
    (port token : Str)
    → any_of (λ c. c == 58) port ≡ false
    → serve_refuses (58 ∷ port) token ≡ false
unfolding serve_refuses is_loopback host_of before_last_colon trim_left trim_right str_eq
serve_refuses-port_only port token h = ground (arith, no_colon port h)
