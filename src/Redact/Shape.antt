-- ===== src/Redact/Shape.antt =====
-- internal/agent/redact/shape.go: `shape` and `mask`; redact.go: `Mark` and `Unmark`. The three
-- regular expressions of `mask` are parameters, as functions that replace what they match.
use veritix.Base.{
  ℕ, ◌-◌, Bool, not, ◌&&◌, [], ◌∷◌, ◌++◌, map, Str, str_eq, leb, if◌then◌else◌, length, take, drop,
  has_prefix,
}
use veritix.Base.Utf8.{runes, encode}
use veritix.Base.Unicode.{Unicode}

module _ (u : Unicode) where
  -- One round of the loop: the rune that is written for a rune that is read.
  unfoldable pub shape_rune : ℕ → ℕ
  shape_rune r =
      if u.is_digit r
      then b'9'
      else if u.is_letter r
      then b'X'
      else if u.is_space r
      then b' '
      else r

  unfoldable pub shape : Str → Str
  unfolding shape_rune
  shape s = encode (map shape_rune (runes s))

pub record Patterns : Type 0 where
  pub email : Str → Str
  pub ssn : Str → Str
  pub long_number : Str → Str

-- The masked text, and whether anything changed.
unfoldable pub mask : Patterns → Str → Str × Bool
mask p s = let out = p.long_number (p.ssn (p.email s)) in (out, not (str_eq out s))

-- U+27E8 and U+27E9 in UTF-8
abbrev pub shape_open : Str
shape_open = 226 ∷ 159 ∷ 168 ∷ []

abbrev pub shape_close : Str
shape_close = 226 ∷ 159 ∷ 169 ∷ []

unfoldable pub mark : Str → Str
mark s = shape_open ++ s ++ shape_close

-- strings.TrimPrefix
unfoldable pub trim_prefix : Str → Str → Str
trim_prefix s p = if has_prefix s p then drop (length p) s else s

unfoldable pub has_suffix : Str → Str → Bool
has_suffix s p = leb (length p) (length s) && str_eq (drop (length s - length p) s) p

-- strings.TrimSuffix
unfoldable pub trim_suffix : Str → Str → Str
trim_suffix s p = if has_suffix s p then take (length s - length p) s else s

unfoldable pub unmark : Str → Str
unfolding trim_prefix trim_suffix has_suffix
unmark s = trim_suffix (trim_prefix s shape_open) shape_close
