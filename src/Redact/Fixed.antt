-- ===== src/Redact/Fixed.antt =====
-- internal/agent/redact/shape.go: what a shape contains, and that shapes are fixed points.
use veritix.Base.{
  ℕ, ◌-◌, ◌≡◌, ◌⊎◌, refl, ap, ◌∙◌, arith, true, false, List, [], ◌∷◌, ◌++◌, map, Str, str_eq_refl,
  length, take, drop, length-append, leb, All, has_prefix,
}
use veritix.Base.Utf8.{runes, encode, IsRune, runes-IsRune, runes-encode}
use veritix.Base.Unicode.{Unicode}
use veritix.Redact.Shape.{
  shape_rune, shape, mark, unmark, trim_prefix, trim_suffix, has_suffix, shape_close,
}

module _ (u : Unicode) where
  shape_rune-IsRune : (r : ℕ) → IsRune r → IsRune (shape_rune u r)
  unfolding shape_rune
  shape_rune-IsRune r h = ground arith

  shape_runes-IsRune : (rs : List ℕ) → All IsRune rs → All IsRune (map (shape_rune u) rs)
  shape_runes-IsRune [] h = tt
  shape_runes-IsRune (r ∷ rs) h = (shape_rune-IsRune r h.0, shape_runes-IsRune rs h.1)

  -- Reading a shape gives the shaped runes, one for each rune of the value.
  pub runes-shape : (s : Str) → runes (shape u s) ≡ map (shape_rune u) (runes s)
  unfolding shape
  runes-shape s = runes-encode _ (shape_runes-IsRune (runes s) (runes-IsRune s))

  shape_rune-shape_rune : (r : ℕ) → shape_rune u (shape_rune u r) ≡ shape_rune u r
  unfolding shape_rune
  shape_rune-shape_rune r = ground (
    arith,
    u.ascii_digit b'9' (omega arith),
    u.ascii_digit b'X' (omega arith),
    u.ascii_letter b'X' (omega arith),
    u.ascii_digit b' ' (omega arith),
    u.ascii_letter b' ' (omega arith),
    u.ascii_space b' ' (omega arith),
  )

  map-shape_rune_twice :
      (rs : List ℕ) → map (shape_rune u) (map (shape_rune u) rs) ≡ map (shape_rune u) rs
  map-shape_rune_twice [] = refl
  map-shape_rune_twice (r ∷ rs) = rw (shape_rune-shape_rune r, map-shape_rune_twice rs)

  -- Shapes are fixed points: the shape of a shape is that shape.
  pub shape-shape : (s : Str) → shape u (shape u s) ≡ shape u s
  unfolding shape
  shape-shape s =
      ap (λ rs. encode (map (shape_rune u) rs)) (unfold shape in runes-shape s)
      ∙ ap encode (map-shape_rune_twice (runes s))

  -- A rune that says nothing of the value: a 9, an X, a space, or a rune that is neither a digit
  -- nor a letter nor a space.
  abbrev pub IsHidden : ℕ → Type 0
  IsHidden r =
      (r ≡ b'9')
      ⊎ (r ≡ b'X')
      ⊎ (r ≡ b' ')
      ⊎ ((u.is_digit r ≡ false) × (u.is_letter r ≡ false) × (u.is_space r ≡ false))

  shape_rune-IsHidden : (r : ℕ) → IsHidden (shape_rune u r)
  unfolding shape_rune
  shape_rune-IsHidden r = ground arith

  shape_runes-IsHidden : (rs : List ℕ) → All IsHidden (map (shape_rune u) rs)
  shape_runes-IsHidden [] = tt
  shape_runes-IsHidden (r ∷ rs) = (shape_rune-IsHidden r, shape_runes-IsHidden rs)

  -- Every rune of a shape is a 9, an X, a space, or neither a digit nor a letter nor a space.
  pub shape-IsHidden : (s : Str) → All IsHidden (runes (shape u s))
  shape-IsHidden s = rw (runes-shape s) (shape_runes-IsHidden (runes s))

drop-append : (p s : Str) → drop (length p) (p ++ s) ≡ s
drop-append [] s = refl
drop-append (c ∷ p) s = drop-append p s

take-append : (p s : Str) → take (length p) (p ++ s) ≡ p
take-append [] s = refl
take-append (c ∷ p) s = ap (◌∷◌ c) (take-append p s)

trim_suffix-append : (s p : Str) → trim_suffix (s ++ p) p ≡ s
unfolding trim_suffix has_suffix
trim_suffix-append s p =
    let n : length (s ++ p) - length p ≡ length s = omega (arith, length-append {0} s p) in
    let fits : leb (length p) (length (s ++ p)) ≡ true = ground (arith, length-append {0} s p) in
    rw (n, fits) (rw (drop-append s p) (rw (str_eq_refl p) (take-append s p)))

-- Taking the delimiters off a delimited shape gives the shape back, whatever it contains.
pub unmark-mark : (s : Str) → unmark (mark s) ≡ s
unfolding unmark mark trim_prefix has_prefix
unmark-mark s = trim_suffix-append s shape_close
