-- ===== src/Base/Utf8.antt =====
-- UTF-8 as Go reads and writes it: `for _, r := range s` and `WriteRune`. A byte that starts no
-- valid sequence is read as the replacement character 0xFFFD, and one byte is skipped.
use veritix.Base.Tests.{ltb, leb, if◌then◌else◌, Bool-cases}
use veritix.Base.Lists.{All}
use veritix.Base.Text.{Str}
use Prim.Native.Nat.{ℕ, zero, suc, ◌+◌, ◌-◌, ◌*◌, ◌/◌, ◌%◌, ◌≤◌, ◌<◌}
use mathlib.Core.Path.{◌≡◌, refl, ap, ◌∙◌}
use mathlib.Core.Bool.{Bool, false, ◌&&◌, ◌||◌}
use mathlib.Core.Logic.{◌⊎◌, inl, inr}
use mathlib.Core.List.{List, [], ◌∷◌, ◌++◌}
use native.Mathlib.Omega.{arith}

abbrev pub in_range : ℕ → ℕ → ℕ → Bool
in_range lo hi b = leb lo b && leb b hi

-- 10xxxxxx
abbrev is_cont : ℕ → Bool
is_cont = in_range 128 191

-- The least and the greatest second byte after a first one.
second_lo : ℕ → ℕ
second_lo a = if leb a 224 && leb 224 a then 160 else if leb a 240 && leb 240 a then 144 else 128

second_hi : ℕ → ℕ
second_hi a = if leb a 237 && leb 237 a then 159 else if leb a 244 && leb 244 a then 143 else 191

-- The rune that starts with byte `a` before the bytes `s`, and how many more bytes it takes.
decode_two : ℕ → Str → ℕ × ℕ
decode_two a (b ∷ s) = if is_cont b then ((a - 192) * 64 + (b - 128), 1) else (65533, 0)
decode_two a [] = (65533, 0)

decode_three : ℕ → Str → ℕ × ℕ
decode_three a (b ∷ c ∷ s) =
    if in_range (second_lo a) (second_hi a) b && is_cont c
    then ((a - 224) * 4096 + (b - 128) * 64 + (c - 128), 2)
    else (65533, 0)
decode_three a _ = (65533, 0)

decode_four : ℕ → Str → ℕ × ℕ
decode_four a (b ∷ c ∷ d ∷ s) =
    if in_range (second_lo a) (second_hi a) b && (is_cont c && is_cont d)
    then ((a - 240) * 262144 + (b - 128) * 4096 + (c - 128) * 64 + (d - 128), 3)
    else (65533, 0)
decode_four a _ = (65533, 0)

decode_rune : ℕ → Str → ℕ × ℕ
decode_rune a s =
    if ltb a 128
    then (a, 0)
    else if in_range 194 223 a
    then decode_two a s
    else if in_range 224 239 a
    then decode_three a s
    else if in_range 240 244 a
    then decode_four a s
    else (65533, 0)

-- The runes of the bytes that are left after skipping the tail of a rune.
runes_from : ℕ → Str → List ℕ
runes_from skip [] = []
runes_from zero (a ∷ s) = (decode_rune a s).0 ∷ runes_from (decode_rune a s).1 s
runes_from (suc skip) (a ∷ s) = runes_from skip s

unfoldable pub runes : Str → List ℕ
unfolding runes_from decode_rune decode_two decode_three decode_four second_lo second_hi
runes s = runes_from 0 s

-- utf8.AppendRune
unfoldable pub encode_rune : ℕ → Str
encode_rune r =
    if ltb r 128
    then r ∷ []
    else if ltb r 2048
    then (192 + r / 64) ∷ (128 + r % 64) ∷ []
    else if in_range 55296 57343 r || ltb 1114111 r
    then 239 ∷ 191 ∷ 189 ∷ []
    else if ltb r 65536
    then (224 + r / 4096) ∷ (128 + r / 64 % 64) ∷ (128 + r % 64) ∷ []
    else (240 + r / 262144) ∷ (128 + r / 4096 % 64) ∷ (128 + r / 64 % 64) ∷ (128 + r % 64) ∷ []

unfoldable pub encode : List ℕ → Str
unfolding encode_rune
encode [] = []
encode (r ∷ rs) = encode_rune r ++ encode rs

-- A Unicode scalar value.
abbrev pub IsRune : ℕ → Type 0
IsRune r = (r < 55296) ⊎ ((57344 ≤ r) × (r < 1114112))

decode_two-IsRune : (a : ℕ) (s : Str) → 194 ≤ a → a ≤ 223 → IsRune (decode_two a s).0
unfolding decode_two
decode_two-IsRune a [] h k = ground arith
decode_two-IsRune a (b ∷ s) h k = ground arith

decode_three-IsRune : (a : ℕ) (s : Str) → 224 ≤ a → a ≤ 239 → IsRune (decode_three a s).0
unfolding decode_three second_lo second_hi
decode_three-IsRune a [] h k = ground arith
decode_three-IsRune a (b ∷ []) h k = ground arith
decode_three-IsRune a (b ∷ c ∷ s) h k = ground arith

decode_four-IsRune : (a : ℕ) (s : Str) → 240 ≤ a → a ≤ 244 → IsRune (decode_four a s).0
unfolding decode_four second_lo second_hi
decode_four-IsRune a [] h k = ground arith
decode_four-IsRune a (b ∷ []) h k = ground arith
decode_four-IsRune a (b ∷ c ∷ []) h k = ground arith
decode_four-IsRune a (b ∷ c ∷ d ∷ s) h k = ground arith

decode_rune-IsRune : (a : ℕ) (s : Str) → IsRune (decode_rune a s).0
unfolding decode_rune
decode_rune-IsRune a s =
    ground (arith, decode_two-IsRune a s, decode_three-IsRune a s, decode_four-IsRune a s)

runes_from-IsRune : (skip : ℕ) (s : Str) → All IsRune (runes_from skip s)
unfolding runes_from
runes_from-IsRune skip [] = tt
runes_from-IsRune zero (a ∷ s) = (decode_rune-IsRune a s, runes_from-IsRune (decode_rune a s).1 s)
runes_from-IsRune (suc skip) (a ∷ s) = runes_from-IsRune skip s

-- Whatever the bytes are, every rune read from them is a scalar value.
pub runes-IsRune : (s : Str) → All IsRune (runes s)
unfolding runes
runes-IsRune s = runes_from-IsRune 0 s

decode_two-encode :
    (r : ℕ) (s : Str)
    → 128 ≤ r
    → r < 2048
    → decode_rune (192 + r / 64) ((128 + r % 64) ∷ s) ≡ (r, 1)
unfolding decode_rune decode_two
decode_two-encode r s h k = ground arith

decode_three-encode :
    (r : ℕ) (s : Str)
    → 2048 ≤ r
    → r < 65536
    → IsRune r
    → decode_rune (224 + r / 4096) ((128 + r / 64 % 64) ∷ (128 + r % 64) ∷ s) ≡ (r, 2)
unfolding decode_rune decode_three second_lo second_hi
decode_three-encode r s h k v = ground arith

decode_four-encode :
    (r : ℕ) (s : Str)
    → 65536 ≤ r
    → r < 1114112
    → decode_rune
        (240 + r / 262144)
        ((128 + r / 4096 % 64) ∷ (128 + r / 64 % 64) ∷ (128 + r % 64) ∷ s)
      ≡ (r, 3)
unfolding decode_rune decode_four second_lo second_hi
decode_four-encode r s h k = ground arith

decode_one-encode : (r : ℕ) (s : Str) → r < 128 → decode_rune r s ≡ (r, 0)
unfolding decode_rune
decode_one-encode r s h = ground arith

runes-encode_rune :
    (r : ℕ) (s : Str) → IsRune r → runes_from 0 (encode_rune r ++ s) ≡ r ∷ runes_from 0 s
unfolding runes_from encode_rune
runes-encode_rune r s h = elim (Bool-cases (ltb r 128)) [
  | inl a ↦ rw a (rw (decode_one-encode r s (ground arith)))
  | inr a ↦ rw a (elim (Bool-cases (ltb r 2048)) [
    | inl b ↦ rw b (rw (decode_two-encode r s (ground arith) (ground arith)))
    | inr b ↦ rw b (long (ground arith))
  ])
]
  where
    long :
        2048 ≤ r
        → runes_from 0 (
            (if in_range 55296 57343 r || ltb 1114111 r
              then 239 ∷ 191 ∷ 189 ∷ []
              else if ltb r 65536
              then (224 + r / 4096) ∷ (128 + r / 64 % 64) ∷ (128 + r % 64) ∷ []
              else (240 + r / 262144)
                ∷ (128 + r / 4096 % 64)
                ∷ (128 + r / 64 % 64)
                ∷ (128 + r % 64)
                ∷ [])
            ++ s)
          ≡ r ∷ runes_from 0 s
    long big =
        let valid : (in_range 55296 57343 r || ltb 1114111 r) ≡ false = ground arith in
        rw valid (elim (Bool-cases (ltb r 65536)) [
          | inl c ↦ rw c (rw (decode_three-encode r s big (ground arith) h))
          | inr c ↦ rw c (rw (decode_four-encode r s (ground arith) (ground arith)))
        ])

-- Writing runes and reading them again gives them back.
pub runes-encode : (rs : List ℕ) → All IsRune rs → runes (encode rs) ≡ rs
unfolding runes encode
runes-encode [] h = refl
runes-encode (r ∷ rs) h =
    runes-encode_rune r (encode rs) h.0 ∙ ap (◌∷◌ r) (unfold runes in runes-encode rs h.1)
