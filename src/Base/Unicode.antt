-- ===== src/Base/Unicode.antt =====
-- The tables of Go's `unicode` package as a parameter: three classes of runes, which on ASCII are
-- what the package documents. `ascii` is the smallest table with these laws.
use veritix.Base.Tests.{◌==◌}
use veritix.Base.Utf8.{in_range}
use Prim.Native.Nat.{ℕ, ◌<◌}
use mathlib.Core.Path.{◌≡◌, refl}
use mathlib.Core.Bool.{Bool, ◌||◌}

pub record Unicode : Type 0 where
  pub is_digit : ℕ → Bool
  pub is_letter : ℕ → Bool
  pub is_space : ℕ → Bool
  pub ascii_digit : (c : ℕ) → c < 128 → is_digit c ≡ in_range 48 57 c
  pub ascii_letter : (c : ℕ) → c < 128 → is_letter c ≡ (in_range 65 90 c || in_range 97 122 c)
  pub ascii_space : (c : ℕ) → c < 128 → is_space c ≡ (c == 32 || in_range 9 13 c)

abbrev pub ascii : Unicode
ascii = record {
  is_digit = in_range 48 57;
  is_letter = λ c. in_range 65 90 c || in_range 97 122 c;
  is_space = λ c. c == 32 || in_range 9 13 c;
  ascii_digit = λ c _. refl;
  ascii_letter = λ c _. refl;
  ascii_space = λ c _. refl;
}
