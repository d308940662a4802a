-- ===== src/Base/Decimal.antt =====
-- Decimal text as `fmt` writes integers (%d), and the value that such a text denotes.
use Prim.Native.Nat.{ℕ, zero, suc, ◌+◌, ◌-◌, ◌*◌, ◌/◌, ◌%◌, ◌≤◌, ◌<◌}
use mathlib.Core.Path.{◌≡◌, refl, sym, ◌∙◌, ap}
use mathlib.Core.Logic.{inl, inr}
use mathlib.Core.List.{[], ◌∷◌, ◌++◌}
use native.Mathlib.Omega.{arith}
use veritix.Base.Tests.{ltb, if◌then◌else◌, Bool-cases}
use veritix.Base.Lists.{All, All-append}
use veritix.Base.Text.{Str}
use veritix.Base.Int.{ℤ, pos, negsuc}

-- The digits of `n`; fuel above `n` is enough.
show_fuel : ℕ → ℕ → Str
show_fuel zero n = []
show_fuel (suc f) n =
    let rest = show_fuel f (n / 10) in
    if ltb n 10 then (48 + n) ∷ [] else rest ++ (48 + n % 10) ∷ []

unfoldable pub show_nat : ℕ → Str
unfolding show_fuel
show_nat n = show_fuel (suc n) n

unfoldable pub show_int : ℤ → Str
unfolding show_nat
show_int (pos n) = show_nat n
show_int (negsuc n) = 45 ∷ show_nat (suc n)

-- The number that a run of digits denotes, after an accumulator.
pub value_from : ℕ → Str → ℕ
value_from acc [] = acc
value_from acc (c ∷ s) = value_from (acc * 10 + (c - 48)) s

value_from-snoc :
    (acc : ℕ) (s : Str) (c : ℕ) → value_from acc (s ++ c ∷ []) ≡ value_from acc s * 10 + (c - 48)
unfolding value_from
value_from-snoc acc [] c = refl
value_from-snoc acc (b ∷ s) c = value_from-snoc (acc * 10 + (b - 48)) s c

value-show_fuel : (f n : ℕ) → n < f → value_from 0 (show_fuel f n) ≡ n
unfolding show_fuel value_from
value-show_fuel zero n h = absurd (omega arith)
value-show_fuel (suc f) n h =
    ground
      (arith, value-show_fuel f (n / 10), value_from-snoc 0 (show_fuel f (n / 10)) (48 + n % 10))

-- Printing loses nothing.
pub value-show_nat : (n : ℕ) → value_from 0 (show_nat n) ≡ n
unfolding show_nat
value-show_nat n = value-show_fuel (suc n) n (omega arith)

pub show_nat_inj : (n m : ℕ) → show_nat n ≡ show_nat m → n ≡ m
show_nat_inj n m e = sym (value-show_nat n) ∙ ap (value_from 0) e ∙ value-show_nat m

-- Every byte of a printed number is a digit.
show_fuel-digits : (f n : ℕ) → All (λ c. 48 ≤ c) (show_fuel f n)
unfolding show_fuel
show_fuel-digits zero n = tt
show_fuel-digits (suc f) n =
    let tail_digits =
      All-append (λ c. 48 ≤ c) (show_fuel f (n / 10)) ((48 + n % 10) ∷ [])
        (show_fuel-digits f (n / 10)) (omega arith) in
    elim (Bool-cases (ltb n 10)) [ inl e ↦ rw e (omega arith, tt) | inr e ↦ rw e tail_digits ]

minus_ne_digits : (s t : Str) → All (λ c. 48 ≤ c) s → ¬ (s ≡ 45 ∷ t)
minus_ne_digits [] t h e = cc
minus_ne_digits (c ∷ s) t h e = ground arith

pub show_int_inj : (a b : ℤ) → show_int a ≡ show_int b → a ≡ b
unfolding show_int
show_int_inj (pos n) (pos m) e = ap pos (show_nat_inj n m e)
show_int_inj (pos n) (negsuc m) e =
    absurd (minus_ne_digits (show_nat n) _ (unfold show_nat in show_fuel-digits (suc n) n) e)
show_int_inj (negsuc n) (pos m) e =
    absurd (minus_ne_digits (show_nat m) _ (unfold show_nat in show_fuel-digits (suc m) m) (sym e))
show_int_inj (negsuc n) (negsuc m) e =
    let f : show_nat (suc n) ≡ show_nat (suc m) = ground arith in
    ground (arith, show_nat_inj (suc n) (suc m) f)
