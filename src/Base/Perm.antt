-- ===== src/Base/Perm.antt =====
-- What a rearrangement keeps: the native length, and whether some member passes a test.
use Prim.Native.Nat.{ℕ, suc, ◌+◌}
use mathlib.Core.Path.{◌≡◌, refl, ◌∙◌, ap, sym}
use mathlib.Core.Nat as Lib
use mathlib.Core.Bool.{Bool, true, Bool-set}
use mathlib.Core.List.{List, [], ◌∷◌, ◌++◌, Perm, map}
use mathlib.Core.List as Library
use mathlib.Core.List.Permᴰ
use mathlib.Core.Logic.{∥∥₁_elim}
use native.Mathlib.Omega.{arith}
use native.Mathlib.Nat.{ℕ_set}
use veritix.Base.Tests.{if◌then◌else◌}
use veritix.Base.Lists.{length, any_of, count_if}

from_lib : Lib.ℕ → ℕ
from_lib Lib.zero = 0
from_lib (Lib.suc n) = suc (from_lib n)

module _ {ℓ} {A : Type ℓ} where
  length_lib : (xs : List A) → from_lib (Library.length xs) ≡ length xs
  unfolding from_lib
  length_lib [] = refl
  length_lib (x ∷ xs) = ap suc (length_lib xs)

  pub length-Perm : {xs ys : List A} → Perm xs ys → length xs ≡ length ys
  length-Perm {xs} {ys} p =
      cc (length_lib xs, length_lib ys, ap from_lib (Library.Perm.length-eq p))

  pub any_of-append :
      (p : A → Bool) (xs ys : List A)
      → any_of p (xs ++ ys) ≡ (if any_of p xs then true else any_of p ys)
  any_of-append p [] ys = refl
  any_of-append p (x ∷ xs) ys = ground (arith, any_of-append p xs ys)

  -- Which of the two heads passes first does not matter.
  any_of-Permᴰ : (p : A → Bool) {xs ys : List A} → Permᴰ.Permᴰ xs ys → any_of p xs ≡ any_of p ys
  any_of-Permᴰ p Permᴰ.nil = refl
  any_of-Permᴰ p (Permᴰ.cons e d) = ground (arith, any_of-Permᴰ p d, ap p e)
  any_of-Permᴰ p (Permᴰ.swap e f) = ground (arith, ap p e, ap p f)
  any_of-Permᴰ p (Permᴰ.trans d e) = any_of-Permᴰ p d ∙ any_of-Permᴰ p e

  pub any_of-Perm : (p : A → Bool) {xs ys : List A} → Perm xs ys → any_of p xs ≡ any_of p ys
  any_of-Perm p {xs} {ys} h = ∥∥₁_elim h (Bool-set (any_of p xs) (any_of p ys)) (any_of-Permᴰ p)

  count_if-Permᴰ :
      (p : A → Bool) {xs ys : List A} → Permᴰ.Permᴰ xs ys → count_if p xs ≡ count_if p ys
  count_if-Permᴰ p Permᴰ.nil = refl
  count_if-Permᴰ p (Permᴰ.cons e d) = ground (arith, count_if-Permᴰ p d, ap p e)
  count_if-Permᴰ p (Permᴰ.swap e f) = ground (arith, ap p e, ap p f)
  count_if-Permᴰ p (Permᴰ.trans d e) = count_if-Permᴰ p d ∙ count_if-Permᴰ p e

  pub count_if-Perm : (p : A → Bool) {xs ys : List A} → Perm xs ys → count_if p xs ≡ count_if p ys
  count_if-Perm p {xs} {ys} h =
      ∥∥₁_elim h (ℕ_set (count_if p xs) (count_if p ys)) (count_if-Permᴰ p)

  pub count_if-append :
      (p : A → Bool) (xs ys : List A) → count_if p (xs ++ ys) ≡ count_if p xs + count_if p ys
  count_if-append p [] ys = omega arith
  count_if-append p (x ∷ xs) ys = ground (arith, count_if-append p xs ys)

module _ {ℓ κ} {A : Type ℓ} {B : Type κ} where
  any_of-map :
      (p : B → Bool) (f : A → B) (xs : List A) → any_of p (map f xs) ≡ any_of (λ x. p (f x)) xs
  any_of-map p f [] = refl
  any_of-map p f (x ∷ xs) = ground (arith, any_of-map p f xs)

  pub any_of-map_Perm :
      (p : B → Bool) (f : A → B) {xs ys : List A}
      → Perm xs ys
      → any_of p (map f xs) ≡ any_of p (map f ys)
  any_of-map_Perm p f {xs} {ys} h =
      any_of-map p f xs ∙ any_of-Perm (λ x. p (f x)) h ∙ sym (any_of-map p f ys)
