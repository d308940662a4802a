-- ===== src/Base/Sort/Defs.antt =====
-- The sort, and what it means to be in order.
use mathlib.Core.Path.{◌≡◌}
use mathlib.Core.Bool.{Bool, true, false}
use mathlib.Core.List.{List, [], ◌∷◌}
use veritix.Base.Tests.{if◌then◌else◌}
use veritix.Base.Lists.{All}

module _ {ℓ} {A : Type ℓ} where
  -- An element goes before the first one that is not less than it.
  unfoldable pub insert_by : (A → A → Bool) → A → List A → List A
  insert_by less x [] = x ∷ []
  insert_by less x (y ∷ ys) = if less y x then y ∷ insert_by less x ys else x ∷ y ∷ ys

  unfoldable pub sort_by : (A → A → Bool) → List A → List A
  unfolding insert_by
  sort_by less [] = []
  sort_by less (x ∷ xs) = insert_by less x (sort_by less xs)

  -- No later element is less than an earlier one.
  abbrev pub InOrder : (A → A → Bool) → List A → Type 0
  InOrder less [] = Unit
  InOrder less (x ∷ xs) = All (λ y. less y x ≡ false) xs × InOrder less xs

  -- A strict weak order on the values that `P` admits.
  pub record IsWeakOrder (P : A → Type 0) (less : A → A → Bool) : Type ℓ where
    pub asym : (a b : A) → P a → P b → less a b ≡ true → less b a ≡ false
    pub neg_trans :
        (a b c : A) → P a → P b → P c → less a b ≡ false → less b c ≡ false → less a c ≡ false
