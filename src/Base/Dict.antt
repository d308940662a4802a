-- ===== src/Base/Dict.antt =====
-- A Go map with string keys, as an association list. A key occurs at most once after `insert`
-- and `delete`; `entries` is one order in which a `range` loop may visit it.
use mathlib.Core.Path.{◌≡◌, refl}
use mathlib.Core.Option.{Option, none, some}
use mathlib.Core.List.{List, [], ◌∷◌}
use native.Mathlib.Omega.{arith}
use Prim.Native.Nat.{ℕ, ◌+◌}
use mathlib.Core.Path.{◌∙◌}
use mathlib.Core.Logic.{inl, inr}
use veritix.Base.Tests.{if◌then◌else◌, Bool-cases}
use veritix.Base.Lists.{length}
use veritix.Base.Text.{Str, str_eq, str_eq_iff}

module _ {ℓ} {V : Type ℓ} where
  unfoldable pub lookup : Str → List (Str × V) → Option V
  lookup k [] = none
  lookup k ((j, v) ∷ m) = if str_eq j k then some v else lookup k m

  unfoldable pub insert : Str → V → List (Str × V) → List (Str × V)
  insert k v [] = (k, v) ∷ []
  insert k v ((j, w) ∷ m) = if str_eq j k then (k, v) ∷ m else (j, w) ∷ insert k v m

  unfoldable pub delete : Str → List (Str × V) → List (Str × V)
  delete k [] = []
  delete k ((j, w) ∷ m) = let rest = delete k m in if str_eq j k then rest else (j, w) ∷ rest

  pub lookup-insert :
      (k j : Str) (v : V) (m : List (Str × V))
      → lookup j (insert k v m) ≡ (if str_eq k j then some v else lookup j m)
  unfolding lookup insert
  lookup-insert k j v [] = refl
  lookup-insert k j v ((i, w) ∷ m) =
      ground (arith, str_eq_iff k j, str_eq_iff i k, str_eq_iff i j, lookup-insert k j v m)

  pub lookup-delete :
      (k j : Str) (m : List (Str × V))
      → lookup j (delete k m) ≡ (if str_eq k j then none else lookup j m)
  unfolding lookup delete
  lookup-delete k j [] = ground arith
  lookup-delete k j ((i, w) ∷ m) =
      ground (arith, str_eq_iff k j, str_eq_iff i k, str_eq_iff i j, lookup-delete k j m)

  -- Every key stands once.
  abbrev pub IsProper : List (Str × V) → Type ℓ
  IsProper [] = Unit
  IsProper ((k, v) ∷ m) = (lookup k m ≡ none) × IsProper m

  pub insert-IsProper :
      (k : Str) (v : V) (m : List (Str × V)) → IsProper m → IsProper (insert k v m)
  unfolding insert lookup
  insert-IsProper k v [] h = (refl, tt)
  insert-IsProper k v ((j, w) ∷ m) h = elim (Bool-cases (str_eq j k)) [
    | inl e ↦ rw (e) (rw (← (str_eq_iff j k).0 e) h.0, h.1)
    | inr e ↦ rw e (
      lookup-insert k j v m ∙ ground (arith, str_eq_iff j k, str_eq_iff k j, h.0),
      insert-IsProper k v m h.1,
    )
  ]

  pub delete-IsProper : (k : Str) (m : List (Str × V)) → IsProper m → IsProper (delete k m)
  unfolding delete
  delete-IsProper k [] h = tt
  delete-IsProper k ((j, w) ∷ m) h = elim (Bool-cases (str_eq j k)) [
    | inl e ↦ rw e (delete-IsProper k m h.1)
    | inr e ↦ rw e (lookup-delete k j m ∙ ground (arith, h.0), delete-IsProper k m h.1)
  ]

  -- 1 for a key that is there, 0 for one that is not.
  abbrev pub found : Option V → ℕ
  found none = 0
  found (some v) = 1

  pub length-delete :
      (k : Str) (m : List (Str × V))
      → IsProper m
      → length (delete k m) + found (lookup k m) ≡ length m
  unfolding delete lookup
  length-delete k [] h = omega arith
  length-delete k ((j, w) ∷ m) h = ground (arith, length-delete k m h.1, h.0, str_eq_iff j k)

  pub length-insert_new :
      (k : Str) (v : V) (m : List (Str × V))
      → lookup k m ≡ none
      → length (insert k v m) ≡ length m + 1
  unfolding insert lookup
  length-insert_new k v [] h = refl
  length-insert_new k v ((j, w) ∷ m) h = ground (arith, length-insert_new k v m)
