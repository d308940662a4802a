-- ===== src/Base/Keyed.antt =====
-- A map whose entries stand under the key of their value, as `index_by` builds it.
use mathlib.Core.Path.{◌≡◌, refl}
use mathlib.Core.List.{List, [], ◌∷◌}
use veritix.Base.Tests.{Bool-cases}
use mathlib.Core.Logic.{inl, inr}
use veritix.Base.Lists.{All}
use veritix.Base.Text.{Str, str_eq}
use veritix.Base.Dict.{insert, delete}
use veritix.Base.Walk.{index_by, walk}

module _ {A : Type 0} (key : A → Str) where
  abbrev pub Keyed : List (Str × A) → Type 0
  Keyed = All (λ e. e.0 ≡ key e.1)

  insert-Keyed : (x : A) (m : List (Str × A)) → Keyed m → Keyed (insert (key x) x m)
  unfolding insert
  insert-Keyed x [] h = (refl, tt)
  insert-Keyed x ((j, w) ∷ m) h = elim (Bool-cases (str_eq j (key x))) [
    | inl e ↦ rw e (refl, h.1)
    | inr e ↦ rw e (h.0, insert-Keyed x m h.1)
  ]

  pub index_by-Keyed : (xs : List A) (m : List (Str × A)) → Keyed m → Keyed (index_by key xs m)
  unfolding index_by
  index_by-Keyed [] m h = h
  index_by-Keyed (x ∷ xs) m h = index_by-Keyed xs (insert (key x) x m) (insert-Keyed x m h)

  delete-Keyed : (k : Str) (m : List (Str × A)) → Keyed m → Keyed (delete k m)
  unfolding delete
  delete-Keyed k [] h = tt
  delete-Keyed k ((j, w) ∷ m) h = elim (Bool-cases (str_eq j k)) [
    | inl e ↦ rw e (delete-Keyed k m h.1)
    | inr e ↦ rw e (h.0, delete-Keyed k m h.1)
  ]

  pub walk-Keyed : (xs : List A) (m : List (Str × A)) → Keyed m → Keyed (walk key m xs).1
  unfolding walk
  walk-Keyed [] m h = h
  walk-Keyed (x ∷ xs) m h = walk-Keyed xs (delete (key x) m) (delete-Keyed (key x) m h)
