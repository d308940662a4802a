-- ===== src/Base/SelfWalk.antt =====
-- The comparing loop on a list and itself: every element is paired with itself, nothing is left.
use mathlib.Core.Path.{◌≡◌, refl, ap, ◌∙◌}
use mathlib.Core.Bool.{false}
use mathlib.Core.Option.{Option, some}
use mathlib.Core.List.{List, [], ◌∷◌, map}
use native.Mathlib.Omega.{arith}
use veritix.Base.Lists.{length, All}
use veritix.Base.Text.{Str, str_eq_iff}
use veritix.Base.Dict.{lookup, delete, lookup-delete}
use veritix.Base.Walk.{
  has_key, DistinctBy, find_by, index_by, index_by-IsProper, lookup-index_by, length-index_by, walk,
  matched, matched-walk,
}

module _ {A : Type 0} (key : A → Str) where
  abbrev pub twin : A → Option A × A
  twin x = (some x, x)

  InMap : List (Str × A) → A → Type 0
  InMap m x = lookup (key x) m ≡ some x

  in_deleted :
      (k : Str) (m : List (Str × A)) (xs : List A)
      → has_key key k xs ≡ false
      → All (InMap m) xs
      → All (InMap (delete k m)) xs
  unfolding InMap
  in_deleted k m [] h a = tt
  in_deleted k m (x ∷ xs) h a = (
    ground (arith, lookup-delete k (key x) m, str_eq_iff k (key x), str_eq_iff (key x) k, a.0),
    in_deleted k m xs (ground arith) a.1,
  )

  walk_twins :
      (m : List (Str × A)) (xs : List A)
      → DistinctBy key xs
      → All (InMap m) xs
      → (walk key m xs).0 ≡ map twin xs
  unfolding walk InMap
  walk_twins m [] d a = refl
  walk_twins m (x ∷ xs) d a =
      cc (a.0, walk_twins (delete (key x) m) xs d.1 (in_deleted (key x) m xs d.0 a.1))

  Finds : List A → A → Type 0
  Finds xs x = find_by key (key x) xs ≡ some x

  found_below :
      (x : A) (xs ys : List A)
      → has_key key (key x) ys ≡ false
      → All (Finds xs) ys
      → All (Finds (x ∷ xs)) ys
  unfolding Finds
  found_below x xs [] h a = tt
  found_below x xs (y ∷ ys) h a = (
    ground (arith, str_eq_iff (key x) (key y), str_eq_iff (key y) (key x), a.0),
    found_below x xs ys (ground arith) a.1,
  )

  each_found : (xs : List A) → DistinctBy key xs → All (Finds xs) xs
  unfolding Finds
  each_found [] d = tt
  each_found (x ∷ xs) d =
      (ground (arith, str_eq_iff (key x) (key x)), found_below x xs xs d.0 (each_found xs d.1))

  in_index :
      (all xs : List A)
      → DistinctBy key all
      → All (Finds all) xs
      → All (InMap (index_by key all [])) xs
  unfolding Finds InMap
  in_index all [] d a = tt
  in_index all (x ∷ xs) d a = (lookup-index_by key all (key x) d ∙ a.0, in_index all xs d a.1)

  matched_twins : (xs : List A) → matched (map twin xs) ≡ length xs
  matched_twins [] = refl
  matched_twins (x ∷ xs) = omega (arith, matched_twins xs)

  empty : {B : Type 0} (xs : List B) → length xs ≡ 0 → xs ≡ []
  empty [] h = refl
  empty (x ∷ xs) h = absurd (omega arith)

  pub walk_self :
      (xs : List A) → DistinctBy key xs → walk key (index_by key xs []) xs ≡ (map twin xs, [])
  walk_self xs d =
      let old = index_by key xs [] in
      let pairs = walk_twins old xs d (in_index xs xs d (each_found xs d)) in
      let left = empty (walk key old xs).1 (
        omega (
          arith,
          matched-walk key old xs (index_by-IsProper key xs [] tt),
          length-index_by key xs d,
          ap matched pairs,
          matched_twins xs,
        )) in
      cc (pairs, left)
