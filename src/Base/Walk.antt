-- ===== src/Base/Walk.antt =====
-- The loop with which two keyed lists are compared: the old list is put in a map, and each new
-- element looks its key up there and deletes it; what is left in the map has no new counterpart.
use Prim.Native.Nat.{ℕ, suc, ◌+◌}
use mathlib.Core.Path.{◌≡◌, refl, ap}
use mathlib.Core.Bool.{Bool, true, false}
use mathlib.Core.Option.{Option, none, some}
use mathlib.Core.List.{List, [], ◌∷◌}
use native.Mathlib.Omega.{arith}
use veritix.Base.Tests.{if◌then◌else◌}
use veritix.Base.Lists.{length, All}
use veritix.Base.Text.{Str, str_eq, str_eq_iff}
use veritix.Base.Dict.{
  lookup, insert, delete, lookup-insert, lookup-delete, IsProper, insert-IsProper, delete-IsProper,
  length-delete, length-insert_new, found,
}

module _ {A : Type 0} where
  -- Whether an element has a key.
  abbrev pub has_key : (A → Str) → Str → List A → Bool
  has_key key k [] = false
  has_key key k (x ∷ xs) = if str_eq (key x) k then true else has_key key k xs

  abbrev pub DistinctBy : (A → Str) → List A → Type 0
  DistinctBy key [] = Unit
  DistinctBy key (x ∷ xs) = (has_key key (key x) xs ≡ false) × DistinctBy key xs

  -- The first element with a key.
  abbrev pub find_by : (A → Str) → Str → List A → Option A
  find_by key k [] = none
  find_by key k (x ∷ xs) = if str_eq (key x) k then some x else find_by key k xs

  -- `for _, x := range xs { m[x.key] = x }`
  unfoldable pub index_by : (A → Str) → List A → List (Str × A) → List (Str × A)
  index_by key [] m = m
  index_by key (x ∷ xs) m = index_by key xs (insert (key x) x m)

  abbrev or_else : Option A → Option A → Option A
  or_else none b = b
  or_else (some a) b = some a

  pub index_by-IsProper :
      (key : A → Str) (xs : List A) (m : List (Str × A)) → IsProper m → IsProper (index_by key xs m)
  unfolding index_by
  index_by-IsProper key [] m h = h
  index_by-IsProper key (x ∷ xs) m h =
      index_by-IsProper key xs (insert (key x) x m) (insert-IsProper (key x) x m h)

  abbrev pub is_some : Option A → Bool
  is_some none = false
  is_some (some x) = true

  pub has_key-find_by :
      (key : A → Str) (k : Str) (xs : List A) → has_key key k xs ≡ is_some (find_by key k xs)
  has_key-find_by key k [] = refl
  has_key-find_by key k (x ∷ xs) = ground (arith, has_key-find_by key k xs)

  find_absent :
      (key : A → Str) (k : Str) (xs : List A) → has_key key k xs ≡ false → find_by key k xs ≡ none
  find_absent key k [] h = refl
  find_absent key k (x ∷ xs) h = ground (arith, find_absent key k xs)

  lookup-index_by_from :
      (key : A → Str) (xs : List A) (m : List (Str × A)) (k : Str)
      → DistinctBy key xs
      → lookup k (index_by key xs m) ≡ or_else (find_by key k xs) (lookup k m)
  unfolding index_by
  lookup-index_by_from key [] m k d = refl
  lookup-index_by_from key (x ∷ xs) m k d = ground (
    arith,
    lookup-index_by_from key xs (insert (key x) x m) k d.1,
    lookup-insert (key x) k x m,
    str_eq_iff (key x) k,
    find_absent key (key x) xs d.0,
  )

  -- Of elements with distinct keys the map gives the one with a key.
  pub lookup-index_by :
      (key : A → Str) (xs : List A) (k : Str)
      → DistinctBy key xs
      → lookup k (index_by key xs []) ≡ find_by key k xs
  unfolding lookup
  lookup-index_by key xs k d = ground (arith, lookup-index_by_from key xs [] k d)

  absent_insert :
      (key : A → Str) (k : Str) (v : A) (m : List (Str × A)) (xs : List A)
      → has_key key k xs ≡ false
      → All (λ x. lookup (key x) m ≡ none) xs
      → All (λ x. lookup (key x) (insert k v m) ≡ none) xs
  absent_insert key k v m [] h a = tt
  absent_insert key k v m (x ∷ xs) h a = (
    ground (arith, lookup-insert k (key x) v m, str_eq_iff k (key x), str_eq_iff (key x) k, a.0),
    absent_insert key k v m xs (ground arith) a.1,
  )

  length-index_by_from :
      (key : A → Str) (xs : List A) (m : List (Str × A))
      → DistinctBy key xs
      → All (λ x. lookup (key x) m ≡ none) xs
      → length (index_by key xs m) ≡ length xs + length m
  unfolding index_by
  length-index_by_from key [] m d a = omega arith
  length-index_by_from key (x ∷ xs) m d a = omega (
    arith,
    length-index_by_from key xs (insert (key x) x m) d.1 (absent_insert key (key x) x m xs d.0 a.1),
    length-insert_new (key x) x m a.0,
  )

  none_absent : (key : A → Str) (xs : List A) → All (λ x. lookup {V = A} (key x) [] ≡ none) xs
  unfolding lookup
  none_absent key [] = tt
  none_absent key (x ∷ xs) = (refl, none_absent key xs)

  pub length-index_by :
      (key : A → Str) (xs : List A) → DistinctBy key xs → length (index_by key xs []) ≡ length xs
  length-index_by key xs d = omega (arith, length-index_by_from key xs [] d (none_absent key xs))

module _ {A B : Type 0} where
  -- Each new element with the old one of its key, and the old ones that are left.
  unfoldable pub walk : (A → Str) → List (Str × B) → List A → List (Option B × A) × List (Str × B)
  walk key old [] = ([], old)
  walk key old (x ∷ xs) =
      let (pairs, rest) = walk key (delete (key x) old) xs in
      ((lookup (key x) old, x) ∷ pairs, rest)

  -- How many of the pairs have an old element.
  abbrev pub matched : List (Option B × A) → ℕ
  matched [] = 0
  matched ((o, x) ∷ ps) = found o + matched ps

  pub walk-IsProper :
      (key : A → Str) (old : List (Str × B)) (xs : List A)
      → IsProper old
      → IsProper (walk key old xs).1
  unfolding walk
  walk-IsProper key old [] h = h
  walk-IsProper key old (x ∷ xs) h =
      walk-IsProper key (delete (key x) old) xs (delete-IsProper (key x) old h)

  -- Every old element is matched or left.
  pub matched-walk :
      (key : A → Str) (old : List (Str × B)) (xs : List A)
      → IsProper old
      → matched (walk key old xs).0 + length (walk key old xs).1 ≡ length old
  unfolding walk
  matched-walk key old [] h = omega arith
  matched-walk key old (x ∷ xs) h = omega (
    arith,
    matched-walk key (delete (key x) old) xs (delete-IsProper (key x) old h),
    length-delete (key x) old h,
  )

  pub length-walk :
      (key : A → Str) (old : List (Str × B)) (xs : List A) → length (walk key old xs).0 ≡ length xs
  unfolding walk
  length-walk key old [] = refl
  length-walk key old (x ∷ xs) = ap suc (length-walk key (delete (key x) old) xs)

  -- What is left is what no new element has the key of.
  pub lookup-walk :
      (key : A → Str) (old : List (Str × B)) (xs : List A) (k : Str)
      → lookup k (walk key old xs).1 ≡ (if has_key key k xs then none else lookup k old)
  unfolding walk
  lookup-walk key old [] k = refl
  lookup-walk key old (x ∷ xs) k = ground (
    arith,
    lookup-walk key (delete (key x) old) xs k,
    lookup-delete (key x) k old,
    str_eq_iff (key x) k,
  )

  -- An element is paired with the old one of its key, if there is one.
  abbrev pub PairedIn : (A → Str) → List (Str × B) → Option B × A → Type 0
  PairedIn key old (o, x) = o ≡ lookup (key x) old

  agree_delete :
      (key : A → Str) (k : Str) (old now : List (Str × B)) (xs : List A)
      → has_key key k xs ≡ false
      → All (λ x. lookup (key x) now ≡ lookup (key x) old) xs
      → All (λ x. lookup (key x) (delete k now) ≡ lookup (key x) old) xs
  agree_delete key k old now [] h a = tt
  agree_delete key k old now (x ∷ xs) h a = (
    ground (arith, lookup-delete k (key x) now, str_eq_iff k (key x), str_eq_iff (key x) k, a.0),
    agree_delete key k old now xs (ground arith) a.1,
  )

  walk_paired_from :
      (key : A → Str) (old now : List (Str × B)) (xs : List A)
      → DistinctBy key xs
      → All (λ x. lookup (key x) now ≡ lookup (key x) old) xs
      → All (PairedIn key old) (walk key now xs).0
  unfolding walk
  walk_paired_from key old now [] d a = tt
  walk_paired_from key old now (x ∷ xs) d a = (
    a.0,
    walk_paired_from key old (delete (key x) now) xs d.1
        (agree_delete key (key x) old now xs d.0 a.1),
  )

  agree_self :
      (key : A → Str) (old : List (Str × B)) (xs : List A)
      → All (λ x. lookup (key x) old ≡ lookup (key x) old) xs
  agree_self key old [] = tt
  agree_self key old (x ∷ xs) = (refl, agree_self key old xs)

  -- With distinct keys every new element is paired with the old one of its key.
  pub walk_paired :
      (key : A → Str) (old : List (Str × B)) (xs : List A)
      → DistinctBy key xs
      → All (PairedIn key old) (walk key old xs).0
  walk_paired key old xs d = walk_paired_from key old old xs d (agree_self key old xs)
