-- ===== src/Store/Rows.antt =====
-- Rows with keys, as a table is extended and thinned out.
use veritix.Base.{
  ◌≡◌, refl, arith, Bool, true, false, not, ◌||◌, List, [], ◌∷◌, ◌++◌, Str, str_eq, str_eq_iff,
  if◌then◌else◌, keep, All,
}
use veritix.Base.Walk.{has_key, DistinctBy}

module _ {A : Type 0} (key : A → Str) where
  pub has_key-append :
      (k : Str) (xs ys : List A) → has_key key k (xs ++ ys) ≡ (has_key key k xs || has_key key k ys)
  has_key-append k [] ys = refl
  has_key-append k (x ∷ xs) ys = ground (arith, has_key-append k xs ys)

  pub distinct_snoc :
      (xs : List A) (x : A)
      → DistinctBy key xs
      → has_key key (key x) xs ≡ false
      → DistinctBy key (xs ++ x ∷ [])
  distinct_snoc [] x d h = (refl, tt)
  distinct_snoc (y ∷ xs) x d h = (
    ground (
      arith,
      has_key-append (key y) xs (x ∷ []),
      d.0,
      h,
      str_eq_iff (key x) (key y),
      str_eq_iff (key y) (key x),
    ),
    distinct_snoc xs x d.1 (ground (arith, h)),
  )

  pub absent_keep :
      (p : A → Bool) (k : Str) (xs : List A)
      → has_key key k xs ≡ false
      → has_key key k (keep p xs) ≡ false
  absent_keep p k [] h = refl
  absent_keep p k (x ∷ xs) h = ground (arith, h, absent_keep p k xs)

  pub distinct_keep : (p : A → Bool) (xs : List A) → DistinctBy key xs → DistinctBy key (keep p xs)
  distinct_keep p [] d = tt
  distinct_keep p (x ∷ xs) d =
      elim (p x) as (λ b. DistinctBy key (if b then x ∷ keep p xs else keep p xs)) [
        | true ↦ (absent_keep p (key x) xs d.0, distinct_keep p xs d.1)
        | false ↦ distinct_keep p xs d.1
      ]

  -- What is not under a deleted key stays.
  pub has_key-delete :
      (gone k : Str) (xs : List A)
      → has_key key k xs ≡ true
      → str_eq k gone ≡ false
      → has_key key k (keep (λ x. not (str_eq (key x) gone)) xs) ≡ true
  has_key-delete gone k [] h n = h
  has_key-delete gone k (x ∷ xs) h n = ground (
    arith,
    h,
    n,
    has_key-delete gone k xs,
    str_eq_iff (key x) k,
    str_eq_iff (key x) gone,
    str_eq_iff k gone,
  )

  pub absent_differs :
      (k : Str) (xs : List A) → has_key key k xs ≡ false → All (λ x. str_eq k (key x) ≡ false) xs
  absent_differs k [] h = tt
  absent_differs k (x ∷ xs) h = (
    ground (arith, h, str_eq_iff (key x) k, str_eq_iff k (key x)),
    absent_differs k xs (ground (arith, h)),
  )

module _ {A : Type 0} where
  -- Each row that a test keeps passes it.
  pub All-kept : (p : A → Bool) (xs : List A) → All (λ x. p x ≡ true) (keep p xs)
  All-kept p [] = tt
  All-kept p (x ∷ xs) = ground (arith, All-kept p xs)

  pub All-both :
      {P Q R : A → Type 0}
      → ((a : A) → P a → Q a → R a)
      → (xs : List A) → All P xs
      → All Q xs
      → All R xs
  All-both f [] p q = tt
  All-both f (x ∷ xs) p q = (f x p.0 q.0, All-both f xs p.1 q.1)
