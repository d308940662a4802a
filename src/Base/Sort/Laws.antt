-- ===== src/Base/Sort/Laws.antt =====
-- The sort permutes its input, puts it in order, and keeps equivalent elements in place.
use mathlib.Core.Path.{◌≡◌, refl, ap, ◌∙◌}
use mathlib.Core.Bool.{Bool, true, false}
use mathlib.Core.Logic.{inl, inr}
use mathlib.Core.List.{List, [], ◌∷◌, Perm}
use mathlib.Core.List.Perm
use native.Mathlib.Omega.{arith}
use veritix.Base.Tests.{if◌then◌else◌, Bool-cases}
use veritix.Base.Lists.{All, keep}
use veritix.Base.Sort.Defs.{insert_by, sort_by, InOrder, IsWeakOrder}

module _ {ℓ} {A : Type ℓ} (less : A → A → Bool) where
  insert_by-perm : (x : A) (ys : List A) → Perm (insert_by less x ys) (x ∷ ys)
  unfolding insert_by
  insert_by-perm x [] = Perm.refl (x ∷ [])
  insert_by-perm x (y ∷ ys) = elim (Bool-cases (less y x)) [
    | inl e ↦ rw e (Perm.trans (Perm.cons y (insert_by-perm x ys)) (Perm.swap x y ys))
    | inr e ↦ rw e (Perm.refl (x ∷ y ∷ ys))
  ]

  -- Nothing is lost and nothing is added.
  pub sort_by-perm : (xs : List A) → Perm (sort_by less xs) xs
  unfolding sort_by
  sort_by-perm [] = Perm.refl []
  sort_by-perm (x ∷ xs) =
      Perm.trans (insert_by-perm x (sort_by less xs)) (Perm.cons x (sort_by-perm xs))

  insert_by-All {κ} :
      (P : A → Type κ) (x : A) (ys : List A) → P x → All P ys → All P (insert_by less x ys)
  unfolding insert_by
  insert_by-All P x [] px h = (px, tt)
  insert_by-All P x (y ∷ ys) px h = elim (Bool-cases (less y x)) [
    | inl e ↦ rw e (h.0, insert_by-All P x ys px h.1)
    | inr e ↦ rw e (px, (h.0, h.1))
  ]

  pub sort_by-All {κ} : (P : A → Type κ) (xs : List A) → All P xs → All P (sort_by less xs)
  unfolding sort_by
  sort_by-All P [] h = tt
  sort_by-All P (x ∷ xs) h = insert_by-All P x (sort_by less xs) h.0 (sort_by-All P xs h.1)

module _ {ℓ} {A : Type ℓ} (P : A → Type 0) (less : A → A → Bool) (o : IsWeakOrder P less) where
  -- Above the head of an ordered list lies all of it.
  above :
      (x y : A) (ys : List A)
      → P x
      → P y
      → All P ys
      → less y x ≡ false
      → All (λ z. less z y ≡ false) ys
      → All (λ z. less z x ≡ false) ys
  above x y [] px py h e hy = tt
  above x y (z ∷ ys) px py h e hy =
      (o.neg_trans z y x h.0 py px hy.0 e, above x y ys px py h.1 e hy.1)

  insert_by-InOrder :
      (x : A) (ys : List A) → P x → All P ys → InOrder less ys → InOrder less (insert_by less x ys)
  unfolding insert_by
  insert_by-InOrder x [] px h s = (tt, tt)
  insert_by-InOrder x (y ∷ ys) px h s = elim (Bool-cases (less y x)) [
    | inl e ↦ rw e (
      insert_by-All less (λ z. less z y ≡ false) x ys (o.asym y x h.0 px e) s.0,
      insert_by-InOrder x ys px h.1 s.1,
    )
    | inr e ↦ rw e ((e, above x y ys px h.0 h.1 e s.0), (s.0, s.1))
  ]

  -- The result is in order.
  pub sort_by-InOrder : (xs : List A) → All P xs → InOrder less (sort_by less xs)
  unfolding sort_by
  sort_by-InOrder [] h = tt
  sort_by-InOrder (x ∷ xs) h =
      insert_by-InOrder x (sort_by less xs) h.0 (sort_by-All less P xs h.1) (sort_by-InOrder xs h.1)

-- A class of elements, none of which is less than another, keeps its order.
module _ {ℓ} {A : Type ℓ} (less : A → A → Bool) (p : A → Bool)
    (flat : (a b : A) → p a ≡ true → p b ≡ true → less a b ≡ false) where
  insert_by-keep : (x : A) (ys : List A) → keep p (insert_by less x ys) ≡ keep p (x ∷ ys)
  unfolding insert_by
  insert_by-keep x [] = refl
  insert_by-keep x (y ∷ ys) = ground (arith, insert_by-keep x ys, flat y x)

  pub sort_by-keep : (xs : List A) → keep p (sort_by less xs) ≡ keep p xs
  unfolding sort_by
  sort_by-keep [] = refl
  sort_by-keep (x ∷ xs) =
      insert_by-keep x (sort_by less xs)
      ∙ ap (λ rest. if p x then x ∷ rest else rest) (sort_by-keep xs)
