-- ===== src/Redact/Ledger.antt =====
-- internal/agent/redact/redact.go: what the counters and the length limits promise.
use veritix.Base.{
  ℕ, suc, ◌+◌, ◌≤◌, ◌≡◌, arith, true, false, List, [], ◌∷◌, Str, length, length-append, length-take,
  take, if◌then◌else◌, All, Bool-cases, ltb, inl, inr, refl, subst, ◌∙◌,
}
use veritix.Base.Int.{ℤ, pos_part}
use veritix.Base.Unicode.{Unicode}
use veritix.Redact.Shape.{Patterns, shape, mask, mark}
use veritix.Redact.Guard.{
  Policy, Guard, Stats, Text, cut, shape_text, allowed_text, value, values, ellipsis,
}

-- Values that the guard has handled, whichever way they left.
abbrev pub handled : Stats → ℕ
handled s = s.shaped + s.masked + s.passed

length-cut : (n : ℤ) (s : Str) → length (cut n s).0 ≤ pos_part n + 3
unfolding cut
length-cut n s = elim (Bool-cases (ltb (pos_part n) (length s))) [
  | inl e ↦ rw e (
      omega
        (arith, length-append {0} (take (pos_part n) s) ellipsis, length-take {0} (pos_part n) s))
  | inr e ↦ rw e (ground arith)
]

length-mark : (s : Str) → length (mark s) ≡ length s + 6
unfolding mark
length-mark s = ground (arith, length-append {0} s (226 ∷ 159 ∷ 169 ∷ []))

module _ (u : Unicode) (p : Patterns) where
  -- The most bytes that a value may leave as.
  abbrev pub limit : Policy → ℕ
  limit q = if q.allow_values then pos_part q.max_value_len + 3 else pos_part q.max_shape_len + 9

  -- One cleared text: one more value counted, the policy kept, the text within a bound.
  abbrev Cleared : Guard → ℕ → Text × Guard → Type 0
  Cleared g n r =
      (handled r.1.stats ≡ suc (handled g.stats)) × (r.1.policy ≡ g.policy) × (length r.0.s ≤ n)

  shape_text-Cleared :
      (g : Guard) (v : Str) → Cleared g (pos_part g.policy.max_shape_len + 9) (shape_text u g v)
  unfolding shape_text
  shape_text-Cleared g v = (
    omega arith,
    refl,
    omega (
      arith,
      length-mark (cut g.policy.max_shape_len (shape u v)).0,
      length-cut g.policy.max_shape_len (shape u v),
    ),
  )

  allowed_text-Cleared :
      (g : Guard) (v : Str) → Cleared g (pos_part g.policy.max_value_len + 3) (allowed_text p g v)
  unfolding allowed_text
  allowed_text-Cleared g v =
      (ground arith, refl, omega (arith, length-cut g.policy.max_value_len (mask p v).0))

  value-Cleared : (g : Guard) (v : Str) → Cleared g (limit g.policy) (value u p g v)
  unfolding value
  value-Cleared g v =
      elim g.policy.allow_values
        as (λ b.
          Cleared g
            (if b then pos_part g.policy.max_value_len + 3 else pos_part g.policy.max_shape_len + 9)
            (if b then allowed_text p g v else shape_text u g v)) [
              | true ↦ allowed_text-Cleared g v
              | false ↦ shape_text-Cleared g v
            ]

  -- The guard accounts for every value: `Values` clears as many texts as it is given values, each
  -- within the limit of the policy, counts as many, and leaves the policy alone.
  pub values_lem :
      (g : Guard) (vs : List Str)
      → (length (values u p g vs).0 ≡ length vs)
        × (handled (values u p g vs).1.stats ≡ handled g.stats + length vs)
        × All (λ t. length t.s ≤ limit g.policy) (values u p g vs).0
        × ((values u p g vs).1.policy ≡ g.policy)
  unfolding values
  values_lem g [] = (refl, omega arith, tt, refl)
  values_lem g (v ∷ vs) =
      let (count, same, bound) = value-Cleared g v in
      let (size, counts, bounds, kept) = values_lem (value u p g v).1 vs in
      (
        omega (arith, size),
        omega (arith, counts, count),
        (
          bound,
          subst (λ q. All (λ t. length t.s ≤ limit q) (values u p (value u p g v).1 vs).0) same
              bounds,
        ),
        kept ∙ same,
      )
