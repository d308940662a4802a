-- ===== src/Finding/Verify.antt =====
-- internal/finding/finding.go: what `Verify` keeps, drops and changes, and that it settles.
use veritix.Base.{
  ℕ, suc, ◌+◌, ◌≡◌, ◌≢◌, ◌⊎◌, inl, inr, refl, ap, ◌∙◌, arith, true, Option, none, some, List, [],
  ◌∷◌, length, Str, All, str_eq, str_eq_iff, Bool-cases, Option-cases, not, ◌&&◌,
}
use veritix.Base.Int.{ℤ, pos, eqb_ℤ, eqb_ℤ_iff}
use veritix.Base.Dict.{lookup, insert, lookup-insert}
use veritix.Finding.Model.{Finding, key}
use veritix.Finding.Set
use veritix.Finding.Set.{FindingSet, Verdict, kept, dropped, verify, reindex}
use veritix.Finding.Merge.{position, DistinctKeys, Inv}

-- A map built from position `i` on answers with the positions in the list, which start at `i`.
shift : ℕ → Option ℕ → Option ℕ
shift i none = none
shift i (some j) = some (i + j)

or_else : Option ℕ → Option ℕ → Option ℕ
or_else none b = b
or_else (some a) b = some a

reindex_from-lookup :
    (i : ℕ) (xs : List Finding) (m : List (Str × ℕ)) (k : Str)
    → DistinctKeys xs
    → lookup k (Set.reindex_from i xs m) ≡ or_else (shift i (position k xs)) (lookup k m)
unfolding Set.reindex_from position shift or_else
reindex_from-lookup i [] m k d = refl
reindex_from-lookup i (f ∷ fs) m k d = ground (
  arith,
  reindex_from-lookup (suc i) fs (insert (key f) i m) k d.1,
  d.0,
  lookup-insert (key f) k i m,
  str_eq_iff (key f) k,
)

-- A fresh index of findings with distinct keys is right.
pub reindex-Inv : (xs : List Finding) → DistinctKeys xs → Inv (reindex xs)
unfolding reindex lookup shift or_else
reindex-Inv xs d = record {
  indexed = λ k. ground (arith, reindex_from-lookup 0 xs [] k d);
  distinct = d;
}

module _ (scan_one : Str → Option ℤ) where
  -- What the engine says of a finding: it has no query, or its query returns this number.
  abbrev pub Reproduces : Finding → Type 0
  Reproduces f =
      (f.evidence.count_query ≡ [])
      ⊎ ((scan_one f.evidence.count_query ≡ some f.count) × (f.verified ≡ true))

  -- A dropped finding has a query, which failed, or returned 0.
  abbrev pub Refuted : Finding → Type 0
  Refuted f =
      (f.evidence.count_query ≢ [])
      × ((scan_one f.evidence.count_query ≡ none)
          ⊎ (scan_one f.evidence.count_query ≡ some (pos 0)))

  -- The finding that a verdict carries, and what the verdict says of it.
  abbrev Right : Finding → Verdict → Type 0
  Right f (kept g) = (key g ≡ key f) × Reproduces g
  Right f (dropped g) = (key g ≡ key f) × Refuted g

  measured-Right :
      (f : Finding) (got : ℤ)
      → f.evidence.count_query ≢ []
      → scan_one f.evidence.count_query ≡ some got
      → Right f (Set.measured f got)
  unfolding Set.measured key
  measured-Right f got n e = elim (Bool-cases (not (eqb_ℤ got f.count) && eqb_ℤ got (pos 0))) [
    | inl t ↦ rw t (refl, (n, inr (e ∙ ap some (ground arith))))
    | inr t ↦ rw t (refl, inr (e, refl))
  ]

  verify_one-Right : (f : Finding) → Right f (Set.verify_one scan_one f)
  unfolding Set.verify_one key
  verify_one-Right f = elim (Bool-cases (str_eq f.evidence.count_query [])) [
    | inl e ↦ rw e (refl, inl ((str_eq_iff f.evidence.count_query []).0 e))
    | inr e ↦ rw e (asked (λ q. cc ((str_eq_iff f.evidence.count_query []).1 q)))
  ]
    where
      asked :
          f.evidence.count_query ≢ [] → Right f (Set.answered f (scan_one f.evidence.count_query))
      asked n = elim (Option-cases (scan_one f.evidence.count_query)) [
        | inl e ↦ rw e (refl, (n, inl e))
        | inr (got, e) ↦ rw e (measured-Right f got n e)
      ]

  -- What the loop has established of the findings that it kept and dropped.
  record Sifted (xs : List Finding) (r : List Finding × List Finding) : Type 0 where
    reproduces : All Reproduces r.0
    refuted : All Refuted r.1
    partition : length r.0 + length r.1 ≡ length xs
    fresh : (k : Str) → position k xs ≡ none → position k r.0 ≡ none
    distinct : DistinctKeys xs → DistinctKeys r.0

  put-Sifted :
      (f : Finding) (xs : List Finding) (r : List Finding × List Finding) (v : Verdict)
      → Right f v
      → Sifted xs r
      → Sifted (f ∷ xs) (Set.put scan_one v r)
  unfolding Set.put position
  put-Sifted f xs (ks, ds) (kept g) h s = record {
    reproduces = (h.1, s.reproduces);
    refuted = s.refuted;
    partition = omega (arith, s.partition);
    fresh = λ k. ground (arith, s.fresh k, h.0);
    distinct = λ d. (rw h.0 (s.fresh (key f) d.0), s.distinct d.1);
  }
  put-Sifted f xs (ks, ds) (dropped g) h s = record {
    reproduces = s.reproduces;
    refuted = (h.1, s.refuted);
    partition = omega (arith, s.partition);
    fresh = λ k. ground (arith, s.fresh k);
    distinct = λ d. s.distinct d.1;
  }

  verify_loop-Sifted : (xs : List Finding) → Sifted xs (Set.verify_loop scan_one xs)
  unfolding Set.verify_loop
  verify_loop-Sifted [] = record {
    reproduces = tt;
    refuted = tt;
    partition = omega arith;
    fresh = λ k h. h;
    distinct = λ d. d;
  }
  verify_loop-Sifted (f ∷ fs) =
      put-Sifted f fs (Set.verify_loop scan_one fs) (Set.verify_one scan_one f) (verify_one-Right f)
        (verify_loop-Sifted fs)

  -- After `Verify` on a well-formed set: the set is well-formed; every finding left has no query or
  -- carries the number that the engine returned and is marked; every finding dropped has a query
  -- that failed or returned 0; and every finding is in one of the two lists.
  pub verify_lem :
      (s : FindingSet)
      → Inv s
      → Inv (verify scan_one s).0
        × All Reproduces (verify scan_one s).0.items
        × All Refuted (verify scan_one s).1
        × (length (verify scan_one s).0.items + length (verify scan_one s).1 ≡ length s.items)
  unfolding verify reindex
  verify_lem s v =
      let h = verify_loop-Sifted s.items in
      (
        reindex-Inv (Set.verify_loop scan_one s.items).0 (h.distinct v.distinct),
        h.reproduces,
        h.refuted,
        h.partition,
      )

  verify_one-Reproduces : (f : Finding) → Reproduces f → Set.verify_one scan_one f ≡ kept f
  unfolding Set.verify_one Set.answered Set.measured
  verify_one-Reproduces f (inl e) = rw ((str_eq_iff f.evidence.count_query []).1 e) refl
  verify_one-Reproduces f (inr (e, m)) = ground (arith, eqb_ℤ_iff f.count f.count)

  verify_loop-Reproduces :
      (xs : List Finding) → All Reproduces xs → Set.verify_loop scan_one xs ≡ (xs, [])
  unfolding Set.verify_loop Set.put
  verify_loop-Reproduces [] h = refl
  verify_loop-Reproduces (f ∷ fs) h =
      rw (verify_one-Reproduces f h.0, verify_loop-Reproduces fs h.1)

  -- `Verify` settles: run again over the same data, it drops nothing and changes nothing.
  pub verify_idempotent :
      (s : FindingSet) → verify scan_one (verify scan_one s).0 ≡ ((verify scan_one s).0, [])
  unfolding verify reindex
  verify_idempotent s = rw (
      verify_loop-Reproduces (Set.verify_loop scan_one s.items).0
        (verify_loop-Sifted s.items).reproduces)
