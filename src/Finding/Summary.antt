-- ===== src/Finding/Summary.antt =====
-- internal/finding/finding.go: what `Counts` and `Max` say of a set.
use veritix.Base.{
  ℕ, ◌+◌, ◌≤◌, ◌≡◌, refl, arith, Bool, false, List, [], ◌∷◌, length, if◌then◌else◌, ◌==◌, ltb,
  count_if, All, ◌<◌, ◌⊎◌, ◌↔◌, inl, inr,
}
use veritix.Finding.Severity.{Severity, info, warning, error, rank}
use veritix.Finding.Model.{Finding}
use veritix.Finding.Set.{FindingSet, counts, max}
use veritix.Finding.Set

-- Whether a finding has the given severity.
abbrev pub has_severity : Severity → Finding → Bool
has_severity v f = rank f.severity == rank v

count_loop_lem :
    (xs : List Finding) (m : Severity → ℕ) (v : Severity)
    → Set.count_loop xs m v ≡ m v + count_if (has_severity v) xs
unfolding Set.count_loop Set.bump
count_loop_lem [] m v = omega arith
count_loop_lem (f ∷ fs) m v = ground (arith, count_loop_lem fs (Set.bump f.severity m) v)

three_kinds :
    (xs : List Finding)
    → count_if (has_severity error) xs
        + count_if (has_severity warning) xs
        + count_if (has_severity info) xs
      ≡ length xs
unfolding rank
three_kinds [] = refl
three_kinds (f ∷ fs) = ground (arith, three_kinds fs)

-- `Counts` gives, for every severity, the number of findings that have it, and the three numbers
-- add up to the size of the set.
pub counts_lem :
    (s : FindingSet) (v : Severity)
    → (counts s v ≡ count_if (has_severity v) s.items)
      × (counts s error + counts s warning + counts s info ≡ length s.items)
unfolding counts
counts_lem s v = (
  omega (arith, count_loop_lem s.items (λ _. 0) v),
  omega (
    arith,
    count_loop_lem s.items (λ _. 0) error,
    count_loop_lem s.items (λ _. 0) warning,
    count_loop_lem s.items (λ _. 0) info,
    three_kinds s.items,
  ),
)

abbrev pub BoundedBy : Severity → List Finding → Type 0
BoundedBy v = All (λ f. rank f.severity ≤ rank v)

max_loop-ge : (xs : List Finding) (w : Severity) → rank w ≤ rank (Set.max_loop xs w)
unfolding Set.max_loop
max_loop-ge [] w = omega arith
max_loop-ge (f ∷ fs) w =
    ground (arith, max_loop-ge fs (if ltb (rank w) (rank f.severity) then f.severity else w))

max_loop-bounds : (xs : List Finding) (w : Severity) → BoundedBy (Set.max_loop xs w) xs
unfolding Set.max_loop
max_loop-bounds [] w = tt
max_loop-bounds (f ∷ fs) w =
    let w' = if ltb (rank w) (rank f.severity) then f.severity else w in
    (ground (arith, max_loop-ge fs w'), max_loop-bounds fs w')

rank_inj : (v w : Severity) → rank v ≡ rank w → v ≡ w
unfolding rank
rank_inj v w h = ground arith

-- Either the result is the severity of a finding, or nothing beat the start.
max_loop-attained :
    (xs : List Finding) (w : Severity)
    → (Set.max_loop xs w ≡ w) ⊎ (0 < count_if (has_severity (Set.max_loop xs w)) xs)
unfolding Set.max_loop
max_loop-attained [] w = inl refl
max_loop-attained (f ∷ fs) w =
    let w' = if ltb (rank w) (rank f.severity) then f.severity else w in
    ground (arith, max_loop-attained fs w', rank_inj w f.severity)

abbrev MaxOf : List Finding → Severity × Bool → Type 0
MaxOf xs r =
    ((r.1 ≡ false) ↔ (xs ≡ []))
    × BoundedBy r.0 xs
    × ((xs ≡ []) ⊎ (0 < count_if (has_severity r.0) xs))

-- If nothing beat the start, `info`, then the first finding has that severity.
max_loop_present :
    (f : Finding) (fs : List Finding)
    → 0 < count_if (has_severity (Set.max_loop (f ∷ fs) info)) (f ∷ fs)
unfolding rank
max_loop_present f fs =
    ground (arith, max_loop-attained (f ∷ fs) info, (max_loop-bounds (f ∷ fs) info).0)

max_of_lem : (xs : List Finding) → MaxOf xs (Set.max_of xs)
unfolding Set.max_of
max_of_lem [] = ((λ _. refl, λ _. refl), tt, inl refl)
max_of_lem (f ∷ fs) =
    ((λ h. cc, λ h. cc), max_loop-bounds (f ∷ fs) info, inr (max_loop_present f fs))

-- `Max` says no finding exactly for the empty set; otherwise no finding is more severe than its
-- answer and some finding has that severity.
pub max_lem :
    (s : FindingSet)
    → (((max s).1 ≡ false) ↔ (s.items ≡ []))
      × BoundedBy (max s).0 s.items
      × ((s.items ≡ []) ⊎ (0 < count_if (has_severity (max s).0) s.items))
unfolding max
max_lem s = max_of_lem s.items
