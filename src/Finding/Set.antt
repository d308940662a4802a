-- ===== src/Finding/Set.antt =====
-- internal/finding/finding.go: `Set`. `seen` maps a key to the index of its finding; the nil map
-- that `Add` replaces reads as an empty one. `Verify` asks the engine through a parameter.
use veritix.Base.{
  ℕ, suc, Bool, true, false, not, ◌&&◌, Option, none, some, List, [], ◌∷◌, ◌++◌, Str, str_eq,
  str_lt, ltb, ◌==◌, if◌then◌else◌, length, get_elem?, set,
}
use veritix.Base.Int.{ℤ, pos, eqb_ℤ}
use veritix.Base.Dict.{lookup, insert}
use veritix.Base.Sort.{sort_by}
use veritix.Finding.Severity.{Severity, info, rank}
use veritix.Finding.Model.{Finding, key}

pub record FindingSet : Type 0 where
  pub items : List Finding
  pub seen : List (Str × ℕ)

unfoldable pub new_set : FindingSet
new_set = record { items = []; seen = [] }

-- f.Severity > g.Severity
unfoldable pub more_severe : Finding → Finding → Bool
unfolding rank
more_severe f g = ltb (rank g.severity) (rank f.severity)

-- `s.items[i]` for the index that `seen` gave; `none` is the panic of an index out of range.
unfoldable pub add_at : Option ℕ → Str → Finding → FindingSet → Option FindingSet
add_at none k f s =
    some (record { items = s.items ++ f ∷ []; seen = insert k (length s.items) s.seen })
add_at (some i) k f s = elim (get_elem? s.items i) [
  | none ↦ none
  | some g ↦ some (if more_severe f g then record s { items = set s.items i f } else s)
]

unfoldable pub add : Finding → FindingSet → Option FindingSet
unfolding add_at more_severe key
add f s = add_at (lookup (key f) s.seen) (key f) f s

unfoldable pub add_all : List Finding → FindingSet → Option FindingSet
add_all [] s = some s
add_all (f ∷ fs) s = elim (add f s) [ none ↦ none | some s' ↦ add_all fs s' ]

-- The comparison of `All`: most severe first, then display, column and rule.
unfoldable pub report_less : Finding → Finding → Bool
unfolding rank
report_less a b =
    if not (rank a.severity == rank b.severity)
    then ltb (rank b.severity) (rank a.severity)
    else if not (str_eq a.location.display b.location.display)
    then str_lt a.location.display b.location.display
    else if not (str_eq a.location.column b.location.column)
    then str_lt a.location.column b.location.column
    else str_lt a.rule b.rule

unfoldable pub all : FindingSet → List Finding
all s = sort_by report_less s.items

-- `m[f.Severity]++` over the items; the map is a function that is 0 on absent keys.
unfoldable pub bump : Severity → (Severity → ℕ) → Severity → ℕ
bump v m w = if rank v == rank w then suc (m w) else m w

unfoldable pub count_loop : List Finding → (Severity → ℕ) → Severity → ℕ
count_loop [] m = m
count_loop (f ∷ fs) m = count_loop fs (bump f.severity m)

unfoldable pub counts : FindingSet → Severity → ℕ
unfolding count_loop bump rank
counts s = count_loop s.items (λ _. 0)

unfoldable pub max_loop : List Finding → Severity → Severity
max_loop [] worst = worst
max_loop (f ∷ fs) worst =
    max_loop fs (if ltb (rank worst) (rank f.severity) then f.severity else worst)

unfoldable pub max_of : List Finding → Severity × Bool
max_of [] = (info, false)
max_of (f ∷ fs) = (max_loop (f ∷ fs) info, true)

-- The highest severity, and whether there were any findings.
unfoldable pub max : FindingSet → Severity × Bool
unfolding max_of max_loop rank
max s = max_of s.items

unfoldable pub reindex_from : ℕ → List Finding → List (Str × ℕ) → List (Str × ℕ)
reindex_from i [] m = m
reindex_from i (f ∷ fs) m = reindex_from (suc i) fs (insert (key f) i m)

unfoldable pub reindex : List Finding → FindingSet
unfolding reindex_from key
reindex xs = record { items = xs; seen = reindex_from 0 xs [] }

-- What one pass of the loop of `Verify` does with a finding: keep it or drop it, as changed.
pub data Verdict : Type 0 where
  kept dropped : Finding → Verdict

-- The engine returned a number: when it disagrees, it is trusted, and a 0 drops the finding.
unfoldable pub measured : Finding → ℤ → Verdict
measured f got =
    if not (eqb_ℤ got f.count) && eqb_ℤ got (pos 0)
    then dropped (record f { count = got })
    else kept (record f { count = got; verified = true })

-- The engine answered; `none` is an error of the query.
unfoldable pub answered : Finding → Option ℤ → Verdict
unfolding measured
answered f none = dropped (record f { verified = false })
answered f (some got) = measured f got

module _ (scan_one : Str → Option ℤ) where
  unfoldable pub verify_one : Finding → Verdict
  unfolding answered
  verify_one f =
      if str_eq f.evidence.count_query []
      then kept f
      else answered f (scan_one f.evidence.count_query)

  unfoldable pub put : Verdict → List Finding × List Finding → List Finding × List Finding
  put (kept f) (ks, ds) = (f ∷ ks, ds)
  put (dropped f) (ks, ds) = (ks, f ∷ ds)

  unfoldable pub verify_loop : List Finding → List Finding × List Finding
  verify_loop [] = ([], [])
  verify_loop (f ∷ fs) = put (verify_one f) (verify_loop fs)

  -- The set after the call, and the findings that were dropped.
  unfoldable pub verify : FindingSet → FindingSet × List Finding
  unfolding verify_loop put verify_one reindex
  verify s = let (ks, ds) = verify_loop s.items in (reindex ks, ds)
