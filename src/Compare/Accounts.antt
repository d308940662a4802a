-- ===== src/Compare/Accounts.antt =====
-- internal/report/compare.go: the summary of `compareFindings` accounts for every finding.
use mathlib.Core.List.{Perm}
use veritix.Base.{
  ℕ, suc, ◌+◌, ◌≤◌, ◌≡◌, arith, Option, none, some, List, [], ◌∷◌, map, Str, length, length-Perm,
  str_eq_iff, codes,
}
use veritix.Base.Int.{ℤ}
use veritix.Base.Walk.{
  DistinctBy, index_by, index_by-IsProper, length-index_by, walk, matched, matched-walk,
  length-walk,
}
use veritix.Compare.Model.{new, FindingInfo, DeltaSummary}
use veritix.Compare.Findings.{moved, delta_of, add_status, tally, resolved_delta, compare_findings}
use veritix.Compare.Whole.{no_summary}

-- The findings of a summary that the baseline had too.
abbrev pub in_both : DeltaSummary → ℕ
in_both s = s.worse + s.better + s.same

-- What a round or a left finding changes of the numbers.
abbrev Adds : ℕ → ℕ → ℕ → DeltaSummary → DeltaSummary → Type 0
Adds n b g s t =
    (t.news ≡ n + s.news)
    × (in_both t ≡ b + in_both s)
    × (t.gone ≡ g + s.gone)
    × (t.new_errors + t.new_warnings + s.news ≤ s.new_errors + s.new_warnings + t.news)

add_moved :
    (before after : ℤ) (severity : Str) (s : DeltaSummary)
    → Adds 0 1 0 s (add_status (moved before after) severity s)
unfolding moved add_status
add_moved before after severity s = ground arith

add_new : (severity : Str) (s : DeltaSummary) → Adds 1 0 0 s (add_status new severity s)
unfolding add_status
add_new severity s =
    ground (arith, str_eq_iff severity (codes "error"), str_eq_iff severity (codes "warning"))

news_of : List (Option FindingInfo × FindingInfo) → ℕ
news_of [] = 0
news_of ((none, f) ∷ ps) = suc (news_of ps)
news_of ((some g, f) ∷ ps) = news_of ps

tally_rounds :
    (ps : List (Option FindingInfo × FindingInfo)) (s : DeltaSummary)
    → Adds (news_of ps) (matched ps) 0 s (tally (map delta_of ps) s)
unfolding tally delta_of news_of
tally_rounds [] s = omega arith
tally_rounds ((none, f) ∷ ps) s =
    omega (arith, tally_rounds ps (add_status new f.severity s), add_new f.severity s)
tally_rounds ((some g, f) ∷ ps) s = omega (
  arith,
  tally_rounds ps (add_status (moved g.count f.count) f.severity s),
  add_moved g.count f.count f.severity s,
)

news_of-matched :
    (ps : List (Option FindingInfo × FindingInfo)) → news_of ps + matched ps ≡ length ps
unfolding news_of
news_of-matched [] = omega arith
news_of-matched ((none, f) ∷ ps) = omega (arith, news_of-matched ps)
news_of-matched ((some g, f) ∷ ps) = omega (arith, news_of-matched ps)

tally_left :
    (m : List (Str × FindingInfo)) (s : DeltaSummary)
    → Adds 0 0 (length m) s (tally (map resolved_delta m) s)
unfolding tally resolved_delta add_status
tally_left [] s = omega arith
tally_left ((k, f) ∷ m) s = omega (arith, tally_left m (record s { gone = suc s.gone }))

-- The summary of a comparison accounts for every finding once: those that are new, worse, better
-- or the same are as many as this run has, those that are gone, worse, better or the same are as
-- many as the baseline has, if no two of these have one id, and of the new ones no more are
-- errors or warnings than there are.
pub accounts :
    (range : List (Str × FindingInfo) → List (Str × FindingInfo))
    → ((m : List (Str × FindingInfo)) → Perm (range m) m)
    → (before after : List FindingInfo) → DistinctBy (λ f. f.id) before
    → let s = (compare_findings range before after no_summary).summary in
      (s.news + in_both s ≡ length after)
      × (s.gone + in_both s ≡ length before)
      × (s.new_errors + s.new_warnings ≤ s.news)
unfolding compare_findings
accounts range perm before after d =
    let old = index_by (λ f. f.id) before [] in
    let w = walk (λ f. f.id) old after in
    let rounds = tally (map delta_of w.0) no_summary in
    omega (
      arith,
      tally_rounds w.0 no_summary,
      tally_left (range w.1) rounds,
      news_of-matched w.0,
      length-Perm (perm w.1),
      matched-walk (λ f. f.id) old after (index_by-IsProper (λ f. f.id) before [] tt),
      length-walk (λ f. f.id) old after,
      length-index_by (λ f. f.id) before d,
    )
