-- ===== src/Compare/Reading.antt =====
-- internal/report/compare.go: `Regressed` and the order of the delta.
use veritix.Base.{
  ◌+◌, ◌≡◌, arith, Option, none, some, List, [], ◌∷◌, ◌++◌, map, Str, codes, str_eq, keep,
  if◌then◌else◌, length-keep, count_if, count_if-Perm, count_if-append,
}
use veritix.Base.Sort.{sort_by, sort_by-perm}
use veritix.Base.Walk.{index_by, walk}
use veritix.Compare.Model.{rank, resolved, severity_rank, FindingInfo, DeltaSummary}
use veritix.Compare.Findings.{
  moved, delta_of, add_status, tally, is_listed, resolved_delta, delta_less, round_deltas,
  left_deltas, compare_findings, is_regression, regressed, regressions,
}
use veritix.Compare.Whole.{no_summary}

abbrev info : Str
info = codes "info"

round_regression :
    (o : Option FindingInfo) (f : FindingInfo) (s : DeltaSummary)
    → (if is_listed (delta_of (o, f))
          then (if is_regression info (delta_of (o, f)) then 1 else 0)
          else 0)
        + s.news
        + s.worse
      ≡ (add_status (delta_of (o, f)).status (delta_of (o, f)).severity s).news
        + (add_status (delta_of (o, f)).status (delta_of (o, f)).severity s).worse
unfolding delta_of is_listed is_regression moved add_status severity_rank str_eq rank
round_regression none f s = ground arith
round_regression (some g) f s = ground arith

rounds_regress :
    (ps : List (Option FindingInfo × FindingInfo)) (s : DeltaSummary)
    → count_if (is_regression info) (keep is_listed (map delta_of ps)) + s.news + s.worse
      ≡ (tally (map delta_of ps) s).news + (tally (map delta_of ps) s).worse
unfolding tally
rounds_regress [] s = omega arith
rounds_regress ((o, f) ∷ ps) s =
    let next = add_status (delta_of (o, f)).status (delta_of (o, f)).severity s in
    ground (arith, rounds_regress ps next, round_regression o f s)

left_regress :
    (m : List (Str × FindingInfo)) (s : DeltaSummary)
    → count_if (is_regression info) (map resolved_delta m) + s.news + s.worse
      ≡ (tally (map resolved_delta m) s).news + (tally (map resolved_delta m) s).worse
unfolding tally resolved_delta add_status is_regression rank
left_regress [] s = omega arith
left_regress ((k, f) ∷ m) s = ground (arith, left_regress m (add_status resolved f.severity s))

-- At the lowest severity the regressions of a comparison are as many as the summary's new and
-- worsened findings together.
pub regressions-info :
    (range : List (Str × FindingInfo) → List (Str × FindingInfo))
    → (before after : List FindingInfo)
    → let c = compare_findings range before after no_summary in
      regressions info c.listed ≡ c.summary.news + c.summary.worse
unfolding compare_findings regressions regressed
regressions-info range before after =
    let r = round_deltas range before after in
    let l = left_deltas range before after in
    let old = index_by (λ f. f.id) before [] in
    let ps = (walk (λ f. f.id) old after).0 in
    let all = keep is_listed r ++ l in
    omega (
      arith,
      length-keep (is_regression info) (sort_by delta_less all),
      count_if-Perm (is_regression info) (sort_by-perm delta_less all),
      count_if-append (is_regression info) (keep is_listed r) l,
      rounds_regress ps no_summary,
      left_regress (range (walk (λ f. f.id) old after).1) (tally r no_summary),
    )
