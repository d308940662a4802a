-- ===== src/Compare/Findings.antt =====
-- internal/report/compare.go: `compareFindings`, its order, and the regressions of a delta. The
-- loop is the walk of the new findings over the map of the old ones, and a round for each pair.
use veritix.Base.{
  ℕ, suc, Bool, not, ◌&&◌, ◌||◌, Option, none, some, List, [], ◌∷◌, ◌++◌, map, Str, codes, str_eq,
  str_lt, if◌then◌else◌, ltb, leb, ◌==◌, length, keep,
}
use veritix.Base.Int.{ℤ, pos, ltb_ℤ}
use veritix.Base.Walk.{index_by, walk}
use veritix.Base.Sort.{sort_by}
use veritix.Compare.Model.{
  DeltaStatus, new, worsened, resolved, improved, unchanged, rank, FindingInfo, DeltaSummary,
  FindingDelta, severity_rank,
}

-- The status of a finding that the baseline has, by the two counts.
unfoldable pub moved : ℤ → ℤ → DeltaStatus
moved before after =
    if ltb_ℤ before after then worsened else if ltb_ℤ after before then improved else unchanged

unfoldable pub delta_of : Option FindingInfo × FindingInfo → FindingDelta
delta_of (none, f) = record {
  id = f.id;
  rule = f.rule;
  status = new;
  severity = f.severity;
  severity_before = [];
  title = f.title;
  table = f.table;
  source = f.source;
  column = f.column;
  count_before = pos 0;
  count_after = f.count;
}
delta_of (some prev, f) = record {
  id = f.id;
  rule = f.rule;
  status = moved prev.count f.count;
  severity = f.severity;
  severity_before = if not (str_eq prev.severity f.severity) then prev.severity else [];
  title = f.title;
  table = f.table;
  source = f.source;
  column = f.column;
  count_before = prev.count;
  count_after = f.count;
}

-- What one round adds to the summary.
unfoldable pub add_status : DeltaStatus → Str → DeltaSummary → DeltaSummary
add_status new severity s = record s {
  news = suc s.news;
  new_errors = if str_eq severity (codes "error") then suc s.new_errors else s.new_errors;
  new_warnings = if str_eq severity (codes "warning") then suc s.new_warnings else s.new_warnings;
}
add_status worsened severity s = record s { worse = suc s.worse }
add_status resolved severity s = record s { gone = suc s.gone }
add_status improved severity s = record s { better = suc s.better }
add_status unchanged severity s = record s { same = suc s.same }

unfoldable pub tally : List FindingDelta → DeltaSummary → DeltaSummary
unfolding add_status
tally [] s = s
tally (d ∷ ds) s = tally ds (add_status d.status d.severity s)

-- A delta is listed unless it is unchanged in both count and severity.
unfoldable pub is_listed : FindingDelta → Bool
is_listed d = not (rank d.status == rank unchanged) || not (str_eq d.severity_before [])

-- A finding that is left in the baseline.
unfoldable pub resolved_delta : Str × FindingInfo → FindingDelta
resolved_delta (k, f) = record {
  id = f.id;
  rule = f.rule;
  status = resolved;
  severity = f.severity;
  severity_before = [];
  title = f.title;
  table = f.table;
  source = f.source;
  column = f.column;
  count_before = f.count;
  count_after = pos 0;
}

-- The comparison of `sortFindingDeltas`.
unfoldable pub delta_less : FindingDelta → FindingDelta → Bool
delta_less a b =
    if not (rank a.status == rank b.status)
    then ltb (rank a.status) (rank b.status)
    else if not (str_eq a.severity b.severity)
    then ltb (severity_rank a.severity) (severity_rank b.severity)
    else if not (str_eq a.rule b.rule)
    then str_lt a.rule b.rule
    else if not (str_eq a.table b.table)
    then str_lt a.table b.table
    else str_lt a.column b.column

pub record Compared : Type 0 where
  pub listed : List FindingDelta
  pub summary : DeltaSummary

module _ (range : List (Str × FindingInfo) → List (Str × FindingInfo)) where
  -- The deltas of the new findings and those of the baseline that are left, in no order yet.
  unfoldable pub round_deltas : List FindingInfo → List FindingInfo → List FindingDelta
  round_deltas before after =
      map delta_of (walk (λ f. f.id) (index_by (λ f. f.id) before []) after).0

  unfoldable pub left_deltas : List FindingInfo → List FindingInfo → List FindingDelta
  left_deltas before after =
      map resolved_delta (range (walk (λ f. f.id) (index_by (λ f. f.id) before []) after).1)

  unfoldable pub compare_findings : List FindingInfo → List FindingInfo → DeltaSummary → Compared
  unfolding round_deltas left_deltas
  compare_findings before after sum =
      let rounds = round_deltas before after in
      let left = left_deltas before after in
      record {
        listed = sort_by delta_less (keep is_listed rounds ++ left);
        summary = tally left (tally rounds sum);
      }

-- `Regressed`, given the findings of the delta.
unfoldable pub is_regression : Str → FindingDelta → Bool
is_regression min_severity d =
    (rank d.status == rank new || rank d.status == rank worsened)
    && leb (severity_rank d.severity) (severity_rank min_severity)

unfoldable pub regressed : Str → List FindingDelta → List FindingDelta
unfolding is_regression
regressed min_severity = keep (is_regression min_severity)

unfoldable pub regressions : Str → List FindingDelta → ℕ
unfolding regressed
regressions min_severity ds = length (regressed min_severity ds)
