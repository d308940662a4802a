-- ===== src/Compare/Tests.antt =====
-- internal/report/compare.go: a small comparison, and the theorems at it.
use mathlib.Core.List.{reverse}
use mathlib.Core.List.Perm
use veritix.Base.{
  ℕ, ◌+◌, ◌≤◌, ◌≡◌, refl, false, List, [], ◌∷◌, Str, codes, str_eq, any_of, keep, length, str_lt,
}
use veritix.Base.Int.{pos}
use veritix.Base.Walk.{DistinctBy, find_by, index_by, walk}
use veritix.Base.Sort.{sort_by}
use veritix.Base.Dict.{insert}
use veritix.Compare.Model.{rank, worsened, FindingInfo, ColumnInfo, Document, Ranges, is_changed}
use veritix.Compare.Findings.{resolved_delta, left_deltas, delta_less, compare_findings}
use veritix.Compare.Whole.{compare, no_summary}
use veritix.Compare.Accounts.{accounts, in_both}
use veritix.Compare.Truth.{says, should_say, compare_findings-should_say}
use veritix.Compare.Same.{compare_self}
use veritix.Compare.Ties.{ties, listed_ties, ties-follow_range}

abbrev info_of : Str → Str → ℕ → FindingInfo
info_of id severity n = record {
  id = id;
  rule = codes "null";
  severity = severity;
  title = [];
  table = codes "orders";
  source = [];
  column = codes "price";
  count = pos n;
}

abbrev earlier : List FindingInfo
earlier = info_of (codes "a") (codes "error") 2 ∷ info_of (codes "b") (codes "warning") 5 ∷ []

abbrev later : List FindingInfo
later = info_of (codes "b") (codes "warning") 6 ∷ info_of (codes "c") (codes "error") 1 ∷ []

abbrev column : Str → ColumnInfo
column n = record { name = n }

abbrev two_columns : List ColumnInfo
two_columns = column (codes "id") ∷ column (codes "price") ∷ []

abbrev one_column : List ColumnInfo
one_column = column (codes "id") ∷ []

abbrev ranges : Ranges
ranges = record {
  of_findings = λ m. m;
  of_tables = λ m. m;
  of_columns = λ m. m;
  findings_perm = Perm.refl;
  tables_perm = Perm.refl;
  columns_perm = Perm.refl;
}

abbrev document : Document
document = record {
  schema = codes "1";
  version = codes "dev";
  root = codes "/data";
  started_at = pos 0;
  findings = earlier;
  tables =
      record { name = codes "orders"; source = []; row_count = pos 9; columns = two_columns } ∷ [];
}

earlier-Distinct : DistinctBy (λ f. f.id) earlier
unfolding str_eq
earlier-Distinct = (refl, (refl, tt))

later-Distinct : DistinctBy (λ f. f.id) later
unfolding str_eq
later-Distinct = (refl, (refl, tt))

two_columns-Distinct : DistinctBy (λ c. c.name) two_columns
unfolding str_eq
two_columns-Distinct = (refl, (refl, tt))

one_column-Distinct : DistinctBy (λ c. c.name) one_column
unfolding str_eq
one_column-Distinct = (refl, tt)

accounts_example :
    let s = (compare_findings (λ m. m) earlier later no_summary).summary in
    (s.news + in_both s ≡ 2) × (s.gone + in_both s ≡ 2) × (s.new_errors + s.new_warnings ≤ s.news)
accounts_example = accounts (λ m. m) Perm.refl earlier later earlier-Distinct

compare_findings-should_say_example :
    any_of (says (codes "b") worsened) (compare_findings (λ m. m) earlier later no_summary).listed
    ≡ should_say worsened
        (find_by (λ f. f.id) (codes "b") earlier)
        (find_by (λ f. f.id) (codes "b") later)
compare_findings-should_say_example =
    compare_findings-should_say (λ m. m) Perm.refl earlier later no_summary earlier-Distinct
      later-Distinct (codes "b") worsened

compare_self_example :
    let delta = compare ranges document document in
    (delta.summary.same ≡ 2)
    × (is_changed delta.summary ≡ false)
    × (delta.findings ≡ [])
    × (delta.tables ≡ [])
    × (delta.notes ≡ [])
compare_self_example =
    compare_self ranges document earlier-Distinct (refl, tt) (two_columns-Distinct, tt)

abbrev first : FindingInfo
first = info_of (codes "a") (codes "error") 2

abbrev second : FindingInfo
second = info_of (codes "b") (codes "error") 3

ties-follow_range_example :
    let before = first ∷ second ∷ [] in
    (listed_ties before [] no_summary first (λ m. m)
      ≡ keep (ties first) (left_deltas (λ m. m) before []))
    × (listed_ties before [] no_summary first reverse
        ≡ reverse (listed_ties before [] no_summary first (λ m. m)))
ties-follow_range_example = ties-follow_range (first ∷ second ∷ []) [] no_summary first (λ m. m)

-- The two are listed, so the two orders give two reports.
both_listed : length (listed_ties (first ∷ second ∷ []) [] no_summary first (λ m. m)) ≡ 2
unfolding compare_findings resolved_delta sort_by index_by insert walk str_eq delta_less rank str_lt
both_listed = refl
