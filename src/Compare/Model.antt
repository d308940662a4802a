-- ===== src/Compare/Model.antt =====
-- internal/report/compare.go: statuses, deltas and summaries; internal/report/json.go: the part of
-- a document that a comparison reads. The order of a `range` over a map is a parameter: any
-- rearrangement of the entries.
use mathlib.Core.List.{Perm}
use veritix.Base.{ℕ, ◌+◌, Bool, List, Str, codes, str_eq, if◌then◌else◌, ltb}
use veritix.Base.Int.{ℤ}

pub data DeltaStatus : Type 0 where
  new worsened resolved improved unchanged : DeltaStatus

unfoldable pub rank : DeltaStatus → ℕ
rank new = 0
rank worsened = 1
rank resolved = 2
rank improved = 3
rank unchanged = 4

pub data TableChange : Type 0 where
  added removed changed : TableChange

pub record FindingInfo : Type 0 where
  pub id : Str
  pub rule : Str
  pub severity : Str
  pub title : Str
  pub table : Str
  pub source : Str
  pub column : Str
  pub count : ℤ

pub record ColumnInfo : Type 0 where
  pub name : Str

pub record TableInfo : Type 0 where
  pub name : Str
  pub source : Str
  pub row_count : ℤ
  pub columns : List ColumnInfo

pub record Document : Type 0 where
  pub schema : Str
  pub version : Str
  pub root : Str
  pub started_at : ℤ
  pub findings : List FindingInfo
  pub tables : List TableInfo

pub record BaselineInfo : Type 0 where
  pub started_at : ℤ
  pub version : Str
  pub root : Str

pub record DeltaSummary : Type 0 where
  pub news : ℕ
  pub worse : ℕ
  pub gone : ℕ
  pub better : ℕ
  pub same : ℕ
  pub new_errors : ℕ
  pub new_warnings : ℕ

-- `Changed`
unfoldable pub is_changed : DeltaSummary → Bool
is_changed s = ltb 0 (s.news + s.worse + s.gone + s.better)

pub record FindingDelta : Type 0 where
  pub id : Str
  pub rule : Str
  pub status : DeltaStatus
  pub severity : Str
  pub severity_before : Str
  pub title : Str
  pub table : Str
  pub source : Str
  pub column : Str
  pub count_before : ℤ
  pub count_after : ℤ

pub record TableDelta : Type 0 where
  pub name : Str
  pub source : Str
  pub change : TableChange
  pub rows_before : ℤ
  pub rows_after : ℤ
  pub columns_added : List Str
  pub columns_removed : List Str

-- The caveats, without their wording.
pub data Note : Type 0 where
  different_roots : Str → Str → Note
  different_schemas : Str → Str → Note
  gone_from_export : Note

pub record Delta : Type 0 where
  pub baseline : BaselineInfo
  pub summary : DeltaSummary
  pub findings : List FindingDelta
  pub tables : List TableDelta
  pub notes : List Note

-- `severityRank`
unfoldable pub severity_rank : Str → ℕ
severity_rank s =
    if str_eq s (codes "error") then 0 else if str_eq s (codes "warning") then 1 else 2

-- An order in which `range` visits the entries of each map.
pub record Ranges : Type 0 where
  pub of_findings : List (Str × FindingInfo) → List (Str × FindingInfo)
  pub of_tables : List (Str × TableInfo) → List (Str × TableInfo)
  pub of_columns : List (Str × ColumnInfo) → List (Str × ColumnInfo)
  pub findings_perm : (m : List (Str × FindingInfo)) → Perm (of_findings m) m
  pub tables_perm : (m : List (Str × TableInfo)) → Perm (of_tables m) m
  pub columns_perm : (m : List (Str × ColumnInfo)) → Perm (of_columns m) m
