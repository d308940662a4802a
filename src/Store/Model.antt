-- ===== src/Store/Model.antt =====
-- internal/store: the rows of the tables, and the outcome of a statement. A column that is NULL holds
-- the empty text, which the code reads the same way. A time is kept as the text that is stored; the
-- formatting and the parsing of times are parameters.
use veritix.Base.{ℕ, suc, ◌/◌, Bool, true, false, Option, List, Str, if◌then◌else◌}
use veritix.Base.Int.{ℤ, pos, negsuc, sub_ℕ, eqb_ℤ, ◌-ℤ◌}

pub data Status : Type 0 where
  pending running succeeded failed canceled : Status

unfoldable pub terminal : Status → Bool
terminal succeeded = true
terminal failed = true
terminal canceled = true
terminal _ = false

abbrev pub same_status : Status → Status → Bool
same_status pending pending = true
same_status running running = true
same_status succeeded succeeded = true
same_status failed failed = true
same_status canceled canceled = true
same_status _ _ = false

pub record Dataset : Type 0 where
  pub id : Str
  pub name : Str
  pub path : Str
  pub uploaded : Bool
  pub created_at : Str

pub record Run : Type 0 where
  pub id : Str
  pub dataset_id : Str
  pub status : Status
  pub message : Str
  pub version : Str
  pub database_path : Str
  pub created_at : Str
  pub started_at : Str
  pub finished_at : Str
  pub duration_ms : ℤ
  pub errors : ℤ
  pub warnings : ℤ
  pub infos : ℤ
  pub document : Str

pub record Finding : Type 0 where
  pub id : Str
  pub ordinal : ℕ
  pub rule : Str
  pub severity : Str
  pub title : Str
  pub table : Str
  pub column : Str
  pub row_query : Str

-- A proposed rule: its document is the whole of it.
pub record Proposal : Type 0 where
  pub id : Str
  pub ordinal : ℕ
  pub rule : Str
  pub document : Str

pub record Counts : Type 0 where
  pub errors : ℤ
  pub warnings : ℤ
  pub infos : ℤ

-- The rows of a table that belongs to runs, each with the id of its run.
pub record Tables : Type 0 where
  pub datasets : List Dataset
  pub runs : List Run
  pub findings : List (Str × Finding)
  pub traces : List (Str × Str)
  pub proposals : List (Str × Proposal)

-- Why an operation of the store fails.
pub data Failure : Type 0 where
  not_found broken not_terminal duplicate : Failure

-- The texts of times: `formatTime`, `parseTime`, and the zero time, which `parseTime` gives for a text
-- that is empty or no time.
pub record Clock : Type 0 where
  pub format_time : ℤ → Str
  pub parse_time : Str → ℤ
  pub zero_time : ℤ

-- A duration of nanoseconds in whole milliseconds, as Go divides.
abbrev pub to_ms : ℤ → ℤ
to_ms (pos n) = pos (n / 1000000)
to_ms (negsuc n) = sub_ℕ 0 (suc n / 1000000)

-- The time between the start of a run and now, zero where the run has no start.
unfoldable pub duration_of : Clock → Str → ℤ → ℤ
duration_of clock started now =
    let t = clock.parse_time started in if eqb_ℤ t clock.zero_time then pos 0 else to_ms (now -ℤ t)

-- The statements that can fail, with the number of the inserted row.
pub data Statement : Type 0 where
  read write begin read_started update_row delete_old prepare commit : Statement
  insert : ℕ → Statement

-- Whether the database carries out a statement.
abbrev pub Database : Type 0
Database = Statement → Bool

abbrev pub Outcome : Type 0
Outcome = Tables × Option Failure
