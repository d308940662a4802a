-- ===== src/Store/Tests.antt =====
-- Two datasets with a few runs: runs of the operations, and the theorems at them.
use veritix.Base.{
  ◌≡◌, refl, arith, Bool, true, false, not, none, some, List, [], ◌∷◌, ◌++◌, Str, codes, any_of,
  keep, str_eq, str_lt, if◌then◌else◌, All,
}
use veritix.Base.Int.{pos}
use veritix.Base.Sort.{sort_by}
use veritix.Base.Walk.{find_by, is_some}
use veritix.Store.Model.{succeeded, Run, Finding, Counts, Tables, Clock, Database, duration_of}
use veritix.Store.Write.{create_dataset, create_run, finish_run, insert_findings, mark_interrupted}
use veritix.Store.Read.{holds_for, previous_run}
use veritix.Store.Consistent.{Consistent}
use veritix.Store.Reach.{Reached, creates_dataset, creates_run, finishes, fresh, reached-Consistent}
use veritix.Store.Atomic.{IsAtomic, finish_run-IsAtomic}
use veritix.Store.Succeeds.{finish_run-succeeds}
use veritix.Store.Keeps.{run_store, discard-keeps}
use veritix.Store.History.{
  IsPrevious, previous_run-IsPrevious, Restarted, mark_interrupted-Restarted,
}
use veritix.Store.Discarded.{Removes, is_accounted, discard-accounts}
use veritix.Scheduler.Discard.{Paths, discard}

abbrev up : Database
up s = true

abbrev clock : Clock
clock = record {
  format_time = λ t. codes "2026-01-05T00:00:00Z";
  parse_time = λ s. pos 0;
  zero_time = pos 0;
}

abbrev empty : Tables
empty = record { datasets = []; runs = []; findings = []; traces = []; proposals = [] }

abbrev no_counts : Counts
no_counts = record { errors = pos 1; warnings = pos 0; infos = pos 0 }

abbrev orphan : Finding
orphan = record {
  id = codes "f1";
  ordinal = 0;
  rule = codes "orphan";
  severity = codes "error";
  title = [];
  table = codes "orders";
  column = codes "customer";
  row_query = codes "SELECT 1";
}

abbrev shop : Tables
shop =
    (create_dataset up (some (codes "d")) (codes "shop") (codes "/data/shop") false
      (codes "2026-01-01T00:00:00Z") empty).0

abbrev first_run : Tables
first_run =
    (create_run up (some (codes "r1")) (codes "d") [] (codes "/v/r1") (codes "2026-01-02T00:00:00Z")
      shop).0

abbrev first_done : Tables
first_done =
    (finish_run up clock (pos 5) (codes "r1") (codes "doc") no_counts (orphan ∷ []) first_run).0

abbrev second_run : Tables
second_run =
    (create_run up (some (codes "r2")) (codes "d") [] (codes "/v/r2") (codes "2026-01-03T00:00:00Z")
      first_done).0

reached_second : Reached second_run
reached_second =
    creates_run up (some (codes "r2")) (codes "d") [] (codes "/v/r2") (codes "2026-01-03T00:00:00Z")
      (finishes up clock (pos 5) (codes "r1") (codes "doc") no_counts (orphan ∷ []) (
        creates_run up (some (codes "r1")) (codes "d") [] (codes "/v/r1")
          (codes "2026-01-02T00:00:00Z")
          (creates_dataset up (some (codes "d")) (codes "shop") (codes "/data/shop") false
            (codes "2026-01-01T00:00:00Z") fresh)))

reached-Consistent_example : Consistent second_run
reached-Consistent_example = reached-Consistent second_run reached_second

finish_run-IsAtomic_example :
    IsAtomic up clock
      (pos 5)
      (codes "r1")
      (codes "doc")
      no_counts
      (orphan ∷ [])
      first_run
      (finish_run up clock (pos 5) (codes "r1") (codes "doc") no_counts (orphan ∷ []) first_run)
finish_run-IsAtomic_example =
    finish_run-IsAtomic up clock (pos 5) (codes "r1") (codes "doc") no_counts (orphan ∷ [])
      first_run

second_there : is_some (find_by (λ r. r.id) (codes "r2") second_run.runs) ≡ true
unfolding create_run finish_run create_dataset insert_findings str_eq
second_there = refl

second_holds : any_of (holds_for (codes "d")) second_run.runs ≡ true
unfolding create_run finish_run create_dataset insert_findings str_eq
second_holds = refl

finish_run-succeeds_example :
    (finish_run up clock (pos 5) (codes "r2") (codes "doc") no_counts (orphan ∷ []) second_run).1
    ≡ none
finish_run-succeeds_example =
    finish_run-succeeds up clock (pos 5) (codes "r2") (codes "doc") no_counts (orphan ∷ [])
      second_run (λ s. refl) second_there (refl, tt)

-- Every run has its own directory under "data/runs/".
abbrev paths : Paths
paths = record {
  dir = λ path. codes "data/runs/" ++ path;
  join = λ a b. a ++ codes "/" ++ b;
  separator = codes "/";
  data_dir = codes "data";
}

discard-keeps_example :
    any_of
      (holds_for (codes "d"))
      (discard
        (run_store (λ (x : Unit). up) clock paths (λ x dir. (true, x)) (λ x. x))
        (second_run, tt)
        (pos 9)
        (pos 1)).0.runs
    ≡ true
discard-keeps_example =
    discard-keeps (λ (x : Unit). up) clock paths (λ x dir. (true, x)) (λ x. x) (second_run, tt)
      (codes "d") (pos 9) (pos 1) (reached-Consistent second_run reached_second) second_holds

mark_interrupted-Restarted_example :
    Restarted up second_run (mark_interrupted up (codes "2026-01-06T00:00:00Z") second_run).0
mark_interrupted-Restarted_example =
    mark_interrupted-Restarted up up (codes "2026-01-06T00:00:00Z") second_run refl

abbrev done_row : Run
done_row = record {
  id = codes "r1";
  dataset_id = codes "d";
  status = succeeded;
  message = [];
  version = [];
  database_path = codes "/v/r1";
  created_at = codes "2026-01-02T00:00:00Z";
  started_at = [];
  finished_at = codes "2026-01-05T00:00:00Z";
  duration_ms = pos 0;
  errors = pos 1;
  warnings = pos 0;
  infos = pos 0;
  document = codes "doc";
}

second_previous : previous_run up (codes "r2") second_run ≡ some done_row
unfolding previous_run create_run finish_run create_dataset insert_findings str_eq str_lt sort_by
    duration_of
second_previous = refl

previous_run-IsPrevious_example : IsPrevious second_run (codes "r2") done_row
previous_run-IsPrevious_example =
    previous_run-IsPrevious up (codes "r2") second_run done_row second_previous

-- The directories on a disk on which one cannot be removed.
abbrev is_in : List Str → Str → Bool
is_in xs x = any_of (str_eq x) xs

abbrev remove_dir : List Str → Str → Bool × List Str
remove_dir dirs d =
    if str_eq d (codes "held") then (false, dirs) else (true, keep (λ x. not (str_eq d x)) dirs)

removed_from : (d : Str) (xs : List Str) → is_in (keep (λ x. not (str_eq d x)) xs) d ≡ false
removed_from d [] = refl
removed_from d (x ∷ xs) = ground (arith, removed_from d xs)

none_back :
    (d o : Str) (xs : List Str)
    → is_in xs o ≡ false
    → is_in (keep (λ x. not (str_eq d x)) xs) o ≡ false
none_back d o [] h = refl
none_back d o (x ∷ xs) h = ground (arith, none_back d o xs)

remove_dir-Removes : Removes is_in remove_dir (λ dirs. dirs)
remove_dir-Removes = record {
  removed = λ dirs d h. ground (arith, h, removed_from d dirs);
  stays_gone = λ dirs d o h. ground (arith, none_back d o dirs);
  never_back = λ dirs o h. h;
}

abbrev dirs : List Str
dirs = codes "data/runs/p1" ∷ codes "data/runs/p2" ∷ []

discard-accounts_example :
    All
      (λ r.
        is_accounted
          (λ (x : List Str). up)
          clock
          paths
          is_in
          remove_dir
          (λ x. x)
          remove_dir-Removes
          r
          (discard
            (run_store (λ (x : List Str). up) clock paths remove_dir (λ x. x))
            (second_run, dirs)
            (pos 9)
            (pos 1))
        ≡ true)
      second_run.runs
discard-accounts_example =
    discard-accounts (λ (x : List Str). up) clock paths is_in remove_dir (λ x. x) remove_dir-Removes
      (second_run, dirs) (pos 9) (pos 1) (reached-Consistent second_run reached_second)
