-- ===== src/Scheduler/Tests.antt =====
-- internal/api/scheduler.go: two schedules in one sweep, and a disk on which one file is held open.
use veritix.Base.{
  ◌≡◌, refl, true, false, not, List, [], ◌∷◌, Str, codes, str_eq, if◌then◌else◌, keep, any_of,
}
use veritix.Base.Walk.{DistinctBy}
use veritix.Base.Int.{pos}
use veritix.Schedule.Spec.{weekly}
use veritix.Schedule.Tests.{utc, at_two, at_two-Regular, days_in_week, moment, weekly_valid}
use veritix.Scheduler.Sweep.{active, not_found, run, Server, Entry, State, sweep}
use veritix.Scheduler.Swept.{Swept, sweep-Swept}
use veritix.Scheduler.Discard.{DataStore, tick_once}

abbrev entry : Str → Entry utc
entry id = record {
  dataset_id = id;
  spec = at_two weekly;
  next_due_at = moment;
  notify = true;
  last_run_id = [];
  last_error = [];
}

abbrev two_entries : List (Entry utc)
two_entries = entry (codes "a") ∷ entry (codes "b") ∷ []

-- The datasets with an audit under way; the update of the schedule of "b" fails.
abbrev server : Server (List Str)
server = record {
  reads = λ st. true;
  writes = λ id. not (str_eq id (codes "b"));
  active_run = λ st id. if any_of (str_eq id) st then active id else not_found;
  start_run = λ st id notify. (run id, id ∷ st);
}

abbrev state : State utc (List Str)
state = record { schedules = two_entries; world = [] }

two_Distinct : DistinctBy (λ s. s.dataset_id) two_entries
unfolding str_eq
two_Distinct = (refl, (refl, tt))

sweep-Swept_example : Swept utc server (pos 0) moment state (sweep utc server (pos 0) moment state)
sweep-Swept_example =
    sweep-Swept utc server (pos 0) moment days_in_week state refl two_Distinct
      ((weekly_valid, at_two-Regular weekly), ((weekly_valid, at_two-Regular weekly), tt))

-- The runs recorded as gone, and those on the disk; the files of "held" cannot be removed.
abbrev Disk : Type 0
Disk = List Str × List Str

abbrev disk_store : DataStore Disk Str
disk_store = record {
  discardable = λ st t. (true, st.1);
  remove_run_files = λ st r.
      if str_eq r (codes "held")
      then (false, st)
      else (true, (st.0, keep (λ x. not (str_eq r x)) st.1));
  clear_run_database = λ st r. (true, (r ∷ st.0, st.1));
}

tick_run :
    tick_once disk_store (λ st. st) true (pos 5) (pos 9) ([], codes "old" ∷ codes "held" ∷ [])
    ≡ (codes "old" ∷ [], codes "held" ∷ [])
unfolding tick_once str_eq
tick_run = refl
