-- ===== src/Store/Reach.antt =====
-- internal/store: every table that the operations can reach is consistent.
use veritix.Base.{refl, Bool, Option, List, [], Str}
use veritix.Base.Int.{ℤ}
use veritix.Store.Model.{Proposal, Status, Finding, Counts, Tables, Clock, Database, running}
use veritix.Store.Write.{
  create_dataset, delete_dataset, create_run, set_run_database, clear_run_database, start_run,
  finish_run, stop_run, mark_interrupted, save_trace, save_proposals,
}
use veritix.Store.Consistent.{Consistent}
use veritix.Store.Steps.{
  update-Consistent, delete_dataset-Consistent, create_dataset-Consistent, create_run-Consistent,
  mark_interrupted-Consistent, stop_run-Consistent, save_trace-Consistent,
  save_proposals-Consistent, finish_run-Consistent,
}

-- The tables that the operations can reach, whatever the database carries out.
pub data Reached : Tables → Type 0 where
  fresh : Reached (record { datasets = []; runs = []; findings = []; traces = []; proposals = [] })
  creates_dataset :
      {t : Tables} (db : Database) (new : Option Str) (name path : Str) (uploaded : Bool)
      (now : Str)
      → Reached t
      → Reached (create_dataset db new name path uploaded now t).0
  deletes_dataset :
      {t : Tables} (db : Database) (id : Str) → Reached t → Reached (delete_dataset db id t).0
  creates_run :
      {t : Tables} (db : Database) (new : Option Str) (dataset_id version database_path now : Str)
      → Reached t
      → Reached (create_run db new dataset_id version database_path now t).0
  sets_database :
      {t : Tables} (db : Database) (id path : Str)
      → Reached t
      → Reached (set_run_database db id path t).0
  clears_database :
      {t : Tables} (db : Database) (id : Str) → Reached t → Reached (clear_run_database db id t).0
  starts :
      {t : Tables} (db : Database) (id now : Str) → Reached t → Reached (start_run db id now t).0
  finishes :
      {t : Tables} (db : Database) (clock : Clock) (now : ℤ) (id document : Str) (counts : Counts)
      (findings : List Finding)
      → Reached t
      → Reached (finish_run db clock now id document counts findings t).0
  stops :
      {t : Tables} (db : Database) (clock : Clock) (now : ℤ) (id : Str) (status : Status)
      (message : Str)
      → Reached t
      → Reached (stop_run db clock now id status message t).0
  interrupts :
      {t : Tables} (db : Database) (now : Str) → Reached t → Reached (mark_interrupted db now t).0
  traces :
      {t : Tables} (db : Database) (id document : Str)
      → Reached t
      → Reached (save_trace db id document t).0
  proposes :
      {t : Tables} (db : Database) (id : Str) (ps : List Proposal)
      → Reached t
      → Reached (save_proposals db id ps t).0

-- Whatever the operations did and whichever statements failed, ids of datasets and of runs and
-- paths of datasets are distinct, every run belongs to a dataset in the table, and every
-- finding, trace and proposal to a run in the table.
pub reached-Consistent : (t : Tables) → Reached t → Consistent t
unfolding set_run_database clear_run_database start_run
reached-Consistent t fresh = record {
  dataset_ids = tt;
  dataset_paths = tt;
  run_ids = tt;
  run_datasets = tt;
  finding_runs = tt;
  trace_runs = tt;
  proposal_runs = tt;
}
reached-Consistent t' (creates_dataset {t} db new name path uploaded now h) =
    create_dataset-Consistent db t (reached-Consistent t h) new name path uploaded now
reached-Consistent t' (deletes_dataset {t} db id h) =
    delete_dataset-Consistent db t (reached-Consistent t h) id
reached-Consistent t' (creates_run {t} db new dataset_id version database_path now h) =
    create_run-Consistent db t (reached-Consistent t h) new dataset_id version database_path now
reached-Consistent t' (sets_database {t} db id path h) =
    update-Consistent db t (reached-Consistent t h) id (λ r. record r { database_path = path })
      (λ r. (refl, refl))
reached-Consistent t' (clears_database {t} db id h) =
    update-Consistent db t (reached-Consistent t h) id (λ r. record r { database_path = [] })
      (λ r. (refl, refl))
reached-Consistent t' (starts {t} db id now h) =
    update-Consistent db t (reached-Consistent t h) id
      (λ r. record r { status = running; started_at = now }) (λ r. (refl, refl))
reached-Consistent t' (finishes {t} db clock now id document counts findings h) =
    finish_run-Consistent db t (reached-Consistent t h) clock now id document counts findings
reached-Consistent t' (stops {t} db clock now id status message h) =
    stop_run-Consistent db t (reached-Consistent t h) clock now id status message
reached-Consistent t' (interrupts {t} db now h) =
    mark_interrupted-Consistent db t (reached-Consistent t h) now
reached-Consistent t' (traces {t} db id document h) =
    save_trace-Consistent db t (reached-Consistent t h) id document
reached-Consistent t' (proposes {t} db id ps h) =
    save_proposals-Consistent db t (reached-Consistent t h) id ps
