-- ===== src/Store/Write.antt =====
-- internal/store/runs.go: the operations that change the tables. `db` says which statements the
-- database carries out; a statement it does not carry out changes nothing.
use veritix.Base.{
  ℕ, suc, Bool, not, ◌&&◌, ◌||◌, Option, none, some, List, [], ◌∷◌, ◌++◌, Str, codes, str_eq,
  if◌then◌else◌, any_of, keep, map,
}
use veritix.Base.Int.{ℤ, pos}
use veritix.Base.Walk.{has_key, find_by}
use veritix.Store.Model.{
  Status, pending, running, succeeded, failed, terminal, same_status, Dataset, Run, Finding, Counts,
  Proposal, Tables, Failure, not_found, broken, not_terminal, Clock, duration_of, read, write,
  begin, read_started, update_row, delete_old, prepare, commit, insert, Database, Outcome,
}

-- An `UPDATE runs SET ... WHERE id = ?`.
abbrev pub set_row : Str → (Run → Run) → List Run → List Run
set_row id f [] = []
set_row id f (r ∷ rs) = (if str_eq r.id id then f r else r) ∷ set_row id f rs

-- What `MarkInterrupted` makes of a row.
abbrev pub interrupt_row : Str → Run → Run
interrupt_row now r =
    if not (same_status r.status pending || same_status r.status running) then r else record r {
      status = failed;
      message = codes "interrupted: the server stopped while this run was in progress";
      finished_at = now;
    }

module _ (db : Database) where
  -- `CreateDataset`, for the id that was generated, if one was.
  unfoldable pub create_dataset :
      Option Str → Str → Str → Bool → Str → Tables → Tables × Option Dataset
  create_dataset new name path uploaded now t =
      if not (db read) then (t, none) else elim (find_by (λ d. d.path) path t.datasets) [
        | some d ↦ (t, some d)
        | none ↦ elim new [
          | none ↦ (t, none)
          | some id ↦
              if not (db write) || has_key (λ d. d.id) id t.datasets
              then (t, none)
              else let d : Dataset = record {
                id = id;
                name = name;
                path = path;
                uploaded = uploaded;
                created_at = now;
              } in
                (record t { datasets = t.datasets ++ d ∷ [] }, some d)
        ]
      ]

  -- `DeleteDataset`, with the rows that go with it.
  unfoldable pub delete_dataset : Str → Tables → Outcome
  delete_dataset id t =
      if not (db write)
      then (t, some broken)
      else if not (has_key (λ d. d.id) id t.datasets)
      then (t, some not_found)
      else let runs = keep (λ r. not (str_eq r.dataset_id id)) t.runs in
        (
          record t {
            datasets = keep (λ d. not (str_eq d.id id)) t.datasets;
            runs = runs;
            findings = keep (λ f. has_key (λ r. r.id) f.0 runs) t.findings;
            traces = keep (λ e. has_key (λ r. r.id) e.0 runs) t.traces;
            proposals = keep (λ e. has_key (λ r. r.id) e.0 runs) t.proposals;
          },
          none,
        )

  -- `CreateRun`: the row refers to a dataset, and its id is new.
  unfoldable pub create_run : Option Str → Str → Str → Str → Str → Tables → Tables × Option Run
  create_run new dataset_id version database_path now t = elim new [
    | none ↦ (t, none)
    | some id ↦
        if not (db write)
          || has_key (λ r. r.id) id t.runs
          || not (has_key (λ d. d.id) dataset_id t.datasets)
        then (t, none)
        else let r : Run = record {
          id = id;
          dataset_id = dataset_id;
          status = pending;
          message = [];
          version = version;
          database_path = database_path;
          created_at = now;
          started_at = [];
          finished_at = [];
          duration_ms = pos 0;
          errors = pos 0;
          warnings = pos 0;
          infos = pos 0;
          document = [];
        } in
          (record t { runs = t.runs ++ r ∷ [] }, some r)
  ]

  -- `update`
  unfoldable pub update : Str → (Run → Run) → Tables → Outcome
  update id f t =
      if not (db write)
      then (t, some broken)
      else if not (has_key (λ r. r.id) id t.runs)
      then (t, some not_found)
      else (record t { runs = set_row id f t.runs }, none)

  unfoldable pub set_run_database : Str → Str → Tables → Outcome
  unfolding update
  set_run_database id path = update id (λ r. record r { database_path = path })

  unfoldable pub clear_run_database : Str → Tables → Outcome
  unfolding update
  clear_run_database id = update id (λ r. record r { database_path = [] })

  unfoldable pub start_run : Str → Str → Tables → Outcome
  unfolding update
  start_run id now = update id (λ r. record r { status = running; started_at = now })

  -- The insertions of `FinishRun`: none where one fails. The id of a finding is new in its run.
  unfoldable pub insert_findings :
      Str → ℕ → List Finding → List (Str × Finding) → Option (List (Str × Finding))
  insert_findings id i [] rows = some rows
  insert_findings id i (f ∷ fs) rows =
      let rest = insert_findings id (suc i) fs (rows ++ (id, f) ∷ []) in
      if not (db (insert i)) || any_of (λ e. str_eq e.0 id && str_eq e.1.id f.id) rows
      then none
      else rest

  -- The statements of `FinishRun`, on the tables as the transaction sees them.
  unfoldable pub finish_steps :
      Clock → ℤ → Str → Str → Counts → List Finding → Tables → Option Failure × Tables
  unfolding insert_findings
  finish_steps clock now id document counts findings t =
      if not (db read_started) then (some broken, t) else elim (find_by (λ r. r.id) id t.runs) [
        | none ↦ (some not_found, t)
        | some old ↦
            if not (db update_row)
            then (some broken, t)
            else let updated = record t {
              runs =
                  set_row id
                    (λ r. record r {
                      status = succeeded;
                      finished_at = clock.format_time now;
                      duration_ms = duration_of clock old.started_at now;
                      errors = counts.errors;
                      warnings = counts.warnings;
                      infos = counts.infos;
                      document = document;
                    })
                    t.runs;
            } in
              if not (db delete_old)
              then (some broken, updated)
              else let cleared = record updated {
                findings = keep (λ e. not (str_eq e.0 id)) t.findings;
              } in
                if not (db prepare)
                then (some broken, cleared)
                else elim (insert_findings id 0 findings cleared.findings) [
                  | none ↦ (some broken, cleared)
                  | some rows ↦ (none, record cleared { findings = rows })
                ]
      ]

  -- `FinishRun`: what the transaction did is kept only where it was committed.
  unfoldable pub finish_run : Clock → ℤ → Str → Str → Counts → List Finding → Tables → Outcome
  unfolding finish_steps
  finish_run clock now id document counts findings t =
      if not (db begin)
      then (t, some broken)
      else let (failure, staged) = finish_steps clock now id document counts findings t in
        elim failure [
          | some e ↦ (t, some e)
          | none ↦ if not (db commit) then (t, some broken) else (staged, none)
        ]

  unfoldable pub stop_run : Clock → ℤ → Str → Status → Str → Tables → Outcome
  unfolding update
  stop_run clock now id status message t =
      if not (terminal status)
      then (t, some not_terminal)
      else if not (db read)
      then (t, some broken)
      else elim (find_by (λ r. r.id) id t.runs) [
        | none ↦ (t, some not_found)
        | some old ↦
            update id
              (λ r. record r {
                status = status;
                message = message;
                finished_at = clock.format_time now;
                duration_ms = duration_of clock old.started_at now;
              })
              t
      ]

  -- `MarkInterrupted`
  unfoldable pub mark_interrupted : Str → Tables → Outcome
  mark_interrupted now t =
      if not (db write)
      then (t, some broken)
      else (record t { runs = map (interrupt_row now) t.runs }, none)

  -- `SaveTrace`: the trace of a run replaces the one it had.
  unfoldable pub save_trace : Str → Str → Tables → Outcome
  save_trace id document t =
      if not (db write) || not (has_key (λ r. r.id) id t.runs) then (t, some broken) else (
        record t { traces = keep (λ e. not (str_eq e.0 id)) t.traces ++ (id, document) ∷ [] },
        none,
      )

  -- The insertions of `SaveProposals`: a row refers to its run, and its id is new in the run.
  unfoldable pub insert_proposals :
      Bool → Str → ℕ → List Proposal → List (Str × Proposal) → Option (List (Str × Proposal))
  insert_proposals exists id i [] rows = some rows
  insert_proposals exists id i (p ∷ ps) rows =
      let rest = insert_proposals exists id (suc i) ps (rows ++ (id, p) ∷ []) in
      if not exists
        || (not (db (insert i)) || any_of (λ e. str_eq e.0 id && str_eq e.1.id p.id) rows)
      then none
      else rest

  -- `SaveProposals`: the proposals of a run replace those it had, all or none of them.
  unfoldable pub save_proposals : Str → List Proposal → Tables → Outcome
  unfolding insert_proposals
  save_proposals id ps t =
      if not (db begin)
      then (t, some broken)
      else if not (db delete_old)
      then (t, some broken)
      else elim (insert_proposals (has_key (λ r. r.id) id t.runs) id 0 ps
          (keep (λ e. not (str_eq e.0 id)) t.proposals)) [
            | none ↦ (t, some broken)
            | some rows ↦
                if not (db commit) then (t, some broken) else (record t { proposals = rows }, none)
          ]
