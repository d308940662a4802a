-- ===== src/Store/Steps.antt =====
-- internal/store: each operation keeps consistent tables consistent.
use veritix.Base.{
  suc, ℕ, ◌≡◌, refl, ap, sym, ◌∙◌, subst, arith, Bool, true, false, not, ◌||◌, Option, none, some,
  List, [], ◌∷◌, ◌++◌, Str, str_eq, if◌then◌else◌, keep, All, All-append, All-keep,
}
use veritix.Base.Int.{ℤ, pos}
use veritix.Base.Walk.{has_key, find_by, has_key-find_by, is_some}
use veritix.Store.Model.{
  Proposal, commit, Status, Dataset, Run, Finding, Counts, Tables, Clock, duration_of, Database,
  Outcome, pending, not_found, broken, write,
}
use veritix.Store.Write.{
  interrupt_row, create_dataset, delete_dataset, create_run, update, finish_run, stop_run,
  mark_interrupted, save_trace, save_proposals, insert_proposals,
}
use veritix.Store.Replaced.{of_run, tagged, finished_row, finished_tables}
use veritix.Store.Atomic.{Settled, finish_run-Settled}
use veritix.Store.Consistent.{Consistent, HasRun, map-Consistent, set_row-Consistent, Leaves}
use veritix.Store.Invariant.{
  with_dataset-Consistent, with_run-Consistent, without_dataset-Consistent,
  with_findings-Consistent, with_traces-Consistent, with_proposals-Consistent,
}

has_key-found :
    (id : Str) (old : Run) (rs : List Run)
    → find_by (λ r. r.id) id rs ≡ some old
    → has_key (λ r. r.id) id rs ≡ true
has_key-found id old rs h = has_key-find_by (λ r. r.id) id rs ∙ ap is_some h

tagged-HasRun :
    (id : Str) (rs : List Run) (fs : List Finding)
    → has_key (λ r. r.id) id rs ≡ true
    → All (HasRun rs) (tagged id fs)
tagged-HasRun id rs [] h = tt
tagged-HasRun id rs (f ∷ fs) h = (h, tagged-HasRun id rs fs h)

module _ (db : Database) (t : Tables) (c : Consistent t) where
  pub update-Consistent : (id : Str) (f : Run → Run) → Leaves f → Consistent (update db id f t).0
  unfolding update
  update-Consistent id f h = ground (arith, set_row-Consistent id f h t c)

  pub delete_dataset-Consistent : (id : Str) → Consistent (delete_dataset db id t).0
  unfolding delete_dataset
  delete_dataset-Consistent id = ground (arith, without_dataset-Consistent t id c)

  -- A registration, by what the table holds under the path and the id that was generated.
  registered :
      (name path : Str) (uploaded : Bool) (now : Str) (old : Option Dataset) (new : Option Str)
      → has_key (λ d. d.path) path t.datasets ≡ is_some old
      → Consistent
          (elim old as (λ x. Tables × Option Dataset) [
            | some d ↦ (t, some d)
            | none ↦ elim new [
              | none ↦ (t, none)
              | some id ↦
                  if not (db write) || has_key (λ d. d.id) id t.datasets
                  then (t, none)
                  else let d : Dataset = record {
                    id = id;
                    name = name;
                    path = path;
                    uploaded = uploaded;
                    created_at = now;
                  } in
                    (record t { datasets = t.datasets ++ d ∷ [] }, some d)
            ]
          ]).0
  registered name path uploaded now (some d) new h = c
  registered name path uploaded now none none h = c
  registered name path uploaded now none (some id) h =
      let d : Dataset = record {
        id = id;
        name = name;
        path = path;
        uploaded = uploaded;
        created_at = now;
      } in
      ground (arith, c, with_dataset-Consistent t d c)

  pub create_dataset-Consistent :
      (new : Option Str) (name path : Str) (uploaded : Bool) (now : Str)
      → Consistent (create_dataset db new name path uploaded now t).0
  unfolding create_dataset
  create_dataset-Consistent new name path uploaded now = ground (
    arith,
    c,
    registered name path uploaded now (find_by (λ d. d.path) path t.datasets) new
        (has_key-find_by (λ d. d.path) path t.datasets),
  )

  pub create_run-Consistent :
      (new : Option Str) (dataset_id version database_path now : Str)
      → Consistent (create_run db new dataset_id version database_path now t).0
  unfolding create_run
  create_run-Consistent none dataset_id version database_path now = c
  create_run-Consistent (some id) dataset_id version database_path now =
      let r : Run = record {
        id = id;
        dataset_id = dataset_id;
        status = pending;
        message = [];
        version = version;
        database_path = database_path;
        created_at = now;
        started_at = [];
        finished_at = [];
        duration_ms = pos 0;
        errors = pos 0;
        warnings = pos 0;
        infos = pos 0;
        document = [];
      } in
      ground (arith, c, with_run-Consistent t r c)

  pub mark_interrupted-Consistent : (now : Str) → Consistent (mark_interrupted db now t).0
  unfolding mark_interrupted
  mark_interrupted-Consistent now =
      ground (arith, map-Consistent (interrupt_row now) (λ r. (ground arith, ground arith)) t c)

  stopped :
      (clock : Clock) (now : ℤ) (id : Str) (status : Status) (message : Str) (old : Option Run)
      → Consistent
          (elim old as (λ x. Outcome) [
            | none ↦ (t, some not_found)
            | some old ↦
                update db id
                  (λ r. record r {
                    status = status;
                    message = message;
                    finished_at = clock.format_time now;
                    duration_ms = duration_of clock old.started_at now;
                  })
                  t
          ]).0
  stopped clock now id status message none = c
  stopped clock now id status message (some old) =
      update-Consistent id
        (λ r. record r {
          status = status;
          message = message;
          finished_at = clock.format_time now;
          duration_ms = duration_of clock old.started_at now;
        })
        (λ r. (refl, refl))

  pub stop_run-Consistent :
      (clock : Clock) (now : ℤ) (id : Str) (status : Status) (message : Str)
      → Consistent (stop_run db clock now id status message t).0
  unfolding stop_run
  stop_run-Consistent clock now id status message =
      ground (arith, c, stopped clock now id status message (find_by (λ r. r.id) id t.runs))

  saved :
      (id document : Str) (skip : Bool)
      → (skip ≡ false → has_key (λ r. r.id) id t.runs ≡ true)
      → (let o : Outcome = if skip then (t, some broken) else (
        record t { traces = keep (λ e. not (str_eq e.0 id)) t.traces ++ (id, document) ∷ [] },
        none,
      ) in
          Consistent o.0)
  saved id document true h = c
  saved id document false h =
      let old = keep (λ e. not (str_eq e.0 id)) t.traces in
      with_traces-Consistent t (old ++ (id, document) ∷ []) c (
        All-append (HasRun t.runs) old ((id, document) ∷ [])
          (All-keep (HasRun t.runs) (λ e. not (str_eq e.0 id)) t.traces c.trace_runs) (h refl, tt))

  pub save_trace-Consistent : (id document : Str) → Consistent (save_trace db id document t).0
  unfolding save_trace
  save_trace-Consistent id document =
      saved id document (not (db write) || not (has_key (λ r. r.id) id t.runs))
        (λ h. ground (arith, h))

  abbrev AllIn : Option (List (Str × Proposal)) → Type 0
  AllIn none = Unit
  AllIn (some rows) = All (HasRun t.runs) rows

  unless :
      (b : Bool) (o : Option (List (Str × Proposal)))
      → (b ≡ false → AllIn o)
      → AllIn (if b then none else o)
  unless true o h = tt
  unless false o h = h refl

  inserted_proposals :
      (id : Str) (i : ℕ) (ps : List Proposal) (rows : List (Str × Proposal))
      → All (HasRun t.runs) rows
      → AllIn (insert_proposals db (has_key (λ r. r.id) id t.runs) id i ps rows)
  unfolding insert_proposals
  inserted_proposals id i [] rows a = a
  inserted_proposals id i (p ∷ ps) rows a =
      unless _
        (insert_proposals db (has_key (λ r. r.id) id t.runs) id (suc i) ps (rows ++ (id, p) ∷ []))
        (λ h.
          inserted_proposals id (suc i) ps (rows ++ (id, p) ∷ [])
            (All-append (HasRun t.runs) rows ((id, p) ∷ []) a (ground (arith, h), tt)))

  proposed :
      (o : Option (List (Str × Proposal)))
      → AllIn o
      → Consistent
          (elim o as (λ x. Outcome) [
            | none ↦ (t, some broken)
            | some rows ↦
                if not (db commit) then (t, some broken) else (record t { proposals = rows }, none)
          ]).0
  proposed none h = c
  proposed (some rows) h = ground (arith, c, with_proposals-Consistent t rows c h)

  pub save_proposals-Consistent :
      (id : Str) (ps : List Proposal) → Consistent (save_proposals db id ps t).0
  unfolding save_proposals
  save_proposals-Consistent id ps =
      let kept = keep (λ e. not (str_eq e.0 id)) t.proposals in
      let o = insert_proposals db (has_key (λ r. r.id) id t.runs) id 0 ps kept in
      ground (
        arith,
        c,
        proposed o (
            inserted_proposals id 0 ps kept
              (All-keep (HasRun t.runs) (λ e. not (str_eq e.0 id)) t.proposals c.proposal_runs)),
      )

  pub finished_tables-Consistent :
      (clock : Clock) (now : ℤ) (id document : Str) (counts : Counts) (findings : List Finding)
      (old : Run)
      → find_by (λ r. r.id) id t.runs ≡ some old
      → Consistent (finished_tables clock now id document counts findings old t)
  finished_tables-Consistent clock now id document counts findings old h =
      let f = finished_row clock now document counts old in
      let kept = keep (λ e. not (of_run id e)) t.findings in
      let more : Tables = record t { findings = kept ++ tagged id findings } in
      set_row-Consistent id f (λ r. (refl, refl)) more
        (with_findings-Consistent t (kept ++ tagged id findings) c (
          All-append (HasRun t.runs) kept (tagged id findings)
            (All-keep (HasRun t.runs) (λ e. not (of_run id e)) t.findings c.finding_runs)
            (tagged-HasRun id t.runs findings (has_key-found id old t.runs h))))

  pub finish_run-Consistent :
      (clock : Clock) (now : ℤ) (id document : Str) (counts : Counts) (findings : List Finding)
      → Consistent (finish_run db clock now id document counts findings t).0
  finish_run-Consistent clock now id document counts findings =
      by_outcome (finish_run db clock now id document counts findings t)
        (finish_run-Settled db clock now id document counts findings t)
    where
      by_outcome :
          (o : Outcome) → Settled db clock now id document counts findings t o → Consistent o.0
      by_outcome (t', none) h =
          subst Consistent (sym h.recorded)
            (finished_tables-Consistent clock now id document counts findings h.old h.found)
      by_outcome (t', some e) h = subst Consistent (sym h) c
