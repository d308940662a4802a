-- ===== src/Store/Invariant.antt =====
-- internal/store: every table that the operations can reach is consistent.
use veritix.Base.{
  ◌≡◌, arith, Bool, false, not, List, [], ◌∷◌, ◌++◌, Str, str_eq, keep, All, All-map, All-append,
  All-keep,
}
use veritix.Base.Walk.{has_key}
use veritix.Store.Model.{Dataset, Run, Finding, Tables, Proposal}
use veritix.Store.Rows.{
  has_key-append, distinct_snoc, distinct_keep, has_key-delete, All-kept, All-both,
}
use veritix.Store.Consistent.{Consistent, HasRun, HasDataset}

pub with_dataset-Consistent :
    (t : Tables) (d : Dataset)
    → Consistent t
    → has_key (λ x. x.id) d.id t.datasets ≡ false
    → has_key (λ x. x.path) d.path t.datasets ≡ false
    → Consistent (record t { datasets = t.datasets ++ d ∷ [] })
with_dataset-Consistent t d c h k = record {
  dataset_ids = distinct_snoc (λ x. x.id) t.datasets d c.dataset_ids h;
  dataset_paths = distinct_snoc (λ x. x.path) t.datasets d c.dataset_paths k;
  run_ids = c.run_ids;
  run_datasets =
      All-map
        (λ r e. ground (arith, has_key-append (λ x. x.id) r.dataset_id t.datasets (d ∷ []), e))
        t.runs c.run_datasets;
  finding_runs = c.finding_runs;
  trace_runs = c.trace_runs;
  proposal_runs = c.proposal_runs;
}

pub with_run-Consistent :
    (t : Tables) (r : Run)
    → Consistent t
    → has_key (λ x. x.id) r.id t.runs ≡ false
    → HasDataset t r
    → Consistent (record t { runs = t.runs ++ r ∷ [] })
with_run-Consistent t r c h k = record {
  dataset_ids = c.dataset_ids;
  dataset_paths = c.dataset_paths;
  run_ids = distinct_snoc (λ x. x.id) t.runs r c.run_ids h;
  run_datasets = All-append (HasDataset t) t.runs (r ∷ []) c.run_datasets (k, tt);
  finding_runs =
      All-map (λ e a. ground (arith, has_key-append (λ x. x.id) e.0 t.runs (r ∷ []), a)) t.findings
        c.finding_runs;
  trace_runs =
      All-map (λ e a. ground (arith, has_key-append (λ x. x.id) e.0 t.runs (r ∷ []), a)) t.traces
        c.trace_runs;
  proposal_runs =
      All-map (λ e a. ground (arith, has_key-append (λ x. x.id) e.0 t.runs (r ∷ []), a)) t.proposals
        c.proposal_runs;
}

pub without_dataset-Consistent :
    (t : Tables) (id : Str)
    → Consistent t
    → (let runs = keep (λ r. not (str_eq r.dataset_id id)) t.runs in
        Consistent (record t {
          datasets = keep (λ d. not (str_eq d.id id)) t.datasets;
          runs = runs;
          findings = keep (λ f. has_key (λ r. r.id) f.0 runs) t.findings;
          traces = keep (λ e. has_key (λ r. r.id) e.0 runs) t.traces;
          proposals = keep (λ e. has_key (λ r. r.id) e.0 runs) t.proposals;
        }))
without_dataset-Consistent t id c = record {
  dataset_ids = distinct_keep (λ d. d.id) (λ d. not (str_eq d.id id)) t.datasets c.dataset_ids;
  dataset_paths =
      distinct_keep (λ d. d.path) (λ d. not (str_eq d.id id)) t.datasets c.dataset_paths;
  run_ids = distinct_keep (λ r. r.id) (λ r. not (str_eq r.dataset_id id)) t.runs c.run_ids;
  run_datasets =
      let mine : Run → Bool = λ r. not (str_eq r.dataset_id id) in
      All-both
        (λ r h k. has_key-delete (λ d. d.id) id r.dataset_id t.datasets h (ground (arith, k)))
        (keep mine t.runs) (All-keep (HasDataset t) mine t.runs c.run_datasets)
        (All-kept mine t.runs);
  finding_runs =
      All-kept (λ f. has_key (λ r. r.id) f.0 (keep (λ r. not (str_eq r.dataset_id id)) t.runs))
        t.findings;
  trace_runs =
      All-kept (λ f. has_key (λ r. r.id) f.0 (keep (λ r. not (str_eq r.dataset_id id)) t.runs))
        t.traces;
  proposal_runs =
      All-kept (λ f. has_key (λ r. r.id) f.0 (keep (λ r. not (str_eq r.dataset_id id)) t.runs))
        t.proposals;
}

pub with_findings-Consistent :
    (t : Tables) (rows : List (Str × Finding))
    → Consistent t
    → All (HasRun t.runs) rows
    → Consistent (record t { findings = rows })
with_findings-Consistent t rows c h = record {
  dataset_ids = c.dataset_ids;
  dataset_paths = c.dataset_paths;
  run_ids = c.run_ids;
  run_datasets = c.run_datasets;
  finding_runs = h;
  trace_runs = c.trace_runs;
  proposal_runs = c.proposal_runs;
}

pub with_traces-Consistent :
    (t : Tables) (rows : List (Str × Str))
    → Consistent t
    → All (HasRun t.runs) rows
    → Consistent (record t { traces = rows })
with_traces-Consistent t rows c h = record {
  dataset_ids = c.dataset_ids;
  dataset_paths = c.dataset_paths;
  run_ids = c.run_ids;
  run_datasets = c.run_datasets;
  finding_runs = c.finding_runs;
  trace_runs = h;
  proposal_runs = c.proposal_runs;
}

pub with_proposals-Consistent :
    (t : Tables) (rows : List (Str × Proposal))
    → Consistent t
    → All (HasRun t.runs) rows
    → Consistent (record t { proposals = rows })
with_proposals-Consistent t rows c h = record {
  dataset_ids = c.dataset_ids;
  dataset_paths = c.dataset_paths;
  run_ids = c.run_ids;
  run_datasets = c.run_datasets;
  finding_runs = c.finding_runs;
  trace_runs = c.trace_runs;
  proposal_runs = h;
}
