-- ===== src/Store/Consistent.antt =====
-- internal/store: what the schema promises of the tables, and that every operation keeps it.
use veritix.Base.{
  ◌≡◌, refl, ap, sym, subst, ◌∙◌, arith, true, List, [], ◌∷◌, Str, str_eq, if◌then◌else◌, map, All,
  All-map,
}
use veritix.Base.Walk.{has_key, DistinctBy}
use veritix.Store.Model.{Dataset, Run, Tables}
use veritix.Store.Write.{set_row}

abbrev pub HasDataset : Tables → Run → Type 0
HasDataset t r = has_key (λ d. d.id) r.dataset_id t.datasets ≡ true

abbrev pub HasRun : {A : Type 0} → List Run → Str × A → Type 0
HasRun rs e = has_key (λ r. r.id) e.0 rs ≡ true

pub record Consistent (t : Tables) : Type 0 where
  pub dataset_ids : DistinctBy (λ d. d.id) t.datasets
  pub dataset_paths : DistinctBy (λ d. d.path) t.datasets
  pub run_ids : DistinctBy (λ r. r.id) t.runs
  pub run_datasets : All (HasDataset t) t.runs
  pub finding_runs : All (HasRun t.runs) t.findings
  pub trace_runs : All (HasRun t.runs) t.traces
  pub proposal_runs : All (HasRun t.runs) t.proposals

-- A change of rows that leaves ids and datasets alone.
abbrev pub Leaves : (Run → Run) → Type 0
Leaves f = (r : Run) → ((f r).id ≡ r.id) × ((f r).dataset_id ≡ r.dataset_id)

has_key-map :
    (f : Run → Run)
    → Leaves f
    → (k : Str) (rs : List Run) → has_key (λ r. r.id) k (map f rs) ≡ has_key (λ r. r.id) k rs
has_key-map f h k [] = refl
has_key-map f h k (r ∷ rs) = ground (arith, has_key-map f h k rs, h r)

distinct-map :
    (f : Run → Run)
    → Leaves f
    → (rs : List Run) → DistinctBy (λ r. r.id) rs
    → DistinctBy (λ r. r.id) (map f rs)
distinct-map f h [] d = tt
distinct-map f h (r ∷ rs) d =
    (ground (arith, has_key-map f h (f r).id rs, h r, d.0), distinct-map f h rs d.1)

datasets-map :
    (f : Run → Run)
    → Leaves f
    → (ds : List Dataset) (rs : List Run) → All (λ r. has_key (λ d. d.id) r.dataset_id ds ≡ true) rs
    → All (λ r. has_key (λ d. d.id) r.dataset_id ds ≡ true) (map f rs)
datasets-map f h ds [] a = tt
datasets-map f h ds (r ∷ rs) a = (ground (arith, h r, a.0), datasets-map f h ds rs a.1)

set_row-map :
    (id : Str) (f : Run → Run) (rs : List Run)
    → set_row id f rs ≡ map (λ r. if str_eq r.id id then f r else r) rs
set_row-map id f [] = refl
set_row-map id f (r ∷ rs) = ap (λ s. (if str_eq r.id id then f r else r) ∷ s) (set_row-map id f rs)

-- Rewriting the rows of runs.
pub map-Consistent :
    (f : Run → Run)
    → Leaves f
    → (t : Tables) → Consistent t
    → Consistent (record t { runs = map f t.runs })
map-Consistent f h t c = record {
  dataset_ids = c.dataset_ids;
  dataset_paths = c.dataset_paths;
  run_ids = distinct-map f h t.runs c.run_ids;
  run_datasets = datasets-map f h t.datasets t.runs c.run_datasets;
  finding_runs = All-map (λ e k. has_key-map f h e.0 t.runs ∙ k) t.findings c.finding_runs;
  trace_runs = All-map (λ e k. has_key-map f h e.0 t.runs ∙ k) t.traces c.trace_runs;
  proposal_runs = All-map (λ e k. has_key-map f h e.0 t.runs ∙ k) t.proposals c.proposal_runs;
}

one_row : (id : Str) (f : Run → Run) → Leaves f → Leaves (λ r. if str_eq r.id id then f r else r)
one_row id f h r = (ground (arith, h r), ground (arith, h r))

pub set_row-Consistent :
    (id : Str) (f : Run → Run)
    → Leaves f
    → (t : Tables) → Consistent t
    → Consistent (record t { runs = set_row id f t.runs })
set_row-Consistent id f h t c =
    subst (λ rs. Consistent (record t { runs = rs })) (sym (set_row-map id f t.runs))
      (map-Consistent (λ r. if str_eq r.id id then f r else r) (one_row id f h) t c)
