-- ===== src/Store/Read.antt =====
-- internal/store/runs.go: the operations that read the tables. `ORDER BY` is a stable sort: rows that
-- the order does not tell apart stay as they are in the table, which the database leaves open.
use veritix.Base.{
  Bool, false, not, ◌&&◌, ◌||◌, Option, none, some, List, [], ◌∷◌, Str, str_eq, str_lt,
  if◌then◌else◌, keep, take, ltb, map,
}
use veritix.Base.Int.{ℤ, pos, pos_part, ltb_ℤ}
use veritix.Base.Sort.{sort_by}
use veritix.Base.Walk.{find_by}
use veritix.Store.Model.{
  pending, running, succeeded, same_status, Run, Finding, Tables, Clock, read, Database,
}

-- `ORDER BY created_at DESC`
abbrev pub later : Run → Run → Bool
later a b = str_lt b.created_at a.created_at

abbrev pub head_of : {A : Type 0} → List A → Option A
head_of [] = none
head_of (x ∷ xs) = some x

abbrev pub newest : List Run → Option Run
newest rows = head_of (sort_by later rows)

abbrev pub in_flight : Run → Bool
in_flight r = same_status r.status pending || same_status r.status running

-- The rows that `PreviousRun` chooses from.
unfoldable pub is_earlier_success : Run → Run → Bool
is_earlier_success cur r =
    str_eq r.dataset_id cur.dataset_id
    && (same_status r.status succeeded && str_lt r.created_at cur.created_at)

abbrev pub holds_database : Run → Bool
holds_database r = not (str_eq r.database_path [])

abbrev pub holds_for : Str → Run → Bool
holds_for dataset r = str_eq r.dataset_id dataset && holds_database r

-- The most recent run of a dataset that still holds its data.
unfoldable pub holder : Tables → Str → Option Run
holder t dataset = newest (keep (holds_for dataset) t.runs)

unfoldable pub is_discardable : Clock → ℤ → Tables → Run → Bool
unfolding holder
is_discardable clock before t r =
    holds_database r
    && (not (str_eq r.finished_at [])
        && (str_lt r.finished_at (clock.format_time before)
            && elim (holder t r.dataset_id) [ none ↦ false | some h ↦ not (str_eq r.id h.id) ]))

module _ (db : Database) where
  -- `Run`
  unfoldable pub run_by_id : Str → Tables → Option Run
  run_by_id id t = if not (db read) then none else find_by (λ r. r.id) id t.runs

  unfoldable pub previous_run : Str → Tables → Option Run
  unfolding is_earlier_success
  previous_run id t = if not (db read) then none else elim (find_by (λ r. r.id) id t.runs) [
    | none ↦ none
    | some cur ↦ newest (keep (is_earlier_success cur) t.runs)
  ]

  unfoldable pub active_run : Str → Tables → Option Run
  active_run dataset t =
      if not (db read)
      then none
      else newest (keep (λ r. str_eq r.dataset_id dataset && in_flight r) t.runs)

  -- `DiscardableRunDatabases`: none where the query fails.
  unfoldable pub discardable_run_databases : Clock → ℤ → Tables → Option (List Run)
  unfolding is_discardable
  discardable_run_databases clock before t =
      if not (db read)
      then none
      else some (
          keep (λ r. ltb_ℤ (clock.parse_time r.finished_at) before)
            (sort_by (λ a b. str_lt a.finished_at b.finished_at)
              (keep (is_discardable clock before t) t.runs)))

  -- `Runs`, with the limit of 50 where none is given.
  unfoldable pub list_runs : Str → ℤ → Tables → Option (List Run)
  list_runs dataset limit t =
      if not (db read)
      then none
      else let n = if ltb_ℤ (pos 0) limit then pos_part limit else 50 in
        let rows =
          if not (str_eq dataset [])
          then keep (λ r. str_eq r.dataset_id dataset) t.runs
          else t.runs in
        some (take n (sort_by later rows))

  -- `Document`
  unfoldable pub document_of : Str → Tables → Option Str
  document_of id t = if not (db read) then none else elim (find_by (λ r. r.id) id t.runs) [
    | none ↦ none
    | some r ↦ if str_eq r.document [] then none else some r.document
  ]

  -- `Findings`
  unfoldable pub findings_of : Str → Tables → Option (List Finding)
  findings_of id t =
      if not (db read)
      then none
      else some (
          sort_by (λ a b. ltb a.ordinal b.ordinal)
            (map (λ e. e.1) (keep (λ e. str_eq e.0 id) t.findings)))
