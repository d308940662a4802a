-- ===== src/Store/Atomic.antt =====
-- internal/store/runs.go: `FinishRun` records all of a run or nothing.
use veritix.Base.{
  ◌≡◌, refl, ap, sym, ◌∙◌, subst, Bool, true, false, not, Option, none, some, List, ◌++◌, Str,
  str_eq, if◌then◌else◌, keep, keep-append,
}
use veritix.Base.Int.{ℤ}
use veritix.Base.Walk.{find_by}
use veritix.Store.Model.{
  Run, Finding, Counts, Tables, Failure, broken, not_found, Clock, begin, read_started, update_row,
  delete_old, prepare, commit, Database, Outcome,
}
use veritix.Store.Write.{set_row, insert_findings, finish_steps, finish_run}
use veritix.Store.Replaced.{
  finished_row, of_run, tagged, finished_tables, InsertedAs, insert_findings_lem, append_nil,
  find_by-set_row, others-set_row, own-cleared, others-cleared, own-tagged, others-tagged, ap2,
}

-- What a transaction ends in: a failure, or the tables with the results of a run that exists.
pub record Finished (clock : Clock) (now : ℤ) (id document : Str) (counts : Counts)
    (findings : List Finding) (t t' : Tables) : Type 0 where
  pub old : Run
  pub found : find_by (λ r. r.id) id t.runs ≡ some old
  pub recorded : t' ≡ finished_tables clock now id document counts findings old t

-- What a reader finds after a run was recorded.
pub record Recorded (clock : Clock) (now : ℤ) (id document : Str) (counts : Counts)
    (findings : List Finding) (t t' : Tables) : Type 0 where
  pub old : Run
  pub was_there : find_by (λ r. r.id) id t.runs ≡ some old
  pub row : find_by (λ r. r.id) id t'.runs ≡ some (finished_row clock now document counts old old)
  pub own_findings : keep (of_run id) t'.findings ≡ tagged id findings
  pub other_runs :
      keep (λ r. not (str_eq r.id id)) t'.runs ≡ keep (λ r. not (str_eq r.id id)) t.runs
  pub other_findings :
      keep (λ e. not (of_run id e)) t'.findings ≡ keep (λ e. not (of_run id e)) t.findings
  pub datasets_same : t'.datasets ≡ t.datasets
  pub traces_same : t'.traces ≡ t.traces
  pub proposals_same : t'.proposals ≡ t.proposals

Finished-Recorded :
    (clock : Clock) (now : ℤ) (id document : Str) (counts : Counts) (findings : List Finding)
    (t t' : Tables)
    → Finished clock now id document counts findings t t'
    → Recorded clock now id document counts findings t t'
Finished-Recorded clock now id document counts findings t t' h =
    subst (λ x. Recorded clock now id document counts findings t x) (sym h.recorded)
      (record {
        old = h.old;
        was_there = h.found;
        row =
            find_by-set_row id (finished_row clock now document counts h.old) h.old t.runs
              (λ r. refl) h.found;
        own_findings =
            keep-append (of_run id) (keep (λ e. not (of_run id e)) t.findings) (tagged id findings)
            ∙ ap2 (own-cleared id t.findings) (own-tagged id findings);
        other_runs =
            others-set_row id (finished_row clock now document counts h.old) t.runs (λ r. refl);
        other_findings =
            keep-append (λ e. not (of_run id e)) (keep (λ e. not (of_run id e)) t.findings)
              (tagged id findings)
            ∙ (ap2 (others-cleared id t.findings) (others-tagged id findings)
                ∙ append_nil (keep (λ e. not (of_run id e)) t.findings));
        datasets_same = refl;
        traces_same = refl;
        proposals_same = refl;
      })

module _ (db : Database) (clock : Clock) (now : ℤ) (id document : Str) (counts : Counts)
    (findings : List Finding) (t : Tables) where
  AllOrNone : Option Failure → Tables → Type 0
  AllOrNone none t' = Finished clock now id document counts findings t t'
  AllOrNone (some e) t' = Unit

  abbrev Ended : Option Failure × Tables → Type 0
  Ended r = AllOrNone r.0 r.1

  -- A statement that may fail, before the rest.
  guarded :
      (up : Bool) (t' : Tables) (r : Option Failure × Tables)
      → Ended r
      → Ended (if not up then (some broken, t') else r)
  unfolding AllOrNone
  guarded true t' r h = h
  guarded false t' r h = tt

  inserted_all :
      (old : Run) (o : Option (List (Str × Finding))) (cleared : Tables)
      → find_by (λ r. r.id) id t.runs ≡ some old
      → cleared ≡ record t {
        runs = set_row id (finished_row clock now document counts old) t.runs;
        findings = keep (λ e. not (of_run id e)) t.findings;
      }
      → InsertedAs (keep (λ e. not (of_run id e)) t.findings ++ tagged id findings) o
      → Ended (elim o [
        | none ↦ (some broken, cleared)
        | some rows ↦ (none, record cleared { findings = rows })
      ])
  unfolding AllOrNone
  inserted_all old none cleared f k h = tt
  inserted_all old (some rows) cleared f k h = record {
    old = old;
    found = f;
    recorded =
        ap {A = Tables} (λ c. record c { findings = rows }) k
        ∙ ap {A = List (Str × Finding)}
            (λ fs. record t {
              runs = set_row id (finished_row clock now document counts old) t.runs;
              findings = fs;
            })
            h;
  }

  from_row :
      (o : Option Run)
      → find_by (λ r. r.id) id t.runs ≡ o
      → Ended (elim o [
        | none ↦ (some not_found, t)
        | some old ↦
            let updated = record t {
              runs = set_row id (finished_row clock now document counts old) t.runs;
            } in
            let cleared = record updated { findings = keep (λ e. not (of_run id e)) t.findings } in
            if not (db update_row)
            then (some broken, t)
            else if not (db delete_old)
            then (some broken, updated)
            else if not (db prepare)
            then (some broken, cleared)
            else elim (insert_findings db id 0 findings cleared.findings) [
              | none ↦ (some broken, cleared)
              | some rows ↦ (none, record cleared { findings = rows })
            ]
      ])
  unfolding AllOrNone
  from_row none f = tt
  from_row (some old) f =
      let updated : Tables = record t {
        runs = set_row id (finished_row clock now document counts old) t.runs;
      } in
      let cleared : Tables = record updated {
        findings = keep (λ e. not (of_run id e)) t.findings;
      } in
      let last =
        elim (insert_findings db id 0 findings cleared.findings) as (λ x. Option Failure × Tables) [
          | none ↦ (some broken, cleared)
          | some rows ↦ (none, record cleared { findings = rows })
        ] in
      let done =
        inserted_all old (insert_findings db id 0 findings cleared.findings) cleared f refl
          (insert_findings_lem db id 0 findings cleared.findings) in
      let prepared = guarded (db prepare) cleared last done in
      let deleted =
        guarded (db delete_old) updated (if not (db prepare) then (some broken, cleared) else last)
          prepared in
      guarded (db update_row) t
        (if not (db delete_old)
          then (some broken, updated)
          else if not (db prepare)
          then (some broken, cleared)
          else last)
        deleted

  finish_steps-Ended : Ended (finish_steps db clock now id document counts findings t)
  unfolding finish_steps
  finish_steps-Ended = guarded (db read_started) t _ (from_row (find_by (λ r. r.id) id t.runs) refl)

  abbrev pub Settled : Outcome → Type 0
  Settled (t', none) = Finished clock now id document counts findings t t'
  Settled (t', some e) = t' ≡ t

  -- The end of the transaction, by what its statements ended in.
  closed :
      (up : Bool) (r : Option Failure × Tables)
      → Ended r
      → Settled (elim (r.0) as (λ x. Outcome) [
        | some e ↦ (t, some e)
        | none ↦ if not up then (t, some broken) else (r.1, none)
      ])
  unfolding AllOrNone
  closed up (some e, t') h = refl
  closed true (none, t') h = h
  closed false (none, t') h = refl

  pub finish_run-Settled : Settled (finish_run db clock now id document counts findings t)
  unfolding finish_run
  finish_run-Settled = begun (db begin)
    where
      begun :
          (up : Bool)
          → Settled (
              if not up
              then (t, some broken)
              else (elim ((finish_steps db clock now id document counts findings t).0)
                  as (λ x. Outcome) [
                    | some e ↦ (t, some e)
                    | none ↦
                        if not (db commit)
                        then (t, some broken)
                        else ((finish_steps db clock now id document counts findings t).1, none)
                  ]))
      begun true =
          closed (db commit) (finish_steps db clock now id document counts findings t)
            finish_steps-Ended
      begun false = refl

  abbrev pub IsAtomic : Outcome → Type 0
  IsAtomic (t', none) = Recorded clock now id document counts findings t t'
  IsAtomic (t', some e) = t' ≡ t

  settled-IsAtomic : (o : Outcome) → Settled o → IsAtomic o
  settled-IsAtomic (t', none) h = Finished-Recorded clock now id document counts findings t t' h
  settled-IsAtomic (t', some e) h = h

  -- FinishRun records all or nothing: with an error the tables are as they were; without one the
  -- run was there, its row carries the outcome, its findings are exactly those given, and
  -- nothing of the other runs has changed.
  pub finish_run-IsAtomic : IsAtomic (finish_run db clock now id document counts findings t)
  finish_run-IsAtomic =
      settled-IsAtomic (finish_run db clock now id document counts findings t) finish_run-Settled
