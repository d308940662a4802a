-- ===== src/Runs/Recorded.antt =====
-- internal/runs/runs.go: a run that was started ends, and its row says how.
use veritix.Base.{
  ◌∷◌, [], ◌≡◌, refl, ap, sym, ◌∙◌, subst, arith, Bool, true, false, not, Option, none, some, List,
  Str, codes, str_eq, if◌then◌else◌, keep, Option-cases, inl, inr,
}
use veritix.Base.Int.{ℤ}
use veritix.Base.Walk.{has_key, find_by, has_key-find_by, is_some}
use veritix.Store.Model.{
  Status, running, succeeded, failed, canceled, terminal, same_status, Run, Tables, Clock,
  duration_of, Database, Outcome, read, write,
}
use veritix.Store.Write.{
  set_row, update, start_run, stop_run, finish_run, save_trace, save_proposals,
}
use veritix.Store.Replaced.{find_by-set_row, others-set_row}
use veritix.Store.Atomic.{IsAtomic, finish_run-IsAtomic}
use veritix.Runs.Execute.{
  World, Result, ExecuteError, audit_failed, audit_done, audit_error, store_error, context_error,
  encode_error, give_up, keep_trace, keep_proposals, Suggestion, record_result, execute, baseline,
  store_findings,
}

abbrev row_of : Str → Tables → Option Run
row_of run t = find_by (λ r. r.id) run t.runs

abbrev others_of : Str → Tables → List Run
others_of run t = keep (λ r. not (str_eq r.id run)) t.runs

abbrev is_none : {A : Type 0} → Option A → Bool
is_none none = true
is_none (some x) = false

-- The row of a run is terminal, says that the run succeeded exactly where there is no error, and the
-- other runs are as they were.
pub record Ended (run : Str) (t : Tables) (o : Tables × Option ExecuteError) : Type 0 where
  pub row : Run
  pub there : row_of run o.0 ≡ some row
  pub is_terminal : terminal row.status ≡ true
  pub agrees : same_status row.status succeeded ≡ is_none o.1
  pub others : others_of run o.0 ≡ others_of run t

-- A run that is there, in tables that differ from the first in no other run.
record Alive (run : Str) (t t' : Tables) : Type 0 where
  pub old : Run
  pub there : row_of run t' ≡ some old
  pub others : others_of run t' ≡ others_of run t

update_run :
    (db : Database) (run : Str) (f : Run → Run) (t : Tables) (old : Run)
    → db write ≡ true
    → row_of run t ≡ some old
    → update db run f t ≡ (record t { runs = set_row run f t.runs }, none)
unfolding update
update_run db run f t old up h =
    ground (arith, up, has_key-find_by (λ r. r.id) run t.runs, ap is_some h)

-- The tables after a run was stopped.
abbrev stopped_row : Clock → ℤ → Status → Str → Run → Run → Run
stopped_row clock now status message old r = record r {
  status = status;
  message = message;
  finished_at = clock.format_time now;
  duration_ms = duration_of clock old.started_at now;
}

stop_run_lem :
    (db : Database) (clock : Clock) (now : ℤ) (run : Str) (status : Status) (message : Str)
    (t : Tables) (old : Run)
    → db read ≡ true
    → db write ≡ true
    → terminal status ≡ true
    → row_of run t ≡ some old
    → stop_run db clock now run status message t
      ≡ (record t { runs = set_row run (stopped_row clock now status message old) t.runs }, none)
unfolding stop_run
stop_run_lem db clock now run status message t old r u k h =
    ground
      (arith, r, u, k, h, update_run db run (stopped_row clock now status message old) t old u h)

module _ {Doc : Type 0} (w : World Doc) (run : Str) (t : Tables) (r : w.stopping read ≡ true)
    (u : w.stopping write ≡ true) where
  give_up-Ended :
      (status : Status) (message : Str) (e : ExecuteError) (t' : Tables)
      → terminal status ≡ true
      → same_status status succeeded ≡ false
      → Alive run t t'
      → Ended run t (give_up w run status message e t')
  unfolding give_up
  give_up-Ended status message e t' k n a =
      let f = stopped_row w.clock w.ended_at status message a.old in
      let stopped =
        stop_run_lem w.stopping w.clock w.ended_at run status message t' a.old r u k a.there in
      subst (λ o. Ended run t (o.0, some e)) (sym stopped)
        (record {
          row = f a.old;
          there = find_by-set_row run f a.old t'.runs (λ x. refl) a.there;
          is_terminal = k;
          agrees = n;
          others = others-set_row run f t'.runs (λ x. refl) ∙ a.others;
        })

  keep_trace-runs : (x : Option (Option Str)) (t' : Tables) → (keep_trace w run x t').runs ≡ t'.runs
  unfolding keep_trace save_trace
  keep_trace-runs none t' = refl
  keep_trace-runs (some none) t' = refl
  keep_trace-runs (some (some body)) t' = ground arith

  keep_proposals-runs :
      (ps : List Suggestion) (t' : Tables) → (keep_proposals w run ps t').runs ≡ t'.runs
  unfolding keep_proposals save_proposals
  keep_proposals-runs [] t' = refl
  keep_proposals-runs (p ∷ ps) t' = ground arith

  if_Ended :
      (b : Bool) (x y : Tables × Option ExecuteError)
      → Ended run t x
      → Ended run t y
      → Ended run t (if b then x else y)
  if_Ended true x y h k = h
  if_Ended false x y h k = k

  -- The end of `FinishRun`.
  finished :
      (res : Result) (body : Str) (t' : Tables) (o : Outcome)
      → Alive run t t'
      → IsAtomic w.finishing w.clock w.ended_at run body res.counts
          (store_findings w.sum256 0 res.findings)
          t'
          o
      → Ended run t (elim (o.1) as (λ x. Tables × Option ExecuteError) [
        | some e ↦
            give_up w run failed (codes "the results could not be stored") (store_error e) o.0
        | none ↦ (keep_trace w run res.trace (keep_proposals w run res.proposals o.0), none)
      ])
  unfolding terminal
  finished res body t' (t'', some e) a h =
      give_up-Ended failed (codes "the results could not be stored") (store_error e) t'' refl refl
        (subst (Alive run t) (sym h) a)
  finished res body t' (t'', none) a h =
      let proposed = keep_proposals w run res.proposals t'' in
      let same = keep_trace-runs res.trace proposed ∙ keep_proposals-runs res.proposals t'' in
      record {
        row = _;
        there = ap (find_by (λ x. x.id) run) same ∙ h.row;
        is_terminal = refl;
        agrees = refl;
        others = ap (keep (λ x. not (str_eq x.id run))) same ∙ (h.other_runs ∙ a.others);
      }

  record_result-Ended :
      (res : Result) (t' : Tables) → Alive run t t' → Ended run t (record_result w run res t')
  unfolding record_result terminal
  record_result-Ended res t' a =
      if_Ended w.canceled_later _ _
        (give_up-Ended canceled (codes "canceled") context_error t' refl refl a)
        (by_report (w.report (baseline w run t') res))
    where
      by_report :
          (o : Option Str)
          → Ended run t (elim o as (λ x. Tables × Option ExecuteError) [
            | none ↦ give_up w run failed (codes "the report could not be encoded") encode_error t'
            | some body ↦
                let o =
                  finish_run w.finishing w.clock w.ended_at run body res.counts
                    (store_findings w.sum256 0 res.findings)
                    t' in
                elim (o.1) [
                  | some e ↦
                      give_up w run failed
                        (codes "the results could not be stored")
                        (store_error e)
                        o.0
                  | none ↦
                      (keep_trace w run res.trace (keep_proposals w run res.proposals o.0), none)
                ]
          ])
      by_report none =
          give_up-Ended failed (codes "the report could not be encoded") encode_error t' refl refl a
      by_report (some body) =
          let fs = store_findings w.sum256 0 res.findings in
          finished res body t' (finish_run w.finishing w.clock w.ended_at run body res.counts fs t')
            a (finish_run-IsAtomic w.finishing w.clock w.ended_at run body res.counts fs t')

  audited-Ended :
      (t' : Tables)
      → Alive run t t'
      → Ended run t (elim (w.audit) as (λ x. Tables × Option ExecuteError) [
        | audit_failed message ↦
            if w.canceled_then
            then give_up w run canceled (codes "canceled") (audit_error message) t'
            else give_up w run failed message (audit_error message) t'
        | audit_done res ↦ record_result w run res t'
      ])
  unfolding terminal
  audited-Ended t' a =
      elim (w.audit)
        as (λ x. Ended run t (elim x as (λ x. Tables × Option ExecuteError) [
          | audit_failed message ↦
              if w.canceled_then
              then give_up w run canceled (codes "canceled") (audit_error message) t'
              else give_up w run failed message (audit_error message) t'
          | audit_done res ↦ record_result w run res t'
        ])) [
          | audit_failed message ↦
              if_Ended w.canceled_then _ _
                (give_up-Ended canceled (codes "canceled") (audit_error message) t' refl refl a)
                (give_up-Ended failed message (audit_error message) t' refl refl a)
          | audit_done res ↦ record_result-Ended res t' a
        ]

-- What `Execute` does after `StartRun`.
abbrev after_start : {Doc : Type 0} → World Doc → Str → Outcome → Tables × Option ExecuteError
after_start w run (t', some e) = (t', some (store_error e))
after_start w run (t', none) = elim (w.audit) [
  | audit_failed message ↦
      if w.canceled_then
      then give_up w run canceled (codes "canceled") (audit_error message) t'
      else give_up w run failed message (audit_error message) t'
  | audit_done res ↦ record_result w run res t'
]

-- A run that is in the store ends, if StartRun and StopRun find a database that answers,
-- whatever the audit, the report, the context and the transaction of FinishRun do: afterwards
-- its row is terminal, it says succeeded exactly if Execute returned no error, and the rows of
-- the other runs are as they were.
pub execute-Ended :
    {Doc : Type 0} (w : World Doc) (run : Str) (t : Tables)
    → w.starting write ≡ true
    → w.stopping read ≡ true
    → w.stopping write ≡ true
    → has_key (λ r. r.id) run t.runs ≡ true
    → Ended run t (execute w run t)
unfolding execute start_run
execute-Ended w run t s r u h = elim (Option-cases (row_of run t)) [
  | inl e ↦ absurd (ground (arith, h, has_key-find_by (λ x. x.id) run t.runs, ap is_some e))
  | inr (old, e) ↦
      let f : Run → Run =
        λ x. record x { status = running; started_at = w.clock.format_time w.started_at } in
      let started : Tables = record t { runs = set_row run f t.runs } in
      let alive : Alive run t started = record {
        old = f old;
        there = find_by-set_row run f old t.runs (λ x. refl) e;
        others = others-set_row run f t.runs (λ x. refl);
      } in
      let k = update_run w.starting run f t old s e in
      subst (λ (o : Outcome). Ended run t (after_start w run o)) (sym k)
        (audited-Ended w run t r u started alive)
]
