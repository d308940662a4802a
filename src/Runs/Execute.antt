-- ===== src/Runs/Execute.antt =====
-- internal/runs/runs.go: `Execute`, `baseline`, `storeFindings` and `storeProposals`. The audit
-- pipeline, the report and its encodings, the context and the answers of the database are parameters.
use veritix.Base.{ℕ, suc, Bool, Option, none, some, List, [], ◌∷◌, Str, codes, if◌then◌else◌}
use veritix.Base.Int.{ℤ}
use veritix.Finding.Severity.{severity_string}
use veritix.Finding.Model.{id}
use veritix.Finding.Model
use veritix.Store.Model.{
  Proposal, Status, failed, canceled, Counts, Tables, Failure, Clock, Database, Finding,
}
use veritix.Store.Write.{start_run, stop_run, finish_run, save_trace, save_proposals}
use veritix.Store.Read.{previous_run, document_of}

-- A proposal of the agent, with its encoding, where it can be encoded.
pub record Suggestion : Type 0 where
  pub id : Str
  pub rule : Str
  pub encoded : Option Str

-- What `audit.Run` returns, as far as it is recorded: the findings in report order, and the encoding
-- of the trace, where there is a trace and where it can be encoded.
pub record Result : Type 0 where
  pub findings : List Model.Finding
  pub counts : Counts
  pub trace : Option (Option Str)
  pub proposals : List Suggestion

pub data AuditEnd : Type 0 where
  audit_failed : Str → AuditEnd
  audit_done : Result → AuditEnd

-- Why a run did not finish.
pub data ExecuteError : Type 0 where
  store_error : Failure → ExecuteError
  audit_error : Str → ExecuteError
  context_error encode_error : ExecuteError

-- What the run meets on its way: the database at each of its steps, whether the context was canceled
-- after the audit and after the report, the times, and the pipeline. `report` builds the document
-- against a baseline and encodes it; `decode` reads an old document.
pub record World (Doc : Type 0) : Type 0 where
  pub starting : Database
  pub looking : Database
  pub stopping : Database
  pub finishing : Database
  pub tracing : Database
  pub proposing : Database
  pub canceled_then : Bool
  pub canceled_later : Bool
  pub clock : Clock
  pub started_at : ℤ
  pub ended_at : ℤ
  pub audit : AuditEnd
  pub decode : Str → Option Doc
  pub report : Option (Doc × Str) → Result → Option Str
  pub sum256 : Str → Str

-- `storeFindings`
unfoldable pub store_findings : (Str → Str) → ℕ → List Model.Finding → List Finding
unfolding id
store_findings sum256 i [] = []
store_findings sum256 i (f ∷ fs) =
    record {
      id = id sum256 f;
      ordinal = i;
      rule = f.rule;
      severity = severity_string f.severity;
      title = f.title;
      table = f.location.table;
      column = f.location.column;
      row_query = f.evidence.row_query;
    }
    ∷ store_findings sum256 (suc i) fs

unfoldable pub baseline : {Doc : Type 0} → World Doc → Str → Tables → Option (Doc × Str)
baseline w run t = elim (previous_run w.looking run t) [
  | none ↦ none
  | some prev ↦ elim (document_of w.looking prev.id t) [
    | none ↦ none
    | some body ↦ elim (w.decode body) [ none ↦ none | some doc ↦ some (doc, prev.id) ]
  ]
]

-- The end of a run that did not finish: the failure is recorded if the store lets it.
unfoldable pub give_up :
    {Doc : Type 0}
    → World Doc
    → Str
    → Status
    → Str
    → ExecuteError
    → Tables
    → Tables × Option ExecuteError
give_up w run status message e t =
    ((stop_run w.stopping w.clock w.ended_at run status message t).0, some e)

-- The trace of a run that finished: its loss does not fail the run.
unfoldable pub keep_trace : {Doc : Type 0} → World Doc → Str → Option (Option Str) → Tables → Tables
keep_trace w run none t = t
keep_trace w run (some none) t = t
keep_trace w run (some (some body)) t = (save_trace w.tracing run body t).0

-- `storeProposals`: what cannot be encoded is left out.
unfoldable pub store_proposals : ℕ → List Suggestion → List Proposal
store_proposals i [] = []
store_proposals i (p ∷ ps) =
    let rest = store_proposals (suc i) ps in
    elim p.encoded [
      | none ↦ rest
      | some body ↦ record { id = p.id; ordinal = i; rule = p.rule; document = body } ∷ rest
    ]

-- The proposals of a run that finished: their loss does not fail the run.
unfoldable pub keep_proposals : {Doc : Type 0} → World Doc → Str → List Suggestion → Tables → Tables
unfolding store_proposals
keep_proposals w run [] t = t
keep_proposals w run (p ∷ ps) t = (save_proposals w.proposing run (store_proposals 0 (p ∷ ps)) t).0

-- From the report on.
unfoldable pub record_result :
    {Doc : Type 0} → World Doc → Str → Result → Tables → Tables × Option ExecuteError
unfolding baseline give_up keep_trace keep_proposals store_findings
record_result w run res t =
    if w.canceled_later
    then give_up w run canceled (codes "canceled") context_error t
    else elim (w.report (baseline w run t) res) [
      | none ↦ give_up w run failed (codes "the report could not be encoded") encode_error t
      | some body ↦
          let (t', failure) =
            finish_run w.finishing w.clock w.ended_at run body res.counts
              (store_findings w.sum256 0 res.findings) t in
          elim failure [
            | some e ↦
                give_up w run failed (codes "the results could not be stored") (store_error e) t'
            | none ↦ (keep_trace w run res.trace (keep_proposals w run res.proposals t'), none)
          ]
    ]

unfoldable pub execute : {Doc : Type 0} → World Doc → Str → Tables → Tables × Option ExecuteError
unfolding record_result
execute w run t =
    let (t', failure) = start_run w.starting run (w.clock.format_time w.started_at) t in
    elim failure [
      | some e ↦ (t', some (store_error e))
      | none ↦ elim w.audit [
        | audit_failed message ↦
            if w.canceled_then
            then give_up w run canceled (codes "canceled") (audit_error message) t'
            else give_up w run failed message (audit_error message) t'
        | audit_done res ↦ record_result w run res t'
      ]
    ]
