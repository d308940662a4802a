-- ===== src/Runs/Tests.antt =====
-- One run of a dataset, executed: the theorem at it.
use veritix.Base.{◌≡◌, refl, true, false, some, [], ◌∷◌, Str, codes, str_eq}
use veritix.Base.Int.{pos}
use veritix.Base.Walk.{has_key}
use veritix.Store.Model.{Run, Tables, Database, pending}
use veritix.Runs.Execute.{World, audit_failed, execute}
use veritix.Runs.Recorded.{Ended, execute-Ended}

abbrev up : Database
up s = true

abbrev queued : Run
queued = record {
  id = codes "r1";
  dataset_id = codes "d";
  status = pending;
  message = [];
  version = [];
  database_path = [];
  created_at = codes "2026-01-02T00:00:00Z";
  started_at = [];
  finished_at = [];
  duration_ms = pos 0;
  errors = pos 0;
  warnings = pos 0;
  infos = pos 0;
  document = [];
}

abbrev tables : Tables
tables = record {
  datasets =
      record { id = codes "d"; name = []; path = codes "/data"; uploaded = false; created_at = [] }
      ∷ [];
  runs = queued ∷ [];
  findings = [];
  traces = [];
  proposals = [];
}

-- The audit fails.
abbrev world : World Str
world = record {
  starting = up;
  looking = up;
  stopping = up;
  finishing = up;
  tracing = up;
  proposing = up;
  canceled_then = false;
  canceled_later = false;
  clock = record {
    format_time = λ t. codes "2026-01-05T00:00:00Z";
    parse_time = λ s. pos 0;
    zero_time = pos 0;
  };
  started_at = pos 1;
  ended_at = pos 2;
  audit = audit_failed (codes "no tables");
  decode = λ s. some s;
  report = λ b r. some (codes "{}");
  sum256 = λ s. s;
}

queued_there : has_key (λ r. r.id) (codes "r1") tables.runs ≡ true
unfolding str_eq
queued_there = refl

execute-Ended_example : Ended (codes "r1") tables (execute world (codes "r1") tables)
execute-Ended_example = execute-Ended world (codes "r1") tables refl refl refl queued_there
