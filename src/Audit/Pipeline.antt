-- ===== src/Audit/Pipeline.antt =====
-- internal/audit/audit.go: `Run` and `Result.Close`. What each stage returns is a parameter; the
-- findings go through the operations of a set of findings.
use veritix.Base.{Bool, true, false, not, ◌&&◌, ◌||◌, Option, none, some, List, Str, if◌then◌else◌}
use veritix.Base.Int.{ℤ}
use veritix.Finding.Model.{Finding}
use veritix.Finding.Set.{FindingSet, add_all, verify}

-- What a run holds: the engine, whether it is locked down, the context servers and the scratch
-- directory; and whether a model was run while the engine was not locked down.
pub record Held : Type 0 where
  pub engine : Bool
  pub locked : Bool
  pub servers : Bool
  pub scratch : Bool
  pub unlocked_model : Bool

abbrev pub nothing : Held
nothing = record {
  engine = false;
  locked = false;
  servers = false;
  scratch = false;
  unlocked_model = false;
}

pub record Options : Type 0 where
  pub database_given : Bool
  pub has_agent : Bool
  pub has_servers : Bool

-- What the stages return; none is an error.
pub record Stages : Type 0 where
  pub discovers : Bool
  pub makes_scratch : Bool
  pub opens : Bool
  pub ingests : Bool
  pub profiles : Bool
  pub checks : Option FindingSet
  pub rules : Option (List Finding)
  pub locks : Bool
  pub connects : Bool
  pub agent : Option (List Finding)
  pub verifies : Bool
  pub scan_one : Str → Option ℤ

-- `crashed` is an index out of range in `AddAll`.
pub data End : Type 0 where
  failed crashed : End
  done : FindingSet → End

-- A return with an error, after the engine was opened: `e.Close()`, and the deferred calls.
abbrev pub fail_with : Held → End × Held
fail_with h = (failed, record h { engine = false; servers = false })

unfoldable pub verify_phase : Stages → FindingSet → Held → End × Held
verify_phase w found h =
    if not w.verifies
    then fail_with h
    else (done (verify w.scan_one found).0, record h { servers = false })

abbrev pub run_model : Held → Held
run_model h = record h { unlocked_model = h.unlocked_model || not h.locked }

unfoldable pub agent_phase : Options → Stages → FindingSet → Held → End × Held
unfolding verify_phase
agent_phase o w found h =
    if not o.has_agent
    then verify_phase w found h
    else if not w.locks
    then fail_with h
    else let locked : Held = record h { locked = true } in
      if o.has_servers && not w.connects
      then fail_with locked
      else let connected : Held = run_model (record locked { servers = o.has_servers }) in
        elim w.agent [
          | none ↦ fail_with connected
          | some fs ↦ elim (add_all fs found) [
            | none ↦ (crashed, connected)
            | some more ↦ verify_phase w more connected
          ]
        ]

unfoldable pub checks_phase : Options → Stages → Held → End × Held
unfolding agent_phase
checks_phase o w h = elim w.checks [
  | none ↦ fail_with h
  | some found ↦ elim w.rules [
    | none ↦ fail_with h
    | some fs ↦ elim (add_all fs found) [ none ↦ (crashed, h) | some more ↦ agent_phase o w more h ]
  ]
]

unfoldable pub run : Options → Stages → End × Held
unfolding checks_phase
run o w =
    if not w.discovers
    then (failed, nothing)
    else let scratch = not o.database_given && w.makes_scratch in
      if not w.opens
      then (failed, nothing)
      else let h : Held = record nothing { engine = true; scratch = scratch } in
        if not w.ingests
        then fail_with h
        else if not w.profiles
        then fail_with h
        else checks_phase o w h

-- `Result.Close`
abbrev pub close_result : Held → Held
close_result h = record h { engine = false; scratch = false }
