-- ===== src/Audit/Tests.antt =====
-- An audit whose profiling fails: a run of the pipeline, and the theorem at it.
use veritix.Base.{◌≡◌, refl, subst, arith, true, false, Option, some, [], Str}
use veritix.Base.Int.{ℤ, pos}
use veritix.Finding.Set.{FindingSet, new_set}
use veritix.Finding.Merge.{Inv, new_set-Inv}
use veritix.Audit.Pipeline.{Options, Stages, run}
use veritix.Audit.Released.{LeavesOnly, has_scratch, run-LeavesOnly}

abbrev options : Options
options = record { database_given = false; has_agent = true; has_servers = true }

abbrev scan : Str → Option ℤ
scan q = some (pos 0)

abbrev stages : Stages
stages = record {
  discovers = true;
  makes_scratch = true;
  opens = true;
  ingests = true;
  profiles = false;
  checks = some new_set;
  rules = some [];
  locks = true;
  connects = true;
  agent = some [];
  verifies = true;
  scan_one = scan;
}

-- The scratch directory is still there after the error.
leaks : (run options stages).1.scratch ≡ true
unfolding run
leaks = refl

checks_well_formed : (s : FindingSet) → some new_set ≡ some s → Inv s
checks_well_formed s e = subst Inv (ground (arith, e)) new_set-Inv

run-LeavesOnly_example : LeavesOnly scan (has_scratch options stages) (run options stages)
run-LeavesOnly_example = run-LeavesOnly options stages checks_well_formed
