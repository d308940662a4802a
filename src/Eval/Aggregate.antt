-- ===== src/Eval/Aggregate.antt =====
-- internal/eval/score.go: `ScoreChecks` sorts every defect into one place, and `Aggregate` counts what
-- it says it counts.
use veritix.Base.{
  ℕ, suc, ◌+◌, ◌≡◌, ◌≤◌, refl, ap, sym, ◌∙◌, arith, Bool, true, false, not, ◌&&◌, ◌||◌, Option,
  none, some, List, [], ◌∷◌, any_of, map, length, length-append, count_if, All, keep,
}
use veritix.Finding.Model.{Finding, Origin}
use veritix.Eval.Manifest.{Defect, Manifest, agent_targets, is_empty}
use veritix.Eval.Match.{matches_target, converted_by, converts, covers, same_origin}
use veritix.Eval.Score.{
  ChecksScore, Verdict, is_found, is_missed, is_uncovered, is_converted, judge, put, judge_all,
  score_checks, RunScore, Score, TargetScore, TraceInfo, Tally, is_scorable, name_model,
  compare_checks, count_run, count_runs, hit_by, aggregate, scored, unscored, same_checks,
}

abbrev pub placed : ChecksScore → ℕ
placed s = length s.found + length s.missed + length s.uncovered + length s.converted

put-placed : (d : Defect) (v : Verdict) (s : ChecksScore) → placed (put d v s) ≡ suc (placed s)
unfolding put
put-placed d is_found s = ground (arith, length-append s.found (d.id ∷ []))
put-placed d is_missed s = ground (arith, length-append s.missed (d ∷ []))
put-placed d is_uncovered s = ground (arith, length-append s.uncovered (d ∷ []))
put-placed d is_converted s = ground (arith, length-append s.converted (d.id ∷ []))

judge_all-placed :
    (fs : List Finding) (ds : List Defect) (s : ChecksScore)
    → placed (judge_all fs ds s) ≡ placed s + length ds
unfolding judge_all
judge_all-placed fs [] s = ground arith
judge_all-placed fs (d ∷ ds) s =
    ground (arith, judge_all-placed fs ds (put d (judge fs d) s), put-placed d (judge fs d) s)

-- Every defect of the manifest ends in exactly one of the four lists: found, missed, uncovered or
-- converted.
pub score_checks-placed :
    (m : Manifest) (findings : List Finding) → placed (score_checks m findings) ≡ length m.defects
unfolding score_checks
score_checks-placed m findings =
    let start : ChecksScore = record {
      found = [];
      missed = [];
      false_positives = [];
      uncovered = [];
      converted = [];
    } in
    ground (arith, judge_all-placed findings m.defects start)

-- A target that a finding of some origin converts is one that a finding of that origin matches: the
-- test for a conversion is the stricter of the two.
pub converted_by-matches :
    (fs : List Finding) (o : Origin) (d : Defect)
    → converted_by fs o d ≡ true
    → any_of (λ f. same_origin f.origin o && matches_target f d) fs ≡ true
unfolding converted_by converts matches_target covers
converted_by-matches [] o d h = h
converted_by-matches (f ∷ fs) o d h = ground (arith, h, converted_by-matches fs o d)

name_model_counted : (t : Option TraceInfo) (s : Tally) → (name_model t s).counted ≡ s.counted
unfolding name_model
name_model_counted none s = refl
name_model_counted (some t) s = ground arith

compare_checks_counted : (c : ChecksScore) (s : Tally) → (compare_checks c s).counted ≡ s.counted
unfolding compare_checks
compare_checks_counted c s = ground arith

-- One run of the loop.
count_run_counted :
    (s : Tally) (r : RunScore) → (count_run s r).counted ≡ count_if is_scorable (r ∷ []) + s.counted
unfolding count_run is_scorable
count_run_counted s r =
    ground
      (arith, name_model_counted r.trace s, compare_checks_counted r.checks (name_model r.trace s))

count_runs_counted :
    (rs : List RunScore) (s : Tally)
    → (count_runs s rs).counted ≡ count_if is_scorable rs + s.counted
unfolding count_runs
count_runs_counted [] s = ground arith
count_runs_counted (r ∷ rs) s =
    ground (arith, count_runs_counted rs (count_run s r), count_run_counted s r)

abbrev completed : List RunScore → List ChecksScore
completed rs = map (λ r. r.checks) (keep (λ r. is_empty r.err) rs)

-- The checks of the runs differ from the first of them.
abbrev differ_from : Option ChecksScore → List ChecksScore → Bool
differ_from none [] = false
differ_from none (c ∷ cs) = any_of (λ d. not (same_checks c d)) cs
differ_from (some c) cs = any_of (λ d. not (same_checks c d)) cs

abbrev first_of : Option ChecksScore → List ChecksScore → Option ChecksScore
first_of none [] = none
first_of none (c ∷ cs) = some c
first_of (some c) cs = some c

name_model_rest :
    (t : Option TraceInfo) (s : Tally)
    → ((name_model t s).checks ≡ s.checks) × ((name_model t s).unstable ≡ s.unstable)
unfolding name_model
name_model_rest none s = (refl, refl)
name_model_rest (some t) s = (ground arith, ground arith)

first_of_cons :
    (o : Option ChecksScore) (c : ChecksScore) (cs : List ChecksScore)
    → first_of (first_of o (c ∷ [])) cs ≡ first_of o (c ∷ cs)
first_of_cons none c cs = refl
first_of_cons (some x) c cs = refl

differ_from_cons :
    (o : Option ChecksScore) (c : ChecksScore) (cs : List ChecksScore)
    → (differ_from o (c ∷ []) || differ_from (first_of o (c ∷ [])) cs) ≡ differ_from o (c ∷ cs)
differ_from_cons none c cs = refl
differ_from_cons (some x) c cs = ground arith

compare_checks_lem :
    (c : ChecksScore) (s : Tally)
    → ((compare_checks c s).checks ≡ first_of s.checks (c ∷ []))
      × ((compare_checks c s).unstable ≡ (s.unstable || differ_from s.checks (c ∷ [])))
unfolding compare_checks
compare_checks_lem c s = (ground arith, ground arith)

count_run_lem :
    (s : Tally) (r : RunScore)
    → ((count_run s r).checks ≡ first_of s.checks (completed (r ∷ [])))
      × ((count_run s r).unstable ≡ (s.unstable || differ_from s.checks (completed (r ∷ []))))
unfolding count_run
count_run_lem s r =
    let n = name_model_rest r.trace s in
    let k = compare_checks_lem r.checks (name_model r.trace s) in
    (ground (arith, n, k), ground (arith, n, k))

differ_from_nil : (o : Option ChecksScore) → differ_from o [] ≡ false
differ_from_nil none = refl
differ_from_nil (some c) = refl

count_runs_lem :
    (rs : List RunScore) (s : Tally)
    → (count_runs s rs).unstable ≡ (s.unstable || differ_from s.checks (completed rs))
unfolding count_runs
count_runs_lem [] s = ground (arith, differ_from_nil s.checks)
count_runs_lem (r ∷ rs) s =
    let one = count_run_lem s r in
    let ih = count_runs_lem rs (count_run s r) in
    let cons = differ_from_cons s.checks r.checks (completed rs) in ground (arith, ih, one, cons)

-- A target's numbers make sense.
abbrev CountsRuns : Score → TargetScore → Type 0
CountsRuns s t = (t.runs ≡ scored s) × (t.hits ≤ t.runs)

pub record CountsFor (s : Score) : Type 0 where
  pub all_runs : scored s + unscored s ≡ length s.runs
  pub targets : All (CountsRuns s) s.targets
  pub unstable : s.checks_unstable ≡ differ_from none (completed s.runs)

hits-scored : (d : Defect) (rs : List RunScore) → count_if (hit_by d) rs ≤ count_if is_scorable rs
unfolding hit_by
hits-scored d [] = ground arith
hits-scored d (r ∷ rs) = ground (arith, hits-scored d rs)

scored-length : (rs : List RunScore) → count_if is_scorable rs ≤ length rs
scored-length [] = ground arith
scored-length (r ∷ rs) = ground (arith, scored-length rs)

each_target :
    (s : Score) (n : ℕ) (runs : List RunScore)
    → s.runs ≡ runs
    → n ≡ count_if is_scorable runs
    → (ds : List Defect)
    → All
        (CountsRuns s)
        (map (λ d. record { defect = d; hits = count_if (hit_by d) runs; runs = n }) ds)
unfolding scored
each_target s n runs same k [] = tt
each_target s n runs same k (d ∷ ds) = (
  (k ∙ sym (ap (count_if is_scorable) same), ground (arith, hits-scored d runs, k)),
  each_target s n runs same k ds,
)

-- Whatever the runs are: the runs that score and those that do not are all of them; every target is
-- said to be out of exactly the runs that score, and is found in no more than those; and the checks
-- are called unstable exactly when some run without an error counts other checks than the first such
-- run.
pub aggregate-CountsFor : (m : Manifest) (runs : List RunScore) → CountsFor (aggregate m runs)
unfolding aggregate unscored scored
aggregate-CountsFor m runs =
    let start : Tally = record {
      provider = [];
      model = [];
      checks = none;
      unstable = false;
      counted = 0;
    } in
    record {
      all_runs = ground (arith, scored-length runs);
      targets =
          each_target (aggregate m runs) (count_runs start runs).counted runs refl
            (ground (arith, count_runs_counted runs start)) (agent_targets m);
      unstable = count_runs_lem runs start;
    }
