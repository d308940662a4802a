-- ===== src/Eval/Score.antt =====
-- internal/eval/score.go: `ScoreChecks`, `ScoreRun` and `Aggregate`. The averages are floats and
-- are left out; what they are averages of is here.
use veritix.Base.{
  ℕ, suc, ◌-◌, Bool, true, false, not, ◌&&◌, ◌||◌, Option, none, some, List, [], ◌∷◌, ◌++◌, Str,
  str_eq, if◌then◌else◌, any_of, map, ◌==◌, length, count_if, keep,
}
use veritix.Base.Int.{ℤ}
use veritix.Finding.Model.{Finding, rule, agent}
use veritix.Agent.Message.{Stopped, provider_error, canceled}
use veritix.Eval.Manifest.{
  Defect, Clean, Noise, Manifest, is_empty, has_items, deterministic, explains, agent_targets,
  manifest_name, aided,
}
use veritix.Eval.Match.{location_of, covers, matches_target, converted_by, has_rule_at, same_origin}

pub record ChecksScore : Type 0 where
  pub found : List Str
  pub missed : List Defect
  pub false_positives : List Clean
  pub uncovered : List Defect
  pub converted : List Str

unfoldable pub checks_complete : ChecksScore → Bool
checks_complete s = not (has_items s.missed) && not (has_items s.false_positives)

-- Where one defect goes.
pub data Verdict : Type 0 where
  is_found is_missed is_uncovered is_converted : Verdict

unfoldable pub judge : List Finding → Defect → Verdict
judge findings d =
    if not (deterministic d)
    then if converted_by findings rule d then is_converted else is_uncovered
    else if has_rule_at findings d.caught_by d.location
    then is_found
    else is_missed

unfoldable pub put : Defect → Verdict → ChecksScore → ChecksScore
put d is_found s = record s { found = s.found ++ d.id ∷ [] }
put d is_missed s = record s { missed = s.missed ++ d ∷ [] }
put d is_uncovered s = record s { uncovered = s.uncovered ++ d ∷ [] }
put d is_converted s = record s { converted = s.converted ++ d.id ∷ [] }

unfoldable pub judge_all : List Finding → List Defect → ChecksScore → ChecksScore
unfolding judge put
judge_all findings [] s = s
judge_all findings (d ∷ ds) s = judge_all findings ds (put d (judge findings d) s)

unfoldable pub score_checks : Manifest → List Finding → ChecksScore
unfolding judge_all
score_checks m findings =
    let s =
      judge_all findings m.defects (record {
        found = [];
        missed = [];
        false_positives = [];
        uncovered = [];
        converted = [];
      }) in
    record s { false_positives = keep (λ c. has_rule_at findings c.rule c.location) m.clean }

pub record Claim : Type 0 where
  pub rule_name : Str
  pub location : Str
  pub count : ℤ
  pub covers_rule : Str
  pub known : Str

-- Of `agent.Trace`, what a score reads.
pub record TraceInfo : Type 0 where
  pub provider : Str
  pub model : Str
  pub stopped : Stopped

pub record RunScore : Type 0 where
  pub detected : List Str
  pub missed : List Str
  pub unclassified : List Claim
  pub checks : ChecksScore
  pub trace : Option TraceInfo
  pub err : Str

abbrev ended_well : Stopped → Bool
ended_well provider_error = false
ended_well canceled = false
ended_well _ = true

unfoldable pub is_scorable : RunScore → Bool
is_scorable r =
    if not (is_empty r.err)
    then false
    else elim r.trace [ none ↦ true | some t ↦ ended_well t.stopped ]

-- A finding, and whether it is credited to a target.
abbrev pub Marked : Type 0
Marked = Finding × Bool

-- The loop for one target: the first finding of the agent that is free and matches, marked.
unfoldable pub claim_first : Defect → List Marked → Option (List Marked)
claim_first d [] = none
claim_first d ((f, taken) ∷ ms) =
    let rest = claim_first d ms in
    if not (same_origin f.origin agent) || taken
    then elim rest [ none ↦ none | some ms' ↦ some ((f, taken) ∷ ms') ]
    else if matches_target f d
    then some ((f, true) ∷ ms)
    else elim rest [ none ↦ none | some ms' ↦ some ((f, taken) ∷ ms') ]

-- The detected and the missed targets, and the marks after the loop.
unfoldable pub credit : List Defect → List Marked → List Str × List Str × List Marked
credit [] ms = ([], [], ms)
credit (d ∷ ds) ms = elim (claim_first d ms) [
  | some ms' ↦ let (detected, missed, end) = credit ds ms' in (d.id ∷ detected, missed, end)
  | none ↦ let (detected, missed, end) = credit ds ms in (detected, d.id ∷ missed, end)
]

unfoldable pub covering_rule : Finding → List Defect → Str
covering_rule f [] = []
covering_rule f (d ∷ ds) =
    if deterministic d && covers f d.location then d.caught_by else covering_rule f ds

unfoldable pub known_reason : Str → ℤ → List Noise → Str
known_reason location count [] = []
known_reason location count (n ∷ ns) =
    if explains n location count then n.why else known_reason location count ns

unfoldable pub claims : Manifest → List Marked → List Claim
unfolding covering_rule known_reason
claims m [] = []
claims m ((f, taken) ∷ ms) =
    let rest = claims m ms in
    if not (same_origin f.origin agent) || taken
    then rest
    else record {
      rule_name = f.rule;
      location = location_of f;
      count = f.count;
      covers_rule = covering_rule f m.defects;
      known = known_reason (location_of f) f.count m.noise;
    }
      ∷ rest

unfoldable pub score_run : Manifest → List Finding → RunScore
unfolding credit claims score_checks
score_run m findings =
    let (detected, missed, marks) = credit (agent_targets m) (map (λ f. (f, false)) findings) in
    record {
      detected = detected;
      missed = missed;
      unclassified = claims m marks;
      checks = score_checks m findings;
      trace = none;
      err = [];
    }

pub record TargetScore : Type 0 where
  pub defect : Defect
  pub hits : ℕ
  pub runs : ℕ

pub record Score : Type 0 where
  pub dataset : Str
  pub provider : Str
  pub model : Str
  pub runs : List RunScore
  pub targets : List TargetScore
  pub checks : ChecksScore
  pub checks_unstable : Bool

unfoldable pub same_checks : ChecksScore → ChecksScore → Bool
same_checks a b =
    length a.found == length b.found
    && (length a.missed == length b.missed && length a.false_positives == length b.false_positives)

-- `Scored`, `Unscored`, `Aided`, `Unaided` and `anyRunFailed`.
unfoldable pub scored : Score → ℕ
scored s = count_if is_scorable s.runs

unfoldable pub unscored : Score → ℕ
unfolding scored
unscored s = length s.runs - scored s

unfoldable pub split_targets : Bool → Score → List TargetScore
split_targets wanted s = keep (λ t. if aided t.defect then wanted else not wanted) s.targets

unfoldable pub any_run_failed : Score → Bool
any_run_failed s = any_of (λ r. not (is_empty r.err)) s.runs

-- What the loop of `Aggregate` over the runs carries.
pub record Tally : Type 0 where
  pub provider : Str
  pub model : Str
  pub checks : Option ChecksScore
  pub unstable : Bool
  pub counted : ℕ

unfoldable pub name_model : Option TraceInfo → Tally → Tally
name_model none s = s
name_model (some t) s =
    if is_empty s.model then record s { provider = t.provider; model = t.model } else s

unfoldable pub compare_checks : ChecksScore → Tally → Tally
compare_checks c s = elim s.checks [
  | none ↦ record s { checks = some c }
  | some old ↦ if not (same_checks old c) then record s { unstable = true } else s
]

unfoldable pub count_run : Tally → RunScore → Tally
unfolding name_model compare_checks
count_run s r =
    let named = name_model r.trace s in
    if not (is_empty r.err)
    then named
    else let compared = compare_checks r.checks named in
      if is_scorable r then record compared { counted = suc compared.counted } else compared

unfoldable pub count_runs : Tally → List RunScore → Tally
unfolding count_run
count_runs s [] = s
count_runs s (r ∷ rs) = count_runs (count_run s r) rs

unfoldable pub hit_by : Defect → RunScore → Bool
hit_by d r = is_scorable r && any_of (λ id. str_eq id d.id) r.detected

unfoldable pub aggregate : Manifest → List RunScore → Score
unfolding count_runs
aggregate m runs =
    let t =
      count_runs
        (record { provider = []; model = []; checks = none; unstable = false; counted = 0 }) runs in
    record {
      dataset = manifest_name m;
      provider = t.provider;
      model = t.model;
      runs = runs;
      targets =
          map (λ d. record { defect = d; hits = count_if (hit_by d) runs; runs = t.counted })
            (agent_targets m);
      checks = elim t.checks [
        | some c ↦ c
        | none ↦ record {
          found = [];
          missed = [];
          false_positives = [];
          uncovered = [];
          converted = [];
        }
      ];
      checks_unstable = t.unstable;
    }
