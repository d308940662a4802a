-- ===== src/Eval/Tests.antt =====
-- Evaluation of two runs on a small manifest: runs of the operations, and the theorems at them.
use veritix.Base.{
  ℕ, ◌≡◌, refl, Bool, true, false, none, some, List, [], ◌∷◌, Str, codes, length, any_of, ◌&&◌,
  ◌==◌, str_eq,
}
use veritix.Base.Int.{pos}
use veritix.Finding.Severity.{warning, trim_space}
use veritix.Finding.Model.{Finding, Origin, rule, agent}
use veritix.Eval.Manifest.{
  Defect, Manifest, validate, check_context, check_defects, defect_fault, check_clean, check_noise,
  agent_targets, measures,
}
use veritix.Eval.Match.{converted_by, same_origin, matches_target}
use veritix.Eval.Score.{score_run, claim_first, score_checks, aggregate}
use veritix.Eval.Valid.{IsSound, validate-IsSound}
use veritix.Eval.Ledger.{AccountsFor, score_run-AccountsFor}
use veritix.Eval.Aggregate.{
  CountsFor, aggregate-CountsFor, placed, score_checks-placed, converted_by-matches,
}

abbrev starts_with_slash : Str → Bool
starts_with_slash [] = false
starts_with_slash (c ∷ s) = c == 47

abbrev target : Defect
target = record {
  id = codes "late";
  location = codes "orders.due";
  why = codes "due before it was placed";
  caught_by = codes "none";
  agent = some (record { count = pos 7; equivalent = pos 8 ∷ []; query = codes "q" });
  needs_context = [];
}

abbrev planted : Defect
planted = record {
  id = codes "nulls";
  location = codes "orders.price";
  why = codes "no price";
  caught_by = codes "null";
  agent = none;
  needs_context = [];
}

abbrev small : Manifest
small = record {
  dataset = codes "shop";
  defects = target ∷ planted ∷ [];
  clean = [];
  noise = [];
  context = [];
}

abbrev said : Origin → Str → Str → ℕ → Finding
said origin name column n = record {
  rule = name;
  severity = warning;
  origin = origin;
  title = [];
  detail = [];
  remedy = [];
  location = record {
    table = codes "orders";
    display = [];
    column = column;
    file = [];
    line = pos 0;
  };
  count = pos n;
  total = pos 100;
  evidence = record { count_query = []; row_query = []; expected = []; observed = [] };
  verified = true;
}

abbrev two_claims : List Finding
two_claims = said agent (codes "a") (codes "due") 8 ∷ said agent (codes "b") (codes "due") 7 ∷ []

small_passes : validate starts_with_slash small ≡ none
unfolding validate check_context check_defects defect_fault str_eq trim_space check_clean
    check_noise
small_passes = refl

validate-IsSound_example : IsSound small
validate-IsSound_example = validate-IsSound starts_with_slash small small_passes

-- One finding is credited, the other is a claim.
score_small : length (score_run small two_claims).unclassified ≡ 1
unfolding score_run agent_targets claim_first matches_target str_eq measures
score_small = refl

score_run-AccountsFor_example : AccountsFor small two_claims (score_run small two_claims)
score_run-AccountsFor_example = score_run-AccountsFor small two_claims

score_checks-placed_example : placed (score_checks small two_claims) ≡ 2
score_checks-placed_example = score_checks-placed small two_claims

aggregate-CountsFor_example :
    CountsFor (aggregate small (score_run small two_claims ∷ score_run small [] ∷ []))
aggregate-CountsFor_example =
    aggregate-CountsFor small (score_run small two_claims ∷ score_run small [] ∷ [])

abbrev accepted : List Finding
accepted = said rule (codes "r") (codes "due") 7 ∷ []

accepted_converts : converted_by accepted rule target ≡ true
unfolding converted_by str_eq measures
accepted_converts = refl

converted_by-matches_example :
    any_of (λ f. same_origin f.origin rule && matches_target f target) accepted ≡ true
converted_by-matches_example = converted_by-matches accepted rule target accepted_converts
