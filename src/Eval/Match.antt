-- ===== src/Eval/Match.antt =====
-- internal/eval/score.go: when a finding measures a defect.
use veritix.Base.{
  Bool, true, false, not, ◌&&◌, Option, none, some, List, [], ◌∷◌, ◌++◌, Str, str_eq, if◌then◌else◌,
  any_of, has_prefix,
}
use veritix.Finding.Model.{Finding, Origin, check, rule, agent}
use veritix.Eval.Manifest.{Defect, AgentTarget, measures, is_empty}

-- The table of a location as a person reads it.
unfoldable pub table_of : Finding → Str
table_of f = if is_empty f.location.display then f.location.table else f.location.display

unfoldable pub location_of : Finding → Str
unfolding table_of
location_of f =
    if not (is_empty f.location.column) then table_of f ++ 46 ∷ f.location.column else table_of f

unfoldable pub covers : Finding → Str → Bool
unfolding location_of
covers f location =
    if str_eq (location_of f) location
    then true
    else if not (is_empty f.location.column)
    then false
    else not (is_empty (table_of f)) && has_prefix location (table_of f ++ 46 ∷ [])

-- `d.Agent.Measures`, false where there is no target.
abbrev pub target_measures : Option AgentTarget → Finding → Bool
target_measures none f = false
target_measures (some a) f = measures a f.count

unfoldable pub matches_target : Finding → Defect → Bool
unfolding covers
matches_target f d = covers f d.location && target_measures d.agent f

abbrev pub same_origin : Origin → Origin → Bool
same_origin check check = true
same_origin rule rule = true
same_origin agent agent = true
same_origin _ _ = false

-- A finding that converts a target.
unfoldable pub converts : Origin → Defect → Finding → Bool
unfolding location_of
converts origin d f =
    same_origin f.origin origin && (str_eq (location_of f) d.location && target_measures d.agent f)

unfoldable pub converted_by : List Finding → Origin → Defect → Bool
unfolding converts
converted_by findings origin d = any_of (converts origin d) findings

unfoldable pub has_rule_at : List Finding → Str → Str → Bool
unfolding location_of
has_rule_at findings name location =
    any_of (λ f. str_eq f.rule name && str_eq (location_of f) location) findings
