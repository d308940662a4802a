-- ===== src/Eval/Manifest.antt =====
-- internal/eval/manifest.go: the manifest and its validation. The fields that only a person reads
-- are kept where the validation looks at them.
use veritix.Base.{
  ℕ, suc, Bool, true, false, not, ◌&&◌, ◌||◌, Option, none, some, List, [], ◌∷◌, Str, codes, str_eq,
  if◌then◌else◌, any_of, keep, map,
}
use veritix.Base.Int.{ℤ, pos, ltb_ℤ, eqb_ℤ}
use veritix.Base.Find.{contains}
use veritix.Base.Walk.{is_some}
use veritix.Finding.Severity.{trim_space}

pub record Context : Type 0 where
  pub id : Str
  pub file : Str
  pub why : Str

pub record AgentTarget : Type 0 where
  pub count : ℤ
  pub equivalent : List ℤ
  pub query : Str

pub record Defect : Type 0 where
  pub id : Str
  pub location : Str
  pub why : Str
  pub caught_by : Str
  pub agent : Option AgentTarget
  pub needs_context : List Str

pub record Clean : Type 0 where
  pub rule : Str
  pub location : Str
  pub why : Str

pub record Noise : Type 0 where
  pub location : Str
  pub count : ℤ
  pub why : Str

pub record Manifest : Type 0 where
  pub dataset : Str
  pub defects : List Defect
  pub clean : List Clean
  pub noise : List Noise
  pub context : List Context

abbrev pub is_empty : Str → Bool
is_empty s = str_eq s []

abbrev pub has_items : {A : Type 0} → List A → Bool
has_items [] = false
has_items (x ∷ xs) = true

unfoldable pub aided : Defect → Bool
aided d = has_items d.needs_context

unfoldable pub explains : Noise → Str → ℤ → Bool
explains n location count = str_eq n.location location && eqb_ℤ n.count count

unfoldable pub measures : AgentTarget → ℤ → Bool
measures a n = if eqb_ℤ n a.count then true else any_of (λ alt. eqb_ℤ n alt) a.equivalent

unfoldable pub deterministic : Defect → Bool
deterministic d = not (is_empty d.caught_by) && not (str_eq d.caught_by (codes "none"))

unfoldable pub agent_targets : Manifest → List Defect
agent_targets m = keep (λ d. is_some d.agent) m.defects

unfoldable pub manifest_name : Manifest → Str
manifest_name m = if not (is_empty m.dataset) then m.dataset else codes "dataset"

-- What is wrong with an entry.
pub data Fault : Type 0 where
  no_id listed_twice no_file outside no_why no_where no_catcher aided_without_target no_count
        no_query no_rule_or_where contradicts_target :
      Fault
  unknown_context : Str → Fault
  bad_equivalent : ℤ → Fault

-- Which entry it is, counted from 0.
pub data Refusal : Type 0 where
  no_defects : Refusal
  context_entry defect_entry clean_entry noise_entry : ℕ → Fault → Refusal

abbrev pub has_name : List Str → Str → Bool
has_name names k = any_of (λ n. str_eq n k) names

module _ (is_abs : Str → Bool) where
  unfoldable pub context_fault : List Str → Context → Option Fault
  context_fault docs c =
      if is_empty c.id
      then some no_id
      else if has_name docs c.id
      then some listed_twice
      else if is_empty c.file
      then some no_file
      else if is_abs c.file || contains c.file (codes "..")
      then some outside
      else if is_empty c.why
      then some no_why
      else none

  unfoldable pub check_context : ℕ → List Str → List Context → Option Refusal
  check_context i docs [] = none
  check_context i docs (c ∷ cs) =
      let rest = check_context (suc i) (c.id ∷ docs) cs in
      elim (context_fault docs c) [ some f ↦ some (context_entry i f) | none ↦ rest ]

-- The first document that is not listed.
unfoldable pub missing_context : List Str → List Str → Option Fault
missing_context docs [] = none
missing_context docs (id ∷ ids) =
    if not (has_name docs id) then some (unknown_context id) else missing_context docs ids

unfoldable pub equivalent_fault : ℤ → List ℤ → Option Fault
equivalent_fault count [] = none
equivalent_fault count (alt ∷ alts) =
    if not (ltb_ℤ (pos 0) alt) || eqb_ℤ alt count
    then some (bad_equivalent alt)
    else equivalent_fault count alts

unfoldable pub target_fault : Option AgentTarget → Option Fault
unfolding equivalent_fault
target_fault none = none
target_fault (some a) =
    if not (ltb_ℤ (pos 0) a.count)
    then some no_count
    else elim (equivalent_fault a.count a.equivalent) [
      | some f ↦ some f
      | none ↦ if is_empty (trim_space a.query) then some no_query else none
    ]

unfoldable pub defect_fault : List Str → List Str → Defect → Option Fault
unfolding missing_context target_fault aided
defect_fault docs seen d =
    if is_empty d.id
    then some no_id
    else if has_name seen d.id
    then some listed_twice
    else if is_empty d.location
    then some no_where
    else if is_empty d.why
    then some no_why
    else if is_empty d.caught_by
    then some no_catcher
    else elim (missing_context docs d.needs_context) [
      | some f ↦ some f
      | none ↦
          if not (is_some d.agent) && aided d
          then some aided_without_target
          else target_fault d.agent
    ]

unfoldable pub check_defects : List Str → ℕ → List Str → List Defect → Option Refusal
check_defects docs i seen [] = none
check_defects docs i seen (d ∷ ds) =
    let rest = check_defects docs (suc i) (d.id ∷ seen) ds in
    elim (defect_fault docs seen d) [ some f ↦ some (defect_entry i f) | none ↦ rest ]

unfoldable pub clean_fault : Clean → Option Fault
clean_fault c =
    if is_empty c.rule || is_empty c.location
    then some no_rule_or_where
    else if is_empty c.why
    then some no_why
    else none

unfoldable pub check_clean : ℕ → List Clean → Option Refusal
unfolding clean_fault
check_clean i [] = none
check_clean i (c ∷ cs) =
    let rest = check_clean (suc i) cs in
    elim (clean_fault c) [ some f ↦ some (clean_entry i f) | none ↦ rest ]

-- Whether a target measures what a noise entry calls no defect.
unfoldable pub is_target_of : Noise → Defect → Bool
unfolding measures
is_target_of n d = elim d.agent [
  | none ↦ false
  | some a ↦ str_eq d.location n.location && measures a n.count
]

unfoldable pub noise_fault : List Defect → Noise → Option Fault
unfolding is_target_of
noise_fault defects n =
    if is_empty n.location
    then some no_where
    else if not (ltb_ℤ (pos 0) n.count)
    then some no_count
    else if is_empty n.why
    then some no_why
    else if any_of (is_target_of n) defects
    then some contradicts_target
    else none

unfoldable pub check_noise : List Defect → ℕ → List Noise → Option Refusal
check_noise defects i [] = none
check_noise defects i (n ∷ ns) =
    let rest = check_noise defects (suc i) ns in
    elim (noise_fault defects n) [ some f ↦ some (noise_entry i f) | none ↦ rest ]

-- The first of two checks that finds something.
abbrev pub then_check : Option Refusal → Option Refusal → Option Refusal
then_check (some r) next = some r
then_check none next = next

unfoldable pub validate : (Str → Bool) → Manifest → Option Refusal
validate is_abs m =
    if not (has_items m.defects)
    then some no_defects
    else then_check (check_context is_abs 0 [] m.context) (
        then_check (check_defects (map (λ c. c.id) m.context) 0 [] m.defects)
          (then_check (check_clean 0 m.clean) (check_noise m.defects 0 m.noise)))
