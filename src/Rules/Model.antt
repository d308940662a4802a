-- ===== src/Rules/Model.antt =====
-- internal/rules/rules.go: rules, their validation and `Load` behind the reading of the file. `F` is
-- the type of floats, with its `>`.
use veritix.Base.{
  ℕ, suc, Bool, true, false, not, ◌&&◌, Option, none, some, List, [], ◌∷◌, ◌++◌, Str, codes, str_eq,
  if◌then◌else◌, any_of,
}
use veritix.Base.Int.{ℤ, pos, eqb_ℤ}
use veritix.Base.Find.{contains}

pub record Rule (F : Type 0) : Type 0 where
  pub id : Str
  pub table : Str
  pub column : Str
  pub expect : Str
  pub values : List Str
  pub values_from : Str
  pub pattern : Str
  pub min : Option F
  pub max : Option F
  pub references : Str
  pub where_clause : Str

pub record File (F : Type 0) : Type 0 where
  pub version : ℤ
  pub rules : List (Rule F)

-- `Expectations`, in order.
abbrev pub expectations : List Str
expectations =
    codes "not_null"
    ∷ codes "unique"
    ∷ codes "positive"
    ∷ codes "non_negative"
    ∷ codes "one_of"
    ∷ codes "matches"
    ∷ codes "range"
    ∷ codes "not_future"
    ∷ codes "references"
    ∷ codes "sql"
    ∷ []

-- The expectations that need no more than a column.
abbrev pub plain_expectations : List Str
plain_expectations =
    codes "not_null"
    ∷ codes "unique"
    ∷ codes "positive"
    ∷ codes "non_negative"
    ∷ codes "not_future"
    ∷ []

abbrev pub is_one_of : List Str → Str → Bool
is_one_of names s = any_of (λ e. str_eq s e) names

unfoldable pub first_equal : List Str → Str → Option Str
first_equal [] s = none
first_equal (e ∷ es) s = if str_eq e s then some e else first_equal es s

-- `ParseExpectation`
unfoldable pub parse_expectation : (Str → Str) → (Str → Str) → Str → Option Str
unfolding first_equal
parse_expectation trim lower s = first_equal expectations (trim (lower s))

-- What is wrong with a rule.
pub data Fault : Type 0 where
  no_id twice no_table no_expect no_column bad_source source_without_one_of both_values no_values
        no_pattern no_bound min_above_max bad_reference no_where unknown_expect :
      Fault

abbrev pub is_empty : Str → Bool
is_empty s = str_eq s []

abbrev pub has_some : {A : Type 0} → Option A → Bool
has_some none = false
has_some (some x) = true

abbrev pub has_items : {A : Type 0} → List A → Bool
has_items [] = false
has_items (x ∷ xs) = true

abbrev pub reads_values : {F : Type 0} → Rule F → Bool
reads_values r = not (is_empty r.values_from)

module _ {F : Type 0} (above : F → F → Bool) where
  abbrev pub crossed : Option F → Option F → Bool
  crossed none b = false
  crossed (some a) none = false
  crossed (some a) (some b) = above a b

  -- The `switch` on the expectation.
  unfoldable pub setting_fault : Rule F → Option Fault
  setting_fault r =
      if is_one_of plain_expectations r.expect
      then none
      else if str_eq r.expect (codes "one_of")
      then if has_items r.values && not (is_empty r.values_from)
        then some both_values
        else if not (has_items r.values) && is_empty r.values_from
        then some no_values
        else none
      else if str_eq r.expect (codes "matches")
      then if is_empty r.pattern then some no_pattern else none
      else if str_eq r.expect (codes "range")
      then if not (has_some r.min) && not (has_some r.max)
        then some no_bound
        else if crossed r.min r.max
        then some min_above_max
        else none
      else if str_eq r.expect (codes "references")
      then if not (contains r.references (codes ".")) then some bad_reference else none
      else if str_eq r.expect (codes "sql")
      then if is_empty r.where_clause then some no_where else none
      else some unknown_expect

  unfoldable pub rule_fault : List Str → Rule F → Option Fault
  unfolding setting_fault
  rule_fault seen r =
      if is_empty r.id
      then some no_id
      else if any_of (λ k. str_eq k r.id) seen
      then some twice
      else if is_empty r.table
      then some no_table
      else if is_empty r.expect
      then some no_expect
      else if not (str_eq r.expect (codes "sql")) && is_empty r.column
      then some no_column
      else if not (is_empty r.values_from) && not (str_eq r.values_from (codes "current"))
      then some bad_source
      else if not (is_empty r.values_from) && not (str_eq r.expect (codes "one_of"))
      then some source_without_one_of
      else setting_fault r

  unfoldable pub check_rules : ℕ → List Str → List (Rule F) → Option (ℕ × Fault)
  unfolding rule_fault
  check_rules i seen [] = none
  check_rules i seen (r ∷ rs) =
      let rest = check_rules (suc i) (r.id ∷ seen) rs in
      elim (rule_fault seen r) [ some f ↦ some (i, f) | none ↦ rest ]

  -- `Validate`
  unfoldable pub validate : File F → Option (ℕ × Fault)
  unfolding check_rules
  validate f = check_rules 0 [] f.rules

  -- `Load`, for the file that was read, if it could be read and parsed.
  unfoldable pub load : Option (File F) → Option (File F)
  unfolding validate
  load none = none
  load (some f) =
      let g = if eqb_ℤ f.version (pos 0) then record f { version = pos 1 } else f in
      if not (eqb_ℤ g.version (pos 1)) then none else elim (validate g) [
        | some e ↦ none
        | none ↦ if any_of reads_values g.rules then none else some g
      ]

-- `Merge` of internal/runs/runs.go: the rules of all files, which must be valid together; an error
-- is none, and no rules at all are none inside.
unfoldable pub merged : {F : Type 0} → List (Option (File F)) → List (Rule F)
merged [] = []
merged (none ∷ fs) = merged fs
merged (some f ∷ fs) = f.rules ++ merged fs

unfoldable pub merge :
    {F : Type 0} → (F → F → Bool) → List (Option (File F)) → Option (Option (File F))
unfolding merged validate
merge {F} above files =
    let out : File F = record { version = pos 1; rules = merged files } in
    if not (has_items (merged files))
    then some none
    else elim (validate above out) [ some e ↦ none | none ↦ some (some out) ]
