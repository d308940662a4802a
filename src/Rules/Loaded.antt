-- ===== src/Rules/Loaded.antt =====
-- internal/rules/rules.go and internal/runs/runs.go: what a rules file that loads promises.
use veritix.Base.{
  ℕ, suc, ◌≡◌, refl, sym, subst, ap, ◌∙◌, ◌⊎◌, inl, inr, Bool-cases, arith, Bool, true, false, not,
  ◌&&◌, ◌||◌, Option, none, some, List, [], ◌∷◌, Str, codes, str_eq, str_eq_iff, if◌then◌else◌,
  any_of, All,
}
use veritix.Base.Int.{ℤ, pos, eqb_ℤ, eqb_ℤ_iff}
use veritix.Base.Walk.{DistinctBy, has_key}
use veritix.Base.Find.{contains}
use veritix.Rules.Model.{
  Rule, File, expectations, plain_expectations, is_one_of, is_empty, has_some, has_items, crossed,
  setting_fault, rule_fault, check_rules, validate, reads_values, load, merged, merge, Fault,
}

-- A rule that can be applied: it names what it is about, and has what its expectation needs.
pub record Applicable {F : Type 0} (above : F → F → Bool) (r : Rule F) : Type 0 where
  pub named : (is_empty r.id || is_empty r.table) ≡ false
  pub known : is_one_of expectations r.expect ≡ true
  pub on_column : (str_eq r.expect (codes "sql") || not (is_empty r.column)) ≡ true
  pub has_values :
      (str_eq r.expect (codes "one_of") && (not (has_items r.values) && is_empty r.values_from))
      ≡ false
  pub has_pattern : (str_eq r.expect (codes "matches") && is_empty r.pattern) ≡ false
  pub has_bounds :
      (str_eq r.expect (codes "range")
        && (not (has_some r.min || has_some r.max) || crossed above r.min r.max))
      ≡ false
  pub has_target :
      (str_eq r.expect (codes "references") && not (contains r.references (codes "."))) ≡ false
  pub has_clause : (str_eq r.expect (codes "sql") && is_empty r.where_clause) ≡ false

-- A text that is one name is none of the others.
separate :
    (s name : Str) (others : List Str)
    → is_one_of others name ≡ false
    → str_eq s name ≡ true
    → is_one_of others s ≡ false
separate s name others h k =
    subst (λ x. is_one_of others x ≡ false) (sym ((str_eq_iff s name).0 k)) h

abbrev Separate : Str → List Str → Type 0
Separate name others = (s : Str) → str_eq s name ≡ true → is_one_of others s ≡ false

one_of-Separate : Separate (codes "one_of") plain_expectations
unfolding str_eq
one_of-Separate s = separate s (codes "one_of") plain_expectations refl

abbrev before_matches : List Str
before_matches = codes "one_of" ∷ plain_expectations

matches-Separate : Separate (codes "matches") before_matches
unfolding str_eq
matches-Separate s = separate s (codes "matches") before_matches refl

abbrev before_range : List Str
before_range = codes "matches" ∷ before_matches

range-Separate : Separate (codes "range") before_range
unfolding str_eq
range-Separate s = separate s (codes "range") before_range refl

abbrev before_references : List Str
before_references = codes "range" ∷ before_range

references-Separate : Separate (codes "references") before_references
unfolding str_eq
references-Separate s = separate s (codes "references") before_references refl

abbrev before_sql : List Str
before_sql = codes "references" ∷ before_references

sql-Separate : Separate (codes "sql") before_sql
unfolding str_eq
sql-Separate s = separate s (codes "sql") before_sql refl

module _ {F : Type 0} (above : F → F → Bool) where
  rule-Applicable :
      (seen : List Str) (r : Rule F) → rule_fault above seen r ≡ none → Applicable above r
  unfolding rule_fault setting_fault
  rule-Applicable seen r h = record {
    named = ground (arith, h);
    known = ground (arith, h);
    on_column = ground (arith, h);
    has_values = ground (arith, h, one_of-Separate r.expect);
    has_pattern = ground (arith, h, matches-Separate r.expect);
    has_bounds = ground (arith, h, range-Separate r.expect);
    has_target = ground (arith, h, references-Separate r.expect);
    has_clause = ground (arith, h, sql-Separate r.expect);
  }

  new_id :
      (seen : List Str) (r : Rule F)
      → rule_fault above seen r ≡ none
      → any_of (λ k. str_eq k r.id) seen ≡ false
  unfolding rule_fault
  new_id seen r h = ground (arith, h)

  split_head :
      (k : Str) (seen : List Str) (rs : List (Rule F))
      → All (λ r. any_of (λ x. str_eq x r.id) (k ∷ seen) ≡ false) rs
      → (has_key (λ r. r.id) k rs ≡ false) × All (λ r. any_of (λ x. str_eq x r.id) seen ≡ false) rs
  split_head k seen [] a = (refl, tt)
  split_head k seen (r ∷ rs) a =
      let rest = split_head k seen rs a.1 in
      (
        ground (arith, a.0, rest.0, str_eq_iff k r.id, str_eq_iff r.id k),
        (ground (arith, a.0), rest.1),
      )

  both_none :
      (i : ℕ) (o : Option Fault) (rest : Option (ℕ × Fault))
      → (elim o as (λ x. Option (ℕ × Fault)) [ some f ↦ some (i, f) | none ↦ rest ]) ≡ none
      → (o ≡ none) × (rest ≡ none)
  both_none i none rest h = (refl, h)
  both_none i (some f) rest h = absurd (ground arith)

  rules-Applicable :
      (i : ℕ) (seen : List Str) (rs : List (Rule F))
      → check_rules above i seen rs ≡ none
      → All (Applicable above) rs
        × All (λ r. any_of (λ k. str_eq k r.id) seen ≡ false) rs
        × DistinctBy (λ r. r.id) rs
  unfolding check_rules
  rules-Applicable i seen [] h = (tt, tt, tt)
  rules-Applicable i seen (r ∷ rs) h =
      let parts =
        both_none i (rule_fault above seen r) (check_rules above (suc i) (r.id ∷ seen) rs) h in
      let rest = rules-Applicable (suc i) (r.id ∷ seen) rs parts.1 in
      let split = split_head r.id seen rs rest.1 in
      (
        (rule-Applicable seen r parts.0, rest.0),
        (new_id seen r parts.0, split.1),
        (split.0, rest.2),
      )

-- What a file promises that is in force, given the one that was read.
pub record Enforceable {F : Type 0} (above : F → F → Bool) (read f : File F) : Type 0 where
  pub declared : (read.version ≡ pos 0) ⊎ (read.version ≡ pos 1)
  pub first_version : f.version ≡ pos 1
  pub same_rules : f.rules ≡ read.rules
  pub applicable : All (Applicable above) read.rules
  pub distinct : DistinctBy (λ r. r.id) read.rules
  pub own_values : All (λ r. is_empty r.values_from ≡ true) read.rules

declared_lem :
    (read v : ℤ)
    → v ≡ (if eqb_ℤ read (pos 0) then pos 1 else read)
    → eqb_ℤ v (pos 1) ≡ true
    → (read ≡ pos 0) ⊎ (read ≡ pos 1)
declared_lem read v e h = elim (Bool-cases (eqb_ℤ read (pos 0))) [
  | inl z ↦ inl ((eqb_ℤ_iff read (pos 0)).0 z)
  | inr n ↦ let same : v ≡ read = ground (arith, e, n) in inr (sym same ∙ (eqb_ℤ_iff v (pos 1)).0 h)
]

none_read :
    {F : Type 0} (rs : List (Rule F))
    → any_of reads_values rs ≡ false
    → All (λ r. is_empty r.values_from ≡ true) rs
none_read [] h = tt
none_read (r ∷ rs) h = (ground (arith, h), none_read rs (ground (arith, h)))

-- A rules file that loads declares version 1 or none (which reads as 0), is in force as version 1
-- with the rules that it has, and of these no two have one id, every one has an id and a table, a
-- known expectation with what it needs, and a column unless it is written in SQL, and none reads its
-- values from the data, so that every one_of rule lists them.
pub load-Enforceable :
    {F : Type 0} (above : F → F → Bool) (read f : File F)
    → load above (some read) ≡ some f
    → Enforceable above read f
unfolding load validate
load-Enforceable {F} above g f h =
    let v : File F = if eqb_ℤ g.version (pos 0) then record g { version = pos 1 } else g in
    let same : v ≡ f = ground (arith, h) in
    let kept : v.rules ≡ g.rules = ground arith in
    let rules = rules-Applicable above 0 [] v.rules (ground (arith, h)) in
    record {
      declared = declared_lem g.version v.version (ground arith) (ground (arith, h));
      first_version =
          ap (λ x. x.version) (sym same) ∙ (eqb_ℤ_iff v.version (pos 1)).0 (ground (arith, h));
      same_rules = ap (λ x. x.rules) (sym same) ∙ kept;
      applicable = subst (All (Applicable above)) kept rules.0;
      distinct = subst (DistinctBy (λ r. r.id)) kept rules.2;
      own_values =
          subst (All (λ r. is_empty r.values_from ≡ true)) kept
            (none_read v.rules (ground (arith, h)));
    }

-- Merged rules are all the rules of the files, in their order, and can be applied together.
merge-Applicable :
    {F : Type 0} (above : F → F → Bool) (files : List (Option (File F))) (f : File F)
    → merge above files ≡ some (some f)
    → (merged files ≡ f.rules)
      × All (Applicable above) (merged files)
      × DistinctBy (λ r. r.id) (merged files)
unfolding merge validate
merge-Applicable above files f h =
    let rules = rules-Applicable above 0 [] (merged files) (ground (arith, h)) in
    (ground (arith, h), rules.0, rules.2)
