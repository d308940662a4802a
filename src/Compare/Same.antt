-- ===== src/Compare/Same.antt =====
-- internal/report/compare.go: a document compared with itself.
use mathlib.Core.List.{Perm}
use mathlib.Core.List.Perm
use veritix.Base.{
  ℕ, suc, ◌+◌, ◌≡◌, refl, ap, ◌∙◌, arith, false, some, List, [], ◌∷◌, map, str_eq, str_eq_iff,
  length, All, keep,
}
use veritix.Base.Int.{ℤ, ltb_ℤ, eqb_ℤ_iff}
use veritix.Base.SelfWalk.{twin, walk_self}
use veritix.Base.Sort.{sort_by}
use veritix.Base.Walk.{DistinctBy}
use veritix.Compare.Model.{
  rank, unchanged, FindingInfo, ColumnInfo, TableInfo, Document, DeltaSummary, Ranges, is_changed,
}
use veritix.Compare.Findings.{moved, delta_of, add_status, tally, is_listed, compare_findings}
use veritix.Compare.Tables.{new_names, column_diff, table_delta, table_rounds, compare_tables}
use veritix.Compare.Whole.{no_summary, compare}

not_less : (n : ℤ) → ltb_ℤ n n ≡ false
not_less n = ground arith

quiet_round : (f : FindingInfo) → is_listed (delta_of (some f, f)) ≡ false
unfolding is_listed delta_of moved rank str_eq
quiet_round f = ground (arith, not_less f.count, str_eq_iff f.severity f.severity)

quiet_rounds :
    (fs : List FindingInfo) → keep is_listed (map delta_of (map (twin (λ f. f.id)) fs)) ≡ []
quiet_rounds [] = refl
quiet_rounds (f ∷ fs) = ground (arith, quiet_round f, quiet_rounds fs)

same_count : (f : FindingInfo) → moved f.count f.count ≡ unchanged
unfolding moved
same_count f = ground (arith, not_less f.count)

same_of : ℕ → DeltaSummary
same_of n = record no_summary { same = n }

same_tally :
    (fs : List FindingInfo) (n : ℕ)
    → tally (map delta_of (map (twin (λ f. f.id)) fs)) (same_of n) ≡ same_of (length fs + n)
unfolding tally delta_of add_status same_of
same_tally [] n = ap same_of (omega arith)
same_tally (f ∷ fs) n = rw (same_count f) (same_tally fs (suc n) ∙ ap same_of (omega arith))

no_new_names : (cs : List ColumnInfo) → new_names (map (twin (λ c. c.name)) cs) ≡ []
unfolding new_names
no_new_names [] = refl
no_new_names (c ∷ cs) = no_new_names cs

nothing_ranged : {A : Type 0} (range : List A → List A) → Perm (range []) [] → range [] ≡ []
nothing_ranged range p = Perm.eq-nil p

same_columns :
    (ranges : Ranges) (cs : List ColumnInfo)
    → DistinctBy (λ c. c.name) cs
    → column_diff ranges cs cs ≡ ([], [])
unfolding column_diff sort_by
same_columns ranges cs d =
    rw
      (
        walk_self (λ c. c.name) cs d,
        no_new_names cs,
        nothing_ranged ranges.of_columns (ranges.columns_perm []),
      )
      refl

same_rounds :
    (ranges : Ranges) (ts : List TableInfo)
    → All (λ t. DistinctBy (λ c. c.name) t.columns) ts
    → table_rounds ranges (map (twin (λ t. t.name)) ts) ≡ []
unfolding table_rounds table_delta
same_rounds ranges [] d = refl
same_rounds ranges (t ∷ ts) d = ground (
  arith,
  same_columns ranges t.columns d.0,
  eqb_ℤ_iff t.row_count t.row_count,
  same_rounds ranges ts d.1,
)

same_tables :
    (ranges : Ranges) (ts : List TableInfo)
    → DistinctBy (λ t. t.name) ts
    → All (λ t. DistinctBy (λ c. c.name) t.columns) ts
    → compare_tables ranges ts ts ≡ []
unfolding compare_tables sort_by
same_tables ranges ts d h =
    rw
      (
        walk_self (λ t. t.name) ts d,
        same_rounds ranges ts h,
        nothing_ranged ranges.of_tables (ranges.tables_perm []),
      )
      refl

same_findings :
    (ranges : Ranges) (fs : List FindingInfo)
    → DistinctBy (λ f. f.id) fs
    → compare_findings ranges.of_findings fs fs no_summary
      ≡ record { listed = []; summary = record no_summary { same = length fs } }
unfolding compare_findings sort_by tally same_of
same_findings ranges fs d =
    rw
      (
        walk_self (λ f. f.id) fs d,
        nothing_ranged ranges.of_findings (ranges.findings_perm []),
        quiet_rounds fs,
      )
      (ap (λ s. record { listed = []; summary = s }) (same_tally fs 0 ∙ ap same_of (omega arith)))

-- A document compared with itself gives no false alarm: if its ids, its table names and the names
-- in each table are distinct, every finding is unchanged, nothing has changed, and no finding, no
-- table and no note is listed.
pub compare_self :
    (ranges : Ranges) (d : Document)
    → DistinctBy (λ f. f.id) d.findings
    → DistinctBy (λ t. t.name) d.tables
    → All (λ t. DistinctBy (λ c. c.name) t.columns) d.tables
    → let delta = compare ranges d d in
      (delta.summary.same ≡ length d.findings)
      × (is_changed delta.summary ≡ false)
      × (delta.findings ≡ [])
      × (delta.tables ≡ [])
      × (delta.notes ≡ [])
unfolding compare is_changed
compare_self ranges d hf ht hc =
    rw (same_findings ranges d.findings hf, same_tables ranges d.tables ht hc)
      (
        refl,
        refl,
        refl,
        refl,
        ground (arith, str_eq_iff d.root d.root, str_eq_iff d.schema d.schema),
      )
