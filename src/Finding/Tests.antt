-- ===== src/Finding/Tests.antt =====
-- Findings on a small dataset: runs of the operations, and the theorems at them.
use mathlib.Core.List.{Perm}
use veritix.Base.{
  ℕ, ◌+◌, ◌%◌, ◌≡◌, ◌↔◌, refl, arith, true, false, Option, none, some, List, [], ◌∷◌, Str, codes,
  str_eq, length, All, keep, if◌then◌else◌,
}
use veritix.Base.Int.{ℤ, pos}
use veritix.Base.Decimal.{show_int}
use veritix.Base.Dict.{lookup, insert}
use veritix.Base.Sort.{InOrder}
use veritix.Finding.Severity.{Severity, warning, error, parse_severity}
use veritix.Finding.Model.{Finding, Location, check, location_string, key}
use veritix.Finding.Set.{FindingSet, new_set, add, add_all, reindex, all, verify, report_less}
use veritix.Finding.Key.{IsPlain, SameSubject, key_iff_SameSubject}
use veritix.Finding.Merge.{Inv, position, new_set-Inv, merge_all, add_all-merge_all}
use veritix.Finding.Order.{SeverityFalls, alike, all_lem}
use veritix.Finding.Verify.{Reproduces, Refuted, verify_lem, reindex-Inv}

abbrev place : Str → Str → Location
place table column = record {
  table = table;
  display = table;
  column = column;
  file = [];
  line = pos 0;
}

abbrev problem : Str → Severity → Str → ℕ → Str → Finding
problem rule severity column n query = record {
  rule = rule;
  severity = severity;
  origin = check;
  title = [];
  detail = [];
  remedy = [];
  location = place (codes "orders") column;
  count = pos n;
  total = pos 100;
  evidence = record { count_query = query; row_query = []; expected = []; observed = [] };
  verified = false;
}

abbrev nulls : Finding
nulls = problem (codes "null") warning (codes "price") 4 (codes "q1")

abbrev dates : Finding
dates = problem (codes "mixed_dates") warning (codes "due") 7 (codes "q2")

abbrev dates_again : Finding
dates_again = problem (codes "mixed_dates") error (codes "due") 9 (codes "q3")

abbrev orphans : Finding
orphans = problem (codes "orphan") error (codes "customer") 2 (codes "q4")

abbrev found : List Finding
found = nulls ∷ dates ∷ dates_again ∷ orphans ∷ []

-- The engine of the example: the first query fails, the third measures 8, the last one nothing.
abbrev engine : Str → Option ℤ
engine q =
    if str_eq q (codes "q1")
    then none
    else if str_eq q (codes "q3")
    then some (pos 8)
    else some (pos 0)

abbrev kept_items : List Finding
kept_items = nulls ∷ dates_again ∷ orphans ∷ []

abbrev sample : FindingSet
sample = reindex kept_items

sample-Inv : Inv sample
unfolding position key str_eq show_int
sample-Inv = reindex-Inv kept_items (refl, (refl, (refl, tt)))

parse_spaces : parse_severity (codes " Warn ") ≡ some warning
unfolding parse_severity str_eq
parse_spaces = refl

location_example : location_string (place (codes "orders") (codes "due")) ≡ codes "orders.due"
unfolding location_string str_eq
location_example = refl

add_all_run : add_all found new_set ≡ some sample
unfolding add_all new_set add lookup insert str_eq key show_int reindex
add_all_run = refl

verify_run :
    (verify engine sample).0.items ≡ record dates_again { count = pos 8; verified = true } ∷ []
unfolding verify reindex str_eq
verify_run = refl

add_all-merge_all_example :
    (s' : FindingSet) × (add_all found new_set ≡ some s')
    × (s'.items ≡ merge_all found new_set.items)
    × Inv s'
add_all-merge_all_example = add_all-merge_all found new_set new_set-Inv

verify_lem_example :
    Inv (verify engine sample).0
    × All (Reproduces engine) (verify engine sample).0.items
    × All (Refuted engine) (verify engine sample).1
    × (length (verify engine sample).0.items + length (verify engine sample).1
        ≡ length sample.items)
verify_lem_example = verify_lem engine sample sample-Inv

all_lem_example :
    Perm (all sample) sample.items
    × InOrder report_less (all sample)
    × SeverityFalls (all sample)
    × (keep (alike nulls) (all sample) ≡ keep (alike nulls) sample.items)
all_lem_example = all_lem sample nulls

dates-IsPlain : IsPlain dates
dates-IsPlain = omega arith

orphans-IsPlain : IsPlain orphans
orphans-IsPlain = omega arith

key_iff_SameSubject_example : (key dates ≡ key orphans) ↔ SameSubject dates orphans
key_iff_SameSubject_example = key_iff_SameSubject dates orphans dates-IsPlain orphans-IsPlain

-- A digest of the right length, in place of SHA-256.
abbrev short_digest : Str → Str
short_digest s = 1 ∷ 2 ∷ 3 ∷ 250 ∷ 5 ∷ 6 ∷ 7 ∷ length s % 256 ∷ []
