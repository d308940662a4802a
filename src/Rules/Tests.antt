-- ===== src/Rules/Tests.antt =====
-- A pattern and a small rules file: runs of the operations, and the theorems at them.
use veritix.Base.{
  ℕ, ◌≡◌, refl, Bool, true, none, some, [], ◌∷◌, Str, codes, str_eq, ltb, has_prefix,
}
use veritix.Base.Int.{pos}
use veritix.Base.Find.{index_of, has_suffix, contains}
use veritix.Rules.Glob.{match_glob}
use veritix.Rules.Reference.{fits, match_glob-fits}
use veritix.Rules.Model.{Rule, File, load, parse_expectation}
use veritix.Rules.Loaded.{Enforceable, load-Enforceable}

abbrev as_is : Str → Str
as_is s = s

-- "or*s.csv" on "orders.csv"
glob_orders : match_glob as_is (codes "or*s.csv") (codes "orders.csv") ≡ true
unfolding match_glob str_eq index_of has_prefix has_suffix contains
glob_orders = refl

match_glob-fits_example :
    match_glob as_is (codes "or*s.csv") (codes "orders.csv")
    ≡ fits (codes "or*s.csv") (codes "orders.csv")
match_glob-fits_example = match_glob-fits as_is (codes "or*s.csv") (codes "orders.csv")

abbrev no_nulls : Rule ℕ
no_nulls = record {
  id = codes "r";
  table = codes "*.csv";
  column = codes "id";
  expect = codes "not_null";
  values = [];
  values_from = [];
  pattern = [];
  min = none;
  max = none;
  references = [];
  where_clause = [];
}

abbrev one_rule : File ℕ
one_rule = record { version = pos 1; rules = no_nulls ∷ [] }

abbrev above : ℕ → ℕ → Bool
above a b = ltb b a

loads : load above (some one_rule) ≡ some one_rule
unfolding load str_eq
loads = refl

load-Enforceable_example : Enforceable above one_rule one_rule
load-Enforceable_example = load-Enforceable above one_rule one_rule loads

parses : parse_expectation as_is as_is (codes "range") ≡ some (codes "range")
unfolding parse_expectation str_eq
parses = refl
