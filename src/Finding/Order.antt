-- ===== src/Finding/Order.antt =====
-- internal/finding/finding.go: the order of `All`.
use mathlib.Core.List.{Perm}
use veritix.Base.{
  ◌≤◌, ◌≡◌, arith, Bool, true, false, not, List, [], ◌∷◌, All-map, str_eq, str_lt, str_lt_asym,
  str_lt_trans, str_lt_total, if◌then◌else◌, All, keep, ◌&&◌,
}
use veritix.Base.Sort.{IsWeakOrder, InOrder, lex-str, sort_by-perm, sort_by-InOrder, sort_by-keep}
use veritix.Finding.Severity.{rank}
use veritix.Finding.Model.{Finding}
use veritix.Finding.Set.{FindingSet, report_less, all}

abbrev Unrestricted : Finding → Type 0
Unrestricted f = Unit

rule_order : IsWeakOrder Unrestricted (λ a b. str_lt a.rule b.rule)
rule_order = record {
  asym = λ a b _ _. str_lt_asym a.rule b.rule;
  neg_trans = λ a b c _ _ _. ground (
    arith,
    str_lt_total a.rule b.rule,
    str_lt_total b.rule c.rule,
    str_lt_asym b.rule a.rule,
    str_lt_asym a.rule b.rule,
    str_lt_asym b.rule c.rule,
    str_lt_asym c.rule b.rule,
    str_lt_trans a.rule c.rule b.rule,
    str_lt_trans b.rule a.rule c.rule,
  );
}

place_order : IsWeakOrder Unrestricted (λ a b.
    if not (str_eq a.location.display b.location.display)
    then str_lt a.location.display b.location.display
    else if not (str_eq a.location.column b.location.column)
    then str_lt a.location.column b.location.column
    else str_lt a.rule b.rule)
place_order =
    lex-str Unrestricted (λ f. f.location.display) _
      (lex-str Unrestricted (λ f. f.location.column) _ rule_order)

pub report_less-IsWeakOrder : IsWeakOrder Unrestricted report_less
unfolding report_less
report_less-IsWeakOrder = record {
  asym = λ a b p q. ground (arith, place_order.asym a b p q);
  neg_trans = λ a b c p q r. ground (arith, place_order.neg_trans a b c p q r);
}

each_one : (xs : List Finding) → All Unrestricted xs
each_one [] = tt
each_one (x ∷ xs) = (tt, each_one xs)

-- No finding is followed by one of a higher severity.
abbrev pub SeverityFalls : List Finding → Type 0
SeverityFalls [] = Unit
SeverityFalls (x ∷ xs) = All (λ y. rank y.severity ≤ rank x.severity) xs × SeverityFalls xs

not_less→le : (x y : Finding) → report_less y x ≡ false → rank y.severity ≤ rank x.severity
unfolding report_less
not_less→le x y h = ground arith

InOrder→SeverityFalls : (xs : List Finding) → InOrder report_less xs → SeverityFalls xs
InOrder→SeverityFalls [] h = tt
InOrder→SeverityFalls (x ∷ xs) h = (All-map (not_less→le x) xs h.0, InOrder→SeverityFalls xs h.1)

-- The findings that the report's order does not tell apart from `c`.
abbrev pub alike : Finding → Finding → Bool
alike c x = not (report_less c x) && not (report_less x c)

alike_flat : (c a b : Finding) → alike c a ≡ true → alike c b ≡ true → report_less a b ≡ false
alike_flat c a b p q =
    report_less-IsWeakOrder.neg_trans a c b tt tt tt (ground arith) (ground arith)

-- `All` returns exactly the findings of the set, in the report's order, with no finding before one
-- of a higher severity, and findings that the order does not tell apart stay as they were added.
pub all_lem :
    (s : FindingSet) (c : Finding)
    → Perm (all s) s.items
      × InOrder report_less (all s)
      × SeverityFalls (all s)
      × (keep (alike c) (all s) ≡ keep (alike c) s.items)
unfolding all
all_lem s c =
    let ordered =
      sort_by-InOrder Unrestricted report_less report_less-IsWeakOrder s.items (each_one s.items) in
    (
      sort_by-perm report_less s.items,
      ordered,
      InOrder→SeverityFalls (all s) ordered,
      sort_by-keep report_less (alike c) (alike_flat c) s.items,
    )
