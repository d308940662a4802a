-- ===== src/Sql/Tests.antt =====
-- internal/engine: a name that tries to end its quotes, and the expression round(avg(x), 2).
use veritix.Base.{◌≡◌, refl, some, [], ◌∷◌, Str, codes}
use veritix.Sql.Quote.{idents}
use veritix.Sql.Injection.{read_names, read_names-idents}
use veritix.Base.{Bool, true, ◌↔◌, str_eq}
use veritix.Sql.Statistic.{
  Expr, node, nil, cons, no_child, function, constant, unknown, is_statistic, bare,
  is_statistic_iff,
}

abbrev nasty : Str
nasty = codes "\"; DROP TABLE x; --"

read_names-idents_example :
    read_names 2 (idents (nasty ∷ codes "b" ∷ [])) ≡ some (nasty ∷ codes "b" ∷ [])
read_names-idents_example = read_names-idents nasty (codes "b" ∷ [])

abbrev is_avg : Str → Bool
is_avg = str_eq (codes "avg")

abbrev column_x : Expr
column_x = node (unknown (codes "COLUMN_REF")) [] nil no_child

abbrev rounded : Expr
rounded =
    node function (codes "round")
      (cons (node function (codes "avg") (cons column_x nil) no_child)
        (cons (node constant [] nil no_child) nil))
      no_child

rounded_run : is_statistic is_avg (λ s. s) rounded ≡ true
unfolding is_statistic str_eq
rounded_run = refl

is_statistic_iff_example :
    (is_statistic is_avg (λ s. s) rounded ≡ true) ↔ (bare is_avg (λ s. s) rounded ≡ 0)
is_statistic_iff_example = is_statistic_iff is_avg (λ s. s) rounded
