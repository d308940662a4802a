-- ===== src/Sql/Statistic.antt =====
-- internal/engine/analyze.go: `isStatistic`, which decides whether a column of a query is a
-- summary. The catalog of aggregates and `strings.ToLower` are parameters.
use veritix.Base.{
  ℕ, suc, ◌+◌, ◌==◌, ◌≡◌, refl, ◌↔◌, arith, Bool, true, false, ◌&&◌, Str, if◌then◌else◌,
}

pub data Class : Type 0 where
  constant function operator cast comparison conjunction case_of : Class
  unknown : Str → Class

-- `exprNode`: its class, its function name, its children and its child.
mutual
  pub data Expr : Type 0 where
    node : Class → Str → Exprs → Child → Expr

  pub data Exprs : Type 0 where
    nil : Exprs
    cons : Expr → Exprs → Exprs

  pub data Child : Type 0 where
    no_child : Child
    child : Expr → Child

-- What the class of a node decides.
pub data Sort : Type 0 where
  summary compound cell : Sort

unfoldable pub sort_of : Class → Sort
sort_of constant = summary
sort_of (unknown name) = cell
sort_of c = compound

abbrev pub is_leaf : Exprs → Child → Bool
is_leaf nil no_child = true
is_leaf es c = false

module _ (aggregates : Str → Bool) (lower : Str → Str) where
  -- The end of `isStatistic`, given what its loop over the children finds.
  unfoldable pub decide_node : Sort → Str → Bool → Bool → Bool
  decide_node summary name leaf below = true
  decide_node cell name leaf below = false
  decide_node compound name leaf below =
      if aggregates (lower name) then true else if leaf then false else below

  unfoldable mutual
    unfolding decide_node sort_of

    pub is_statistic : Expr → Bool
    is_statistic (node c name es ch) =
        let below = all_statistic es && child_statistic ch in
        decide_node (sort_of c) name (is_leaf es ch) below

    pub all_statistic : Exprs → Bool
    all_statistic nil = true
    all_statistic (cons e es) = is_statistic e && all_statistic es

    pub child_statistic : Child → Bool
    child_statistic no_child = true
    child_statistic (child e) = is_statistic e

  -- The places of an expression that may show a cell: a node of a class that is not known, and a
  -- node of any known class but a constant that has no child and is no call of an aggregate. What
  -- stands under a call of an aggregate is summarized and does not count.
  abbrev operation_places : Str → ℕ → ℕ → ℕ
  operation_places name children below =
      if aggregates (lower name) then 0 else if children == 0 then 1 else below

  abbrev pub count_children : Exprs → Child → ℕ
  count_children nil no_child = 0
  count_children nil (child e) = 1
  count_children (cons e es) ch = suc (count_children es ch)

  unfoldable mutual
    pub bare : Expr → ℕ
    bare (node constant name es ch) = 0
    bare (node (unknown class_name) name es ch) = 1
    bare (node function name es ch) =
        operation_places name (count_children es ch) (bare_all es + bare_child ch)
    bare (node operator name es ch) =
        operation_places name (count_children es ch) (bare_all es + bare_child ch)
    bare (node cast name es ch) =
        operation_places name (count_children es ch) (bare_all es + bare_child ch)
    bare (node comparison name es ch) =
        operation_places name (count_children es ch) (bare_all es + bare_child ch)
    bare (node conjunction name es ch) =
        operation_places name (count_children es ch) (bare_all es + bare_child ch)
    bare (node case_of name es ch) =
        operation_places name (count_children es ch) (bare_all es + bare_child ch)

    pub bare_all : Exprs → ℕ
    bare_all nil = 0
    bare_all (cons e es) = bare e + bare_all es

    pub bare_child : Child → ℕ
    bare_child no_child = 0
    bare_child (child e) = bare e

  and_lem :
      (a b : Bool) (m n : ℕ)
      → (a ≡ true) ↔ (m ≡ 0)
      → (b ≡ true) ↔ (n ≡ 0)
      → (a && b ≡ true) ↔ (m + n ≡ 0)
  and_lem a b m n h k = ground (arith, h, k)

  is_leaf_lem : (es : Exprs) (ch : Child) → (count_children es ch == 0) ≡ is_leaf es ch
  is_leaf_lem nil no_child = refl
  is_leaf_lem nil (child e) = refl
  is_leaf_lem (cons e es) ch = ground arith

  operation_lem :
      (name : Str) (es : Exprs) (ch : Child) (b : Bool) (n : ℕ)
      → (b ≡ true) ↔ (n ≡ 0)
      → (decide_node compound name (is_leaf es ch) b ≡ true)
        ↔ (operation_places name (count_children es ch) n ≡ 0)
  unfolding decide_node
  operation_lem name es ch b n h = rw (is_leaf_lem es ch) (ground (arith, h))

  mutual
    unfolding is_statistic bare

    statistic_iff : (e : Expr) → (is_statistic e ≡ true) ↔ (bare e ≡ 0)
    statistic_iff (node constant name es ch) = ground arith
    statistic_iff (node (unknown class_name) name es ch) = ground arith
    statistic_iff (node function name es ch) =
        operation_lem name es ch (all_statistic es && child_statistic ch)
          (bare_all es + bare_child ch)
          (and_lem (all_statistic es) (child_statistic ch) (bare_all es) (bare_child ch)
            (all_iff es) (child_iff ch))
    statistic_iff (node operator name es ch) =
        operation_lem name es ch (all_statistic es && child_statistic ch)
          (bare_all es + bare_child ch)
          (and_lem (all_statistic es) (child_statistic ch) (bare_all es) (bare_child ch)
            (all_iff es) (child_iff ch))
    statistic_iff (node cast name es ch) =
        operation_lem name es ch (all_statistic es && child_statistic ch)
          (bare_all es + bare_child ch)
          (and_lem (all_statistic es) (child_statistic ch) (bare_all es) (bare_child ch)
            (all_iff es) (child_iff ch))
    statistic_iff (node comparison name es ch) =
        operation_lem name es ch (all_statistic es && child_statistic ch)
          (bare_all es + bare_child ch)
          (and_lem (all_statistic es) (child_statistic ch) (bare_all es) (bare_child ch)
            (all_iff es) (child_iff ch))
    statistic_iff (node conjunction name es ch) =
        operation_lem name es ch (all_statistic es && child_statistic ch)
          (bare_all es + bare_child ch)
          (and_lem (all_statistic es) (child_statistic ch) (bare_all es) (bare_child ch)
            (all_iff es) (child_iff ch))
    statistic_iff (node case_of name es ch) =
        operation_lem name es ch (all_statistic es && child_statistic ch)
          (bare_all es + bare_child ch)
          (and_lem (all_statistic es) (child_statistic ch) (bare_all es) (bare_child ch)
            (all_iff es) (child_iff ch))

    all_iff : (es : Exprs) → (all_statistic es ≡ true) ↔ (bare_all es ≡ 0)
    all_iff nil = ground arith
    all_iff (cons e es) =
        and_lem (is_statistic e) (all_statistic es) (bare e) (bare_all es) (statistic_iff e)
          (all_iff es)

    child_iff : (c : Child) → (child_statistic c ≡ true) ↔ (bare_child c ≡ 0)
    child_iff no_child = ground arith
    child_iff (child e) = statistic_iff e

  -- An expression is taken for a statistic exactly if no place in it may show a cell: wherever
  -- no call of an aggregate stands above, there is no node of an unknown class, and no node
  -- without children but constants and calls of aggregates.
  pub is_statistic_iff : (e : Expr) → (is_statistic e ≡ true) ↔ (bare e ≡ 0)
  is_statistic_iff = statistic_iff
