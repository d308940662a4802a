-- ===== src/Compare/Tables.antt =====
-- internal/report/compare.go: `compareTables` and `columnDiff`.
use veritix.Base.{
  Bool, ◌&&◌, Option, none, some, List, [], ◌∷◌, ◌++◌, map, Str, str_lt, if◌then◌else◌, ◌==◌,
  length,
}
use veritix.Base.Int.{pos, eqb_ℤ}
use veritix.Base.Walk.{index_by, walk}
use veritix.Base.Sort.{sort_by}
use veritix.Compare.Model.{added, removed, changed, ColumnInfo, TableInfo, TableDelta, Ranges}

-- The names of the new columns that no old column has.
unfoldable pub new_names : List (Option ColumnInfo × ColumnInfo) → List Str
new_names [] = []
new_names ((none, c) ∷ ps) = c.name ∷ new_names ps
new_names ((some _, c) ∷ ps) = new_names ps

-- The added columns, and the removed ones.
unfoldable pub column_diff : Ranges → List ColumnInfo → List ColumnInfo → List Str × List Str
unfolding new_names
column_diff ranges before after =
    let (pairs, old) = walk (λ c. c.name) (index_by (λ c. c.name) before []) after in
    (sort_by str_lt (new_names pairs), sort_by str_lt (map (λ e. e.0) (ranges.of_columns old)))

-- One round of the loop: nothing for a table in which nothing moved.
unfoldable pub table_delta : Ranges → Option TableInfo × TableInfo → Option TableDelta
table_delta ranges (none, t) = some (record {
  name = t.name;
  source = t.source;
  change = added;
  rows_before = pos 0;
  rows_after = t.row_count;
  columns_added = [];
  columns_removed = [];
})
table_delta ranges (some prev, t) =
    let (plus, minus) = column_diff ranges prev.columns t.columns in
    if eqb_ℤ prev.row_count t.row_count && (length plus == 0 && length minus == 0)
    then none
    else some (record {
      name = t.name;
      source = t.source;
      change = changed;
      rows_before = prev.row_count;
      rows_after = t.row_count;
      columns_added = plus;
      columns_removed = minus;
    })

unfoldable pub removed_delta : Str × TableInfo → TableDelta
removed_delta (k, t) = record {
  name = t.name;
  source = t.source;
  change = removed;
  rows_before = t.row_count;
  rows_after = pos 0;
  columns_added = [];
  columns_removed = [];
}

-- The deltas of the rounds that report one.
unfoldable pub table_rounds : Ranges → List (Option TableInfo × TableInfo) → List TableDelta
table_rounds ranges [] = []
table_rounds ranges (p ∷ ps) = elim (table_delta ranges p) [
  | none ↦ table_rounds ranges ps
  | some d ↦ d ∷ table_rounds ranges ps
]

unfoldable pub name_less : TableDelta → TableDelta → Bool
name_less a b = str_lt a.name b.name

unfoldable pub compare_tables : Ranges → List TableInfo → List TableInfo → List TableDelta
compare_tables ranges before after =
    let (pairs, old) = walk (λ t. t.name) (index_by (λ t. t.name) before []) after in
    sort_by name_less (table_rounds ranges pairs ++ map removed_delta (ranges.of_tables old))
