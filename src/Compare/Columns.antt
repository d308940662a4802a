-- ===== src/Compare/Columns.antt =====
-- internal/report/compare.go: what `columnDiff` lists.
use veritix.Base.{
  ◌≡◌, refl, ◌∙◌, arith, Bool, false, not, ◌&&◌, none, some, List, [], ◌∷◌, map, Str, str_eq,
  str_eq_iff, str_lt, any_of, any_of-Perm, any_of-map_Perm,
}
use veritix.Base.Dict.{lookup, delete, lookup-delete}
use veritix.Base.Sort.{sort_by-perm}
use veritix.Base.Walk.{
  has_key, DistinctBy, is_some, has_key-find_by, index_by, lookup-index_by, walk, lookup-walk,
}
use veritix.Compare.Model.{ColumnInfo, Ranges}
use veritix.Compare.Tables.{new_names, column_diff}

-- Whether a name is in a list.
abbrev pub named : Str → Str → Bool
named k n = str_eq n k

no_name :
    (k : Str) (old : List (Str × ColumnInfo)) (cs : List ColumnInfo)
    → has_key (λ c. c.name) k cs ≡ false
    → any_of (named k) (new_names (walk (λ c. c.name) old cs).0) ≡ false
unfolding walk new_names
no_name k old [] h = refl
no_name k old (c ∷ cs) h = elim (lookup c.name old) [
  | none ↦ ground (arith, no_name k (delete c.name old) cs)
  | some _ ↦ ground (arith, no_name k (delete c.name old) cs)
]

names_added :
    (k : Str) (old : List (Str × ColumnInfo)) (cs : List ColumnInfo)
    → DistinctBy (λ c. c.name) cs
    → any_of (named k) (new_names (walk (λ c. c.name) old cs).0)
      ≡ has_key (λ c. c.name) k cs && not (is_some (lookup k old))
unfolding walk new_names
names_added k old [] d = refl
names_added k old (c ∷ cs) d = ground (
  arith,
  names_added k (delete c.name old) cs d.1,
  no_name k (delete c.name old) cs,
  d.0,
  str_eq_iff c.name k,
  lookup-delete c.name k old,
)

names_left :
    (k : Str) (m : List (Str × ColumnInfo))
    → any_of (named k) (map (λ e. e.0) m) ≡ is_some (lookup k m)
unfolding lookup
names_left k [] = refl
names_left k ((j, c) ∷ m) = ground (arith, names_left k m)

-- If neither list of columns has a name twice, the added columns are exactly those that only the
-- new list has, and the removed ones exactly those that only the old list has.
pub column_diff_lem :
    (ranges : Ranges) (before after : List ColumnInfo)
    → DistinctBy (λ c. c.name) before
    → DistinctBy (λ c. c.name) after
    → (k : Str)
    → (any_of (named k) (column_diff ranges before after).0
        ≡ has_key (λ c. c.name) k after && not (has_key (λ c. c.name) k before))
      × (any_of (named k) (column_diff ranges before after).1
          ≡ has_key (λ c. c.name) k before && not (has_key (λ c. c.name) k after))
unfolding column_diff
column_diff_lem ranges before after db da k =
    let name : ColumnInfo → Str = λ c. c.name in
    let old = index_by name before [] in
    let w = walk name old after in
    let plus = any_of-Perm (named k) (sort_by-perm str_lt (new_names w.0)) in
    let added = names_added k old after da in
    let minus =
      any_of-Perm (named k) (sort_by-perm str_lt (map (λ e. e.0) (ranges.of_columns w.1))) in
    let left =
      any_of-map_Perm (named k) (λ (e : Str × ColumnInfo). e.0) (ranges.columns_perm w.1)
      ∙ names_left k w.1 in
    let rest = lookup-walk name old after k in
    let base = lookup-index_by name before k db in
    let there = has_key-find_by name k before in
    (ground (arith, plus, added, base, there), ground (arith, minus, left, rest, base, there))
