-- ===== src/Redact/Rows.antt =====
-- internal/agent/tools/query.go: the result of `run_sql`, which clears every cell of the rows, and
-- what `Seal` makes of it.
use veritix.Base.{
  ◌≡◌, ◌⊎◌, ◌↔◌, inl, inr, refl, Bool, true, false, if◌then◌else◌, Option, List, [], ◌∷◌, Str,
  codes, any_of,
}
use veritix.Base.Unicode.{Unicode}
use veritix.Redact.Shape.{Patterns}
use veritix.Redact.Guard.{Guard, Cleared, AnyValue, cell}
use veritix.Redact.Seal.{
  GoValue, scalar, string, struct, sequence, no_field, field, Items, no_item, item, seal,
  reflect_cell,
}
use veritix.Redact.Leak.{Leaks, LeaksItem, is_refused, is_refused_iff}

-- The columns that are aggregates are told in order; those beyond the last are none.
abbrev pub flag : List Bool → Bool
flag [] = false
flag (a ∷ more) = a

abbrev pub rest_flags : List Bool → List Bool
rest_flags [] = []
rest_flags (a ∷ more) = more

module _ (u : Unicode) (p : Patterns) where
  unfoldable pub clear_row : Guard → List Bool → List AnyValue → List Cleared × Guard
  clear_row g flags [] = ([], g)
  clear_row g flags (v ∷ vs) =
      let (c, g') = cell u p g v (flag flags) in
      let (cs, end) = clear_row g' (rest_flags flags) vs in (c ∷ cs, end)

  unfoldable pub clear_rows : Guard → List Bool → List (List AnyValue) → List (List Cleared) × Guard
  unfolding clear_row
  clear_rows g flags [] = ([], g)
  clear_rows g flags (row ∷ rows) =
      let (cs, g') = clear_row g flags row in
      let (css, end) = clear_rows g' flags rows in (cs ∷ css, end)

abbrev pub reflect_row : List Cleared → Items
reflect_row [] = no_item
reflect_row (c ∷ cs) = item (reflect_cell c) (reflect_row cs)

abbrev pub reflect_rows : List (List Cleared) → Items
reflect_rows [] = no_item
reflect_rows (cs ∷ css) = item (sequence (reflect_row cs)) (reflect_rows css)

abbrev pub reflect_strings : List Str → Items
reflect_strings [] = no_item
reflect_strings (s ∷ ss) = item (string s) (reflect_strings ss)

abbrev pub reflect_flags : List Bool → Items
reflect_flags [] = no_item
reflect_flags (b ∷ bs) = item scalar (reflect_flags bs)

-- The `resultSet` of `run_sql`, with its note.
unfoldable pub result_set : List Str → List Bool → List (List Cleared) → Str → GoValue
result_set columns flags rows note = struct (
    field (codes "Columns") true (sequence (reflect_strings columns)) (
      field (codes "Aggregate") true (sequence (reflect_flags flags)) (
        field (codes "Rows") true (sequence (reflect_rows rows)) (
          field (codes "RowCount") true scalar (
            field (codes "Truncated") true scalar
              (field (codes "Note") true (string note) no_field))))))

abbrev pub is_aggregate_time : AnyValue → Bool → Bool
is_aggregate_time (AnyValue.time t) a = a
is_aggregate_time _ a = false

-- A row has a time in a column that is an aggregate.
abbrev pub has_aggregate_time : List Bool → List AnyValue → Bool
has_aggregate_time flags [] = false
has_aggregate_time flags (v ∷ vs) =
    if is_aggregate_time v (flag flags) then true else has_aggregate_time (rest_flags flags) vs

no_string : (ss : List Str) → ¬ LeaksItem false (reflect_strings ss) false
unfolding LeaksItem Leaks
no_string [] h = h
no_string (s ∷ ss) (inl e) = cc e
no_string (s ∷ ss) (inr h) = no_string ss h

no_flag : (bs : List Bool) → ¬ LeaksItem false (reflect_flags bs) false
unfolding LeaksItem Leaks
no_flag [] h = h
no_flag (b ∷ bs) (inl h) = elim h [ ]
no_flag (b ∷ bs) (inr h) = no_flag bs h

-- Of the fields of a result only the rows can carry unclassified content.
result_set_iff :
    (columns : List Str) (flags : List Bool) (rows : List (List Cleared)) (note : Str)
    → Leaks false (result_set columns flags rows note) false
      ↔ LeaksItem false (reflect_rows rows) false
unfolding Leaks result_set
result_set_iff columns flags rows note = (only, λ h. inr (inr (inl (refl, h))))
  where
    only :
        Leaks false (result_set columns flags rows note) false
        → LeaksItem false (reflect_rows rows) false
    only (inl h) = absurd (no_string columns h.1)
    only (inr (inl h)) = absurd (no_flag flags h.1)
    only (inr (inr (inl h))) = h.1
    only (inr (inr (inr (inl h)))) = absurd h.1
    only (inr (inr (inr (inr (inl h))))) = absurd h.1
    only (inr (inr (inr (inr (inr (inl h)))))) = cc h.1
    only (inr (inr (inr (inr (inr (inr h)))))) = elim h [ ]

module _ (u : Unicode) (p : Patterns) where
  either :
      {A B : Type 0} (a b : Bool)
      → A ↔ (a ≡ true)
      → B ↔ (b ≡ true)
      → (A ⊎ B) ↔ ((if a then true else b) ≡ true)
  either true b h k = (λ x. refl, λ e. inl (h.1 refl))
  either false b h k = (λ x. elim x [ inl y ↦ cc (h.0 y) | inr y ↦ k.0 y ], λ e. inr (k.1 e))

  -- A cell carries unclassified content exactly if it is a time in a column that is an aggregate:
  -- `Cell` returns that as a plain string.
  cell-Leaks :
      (g : Guard) (v : AnyValue) (a : Bool)
      → Leaks false (reflect_cell (cell u p g v a).0) false ↔ (is_aggregate_time v a ≡ true)
  unfolding cell Leaks reflect_cell
  cell-Leaks g AnyValue.nil a = (λ h. absurd h, λ e. cc e)
  cell-Leaks g (AnyValue.boolean b) a = (λ h. absurd h, λ e. cc e)
  cell-Leaks g (AnyValue.time t) true = (λ h. refl, λ e. refl)
  cell-Leaks g (AnyValue.time t) false = (λ h. absurd h, λ e. cc e)
  cell-Leaks g (AnyValue.text t) a = (λ h. absurd h, λ e. cc e)
  cell-Leaks g (AnyValue.number n) true = (λ h. absurd h, λ e. cc e)
  cell-Leaks g (AnyValue.number n) false = (λ h. absurd h, λ e. cc e)
  cell-Leaks g (AnyValue.other x) a = (λ h. absurd h, λ e. cc e)

  row-Leaks :
      (g : Guard) (flags : List Bool) (vs : List AnyValue)
      → LeaksItem false (reflect_row (clear_row u p g flags vs).0) false
        ↔ (has_aggregate_time flags vs ≡ true)
  unfolding clear_row LeaksItem
  row-Leaks g flags [] = (λ x. absurd x, λ e. cc e)
  row-Leaks g flags (v ∷ vs) =
      either (is_aggregate_time v (flag flags)) (has_aggregate_time (rest_flags flags) vs)
        (cell-Leaks g v (flag flags))
        (row-Leaks (cell u p g v (flag flags)).1 (rest_flags flags) vs)

  rows-Leaks :
      (g : Guard) (flags : List Bool) (rows : List (List AnyValue))
      → LeaksItem false (reflect_rows (clear_rows u p g flags rows).0) false
        ↔ (any_of (has_aggregate_time flags) rows ≡ true)
  unfolding clear_rows LeaksItem Leaks
  rows-Leaks g flags [] = (λ x. absurd x, λ e. cc e)
  rows-Leaks g flags (row ∷ rows) =
      either (has_aggregate_time flags row) (any_of (has_aggregate_time flags) rows)
        (unfold LeaksItem in row-Leaks g flags row)
        (rows-Leaks (clear_row u p g flags row).1 flags rows)

  -- `Seal` refuses the whole result of `run_sql`, with every cell of its rows cleared by `Cell` first,
  -- exactly if some row has a time in a column that is an aggregate.
  pub run_sql-is_refused :
      (marshal : GoValue → Option Str) (g : Guard) (columns : List Str) (flags : List Bool)
      (rows : List (List AnyValue)) (note : Str)
      → let (cleared_rows, g') = clear_rows u p g flags rows in
        let out = result_set columns flags cleared_rows note in
        (is_refused (seal marshal g' out).0 ≡ true)
        ↔ (any_of (has_aggregate_time flags) rows ≡ true)
  run_sql-is_refused marshal g columns flags rows note =
      let (cleared_rows, g') = clear_rows u p g flags rows in
      let whole = is_refused_iff marshal g' (result_set columns flags cleared_rows note) in
      let only_rows = result_set_iff columns flags cleared_rows note in
      let row_cells = rows-Leaks g flags rows in
      (λ e. row_cells.0 (only_rows.0 (whole.0 e)), λ e. whole.1 (only_rows.1 (row_cells.1 e)))
