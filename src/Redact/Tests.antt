-- ===== src/Redact/Tests.antt =====
-- The guard on small values: runs, and the theorems at them.
use veritix.Base.{
  ◌+◌, ◌≤◌, ◌≡◌, ◌↔◌, refl, inl, arith, true, false, Option, some, List, [], ◌∷◌, Str, codes,
  length, All, map, if◌then◌else◌, str_eq, has_prefix, any_of,
}
use veritix.Base.Int.{pos}
use veritix.Base.Decimal.{show_nat}
use veritix.Base.Utf8.{runes, encode}
use veritix.Base.Unicode.{ascii}
use veritix.Redact.Shape.{Patterns, shape_rune, shape, mark, unmark}
use veritix.Redact.Fixed.{IsHidden, shape-IsHidden}
use veritix.Redact.Guard.{Guard, AnyValue, values, cell}
use veritix.Redact.Withheld.{cell-Indistinct}
use veritix.Redact.Ledger.{handled, limit, values_lem}
use veritix.Redact.Quoted.{engine_error}
use veritix.Redact.Scrub.{assemble, shown, engine_error_lem}
use veritix.Redact.Seal.{
  GoValue, string, interface, struct, sequence, dictionary, scalar, cleared, field, no_field, item,
  no_item, entry, no_entry, inspect, seal, Refusal,
}
use veritix.Redact.Rows.{clear_rows, result_set, has_aggregate_time, run_sql-is_refused}
use veritix.Redact.Leak.{is_refused}

shape_run : shape ascii (codes "CUS-004417") ≡ codes "XXX-999999"
unfolding shape runes encode
shape_run = refl

abbrev patterns : Patterns
patterns = record {
  email = λ s. if str_eq s (codes "a@b.co") then codes "[email]" else s;
  ssn = λ s. s;
  long_number = λ s. s;
}

abbrev closed : Guard
closed = record {
  policy = record { allow_values = false; max_value_len = pos 120; max_shape_len = pos 60 };
  stats = record {
    shaped = 0;
    masked = 0;
    passed = 0;
    truncated = 0;
    sealed = 0;
    bytes = 0;
    documents = 0;
    document_bytes = 0;
  };
}

shape-IsHidden_example : All (IsHidden ascii) (runes (shape ascii (codes "a-1")))
shape-IsHidden_example = shape-IsHidden ascii (codes "a-1")

cell-Indistinct_example :
    cell ascii patterns closed (AnyValue.text (codes "a1")) true
    ≡ cell ascii patterns closed (AnyValue.text (codes "b7")) true
unfolding runes
cell-Indistinct_example =
    cell-Indistinct ascii patterns closed (AnyValue.text (codes "a1")) (AnyValue.text (codes "b7"))
      true refl (ground arith, (ground arith, tt))

values_lem_example :
    let vs = codes "a@b.co" ∷ codes "x" ∷ [] in
    (length (values ascii patterns closed vs).0 ≡ 2)
    × (handled (values ascii patterns closed vs).1.stats ≡ handled closed.stats + 2)
    × All (λ t. length t.s ≤ limit ascii patterns closed.policy) (values ascii patterns closed vs).0
    × ((values ascii patterns closed vs).1.policy ≡ closed.policy)
values_lem_example = values_lem ascii patterns closed (codes "a@b.co" ∷ codes "x" ∷ [])

abbrev pieces : List (Str × Str)
pieces = (codes "Could not convert string ", codes "N/A") ∷ []

engine_error_lem_example :
    (engine_error ascii closed (some (assemble pieces (codes " to INT"))) (codes "SELECT")).0.s
    ≡ assemble
        (map (λ piece. (piece.0, shown ascii closed.policy (codes "SELECT") piece.1)) pieces)
        (codes " to INT")
engine_error_lem_example =
    engine_error_lem ascii (codes "SELECT") closed pieces (codes " to INT") (omega arith)
      (inl (omega arith))

-- A marshaller that writes one byte for anything.
abbrev marshal : GoValue → Option Str
marshal v = some (b'x' ∷ [])

abbrev row : GoValue
row = struct (
    field (codes "Rows") true (sequence (item (interface (string (codes "N/A"))) no_item)) no_field)

refusal_names_the_field :
    inspect row false [] ≡ some (Refusal.unclassified_string (codes "Rows[0]"))
unfolding inspect veritix.Redact.Seal.path_or veritix.Redact.Shape.trim_prefix has_prefix str_eq
    show_nat
refusal_names_the_field = refl

abbrev a_time : AnyValue
a_time = AnyValue.time (codes "2024-01-31T00:00:00Z")

run_sql-is_refused_example :
    let (cells, g) = clear_rows ascii patterns closed (true ∷ []) ((a_time ∷ []) ∷ []) in
    let out = result_set (codes "max" ∷ []) (true ∷ []) cells [] in
    (is_refused (seal marshal g out).0 ≡ true)
    ↔ (any_of (has_aggregate_time (true ∷ [])) ((a_time ∷ []) ∷ []) ≡ true)
run_sql-is_refused_example =
    run_sql-is_refused ascii patterns marshal closed (codes "max" ∷ []) (true ∷ [])
      ((a_time ∷ []) ∷ []) []

abbrev keyed : GoValue
keyed = interface (dictionary true (entry (codes "alice@example.com") scalar no_entry))
