-- ===== src/Redact/Seal.antt =====
-- internal/agent/redact/redact.go: `Seal`, `SealText` and `inspect`. A Go value is what `reflect`
-- shows of it; `json.Marshal` is a parameter, `none` where it fails. The entries of a map stand in
-- the order in which the loop visits them, each with the text of its key, and the map tells whether
-- its keys are strings.
use veritix.Base.{
  ℕ, suc, ◌+◌, Bool, true, false, Option, none, some, [], ◌++◌, Str, codes, str_eq, if◌then◌else◌,
  length,
}
use veritix.Base.Decimal.{show_nat}
use veritix.Redact.Shape.{trim_prefix}
use veritix.Redact.Guard.{Guard, Cleared}

mutual
  -- `cleared` is `Text` or `time.Time`; `raw_bytes` is a slice of bytes; `opaque` is a channel, a
  -- function or an unsafe pointer; `scalar` is every other kind.
  pub data GoValue : Type 0 where
    invalid cleared interface_nil pointer_nil raw_bytes opaque scalar : GoValue
    string : Str → GoValue
    interface pointer : GoValue → GoValue
    struct : Fields → GoValue
    sequence : Items → GoValue
    dictionary : Bool → Entries → GoValue

  pub data Fields : Type 0 where
    no_field : Fields
    field : Str → Bool → GoValue → Fields → Fields

  pub data Items : Type 0 where
    no_item : Items
    item : GoValue → Items → Items

  pub data Entries : Type 0 where
    no_entry : Entries
    entry : Str → GoValue → Entries → Entries

-- The three refusals, each with the path that it names.
pub data Refusal : Type 0 where
  unclassified_string raw_bytes not_serializable : Str → Refusal

unfoldable pub path_or : Str → Str
path_or path = if str_eq path [] then codes "the top level" else trim_prefix path (codes ".")

-- The first error, if there is one.
abbrev pub or_else : Option Refusal → Option Refusal → Option Refusal
or_else none r = r
or_else (some e) r = some e

unfoldable mutual
  pub inspect : GoValue → Bool → Str → Option Refusal
  inspect invalid via_any path = none
  inspect cleared via_any path = none
  inspect interface_nil via_any path = none
  inspect pointer_nil via_any path = none
  inspect GoValue.raw_bytes via_any path = some (Refusal.raw_bytes (path_or path))
  inspect opaque via_any path = some (not_serializable (path_or path))
  inspect scalar via_any path = none
  inspect (string s) via_any path =
      if via_any then some (unclassified_string (path_or path)) else none
  inspect (interface v) via_any path = inspect v true path
  inspect (pointer v) via_any path = inspect v via_any path
  inspect (struct fs) via_any path = inspect_fields fs via_any path
  inspect (sequence vs) via_any path = inspect_items vs 0 via_any path
  inspect (dictionary strings es) via_any path = inspect_entries es via_any path

  pub inspect_fields : Fields → Bool → Str → Option Refusal
  inspect_fields no_field via_any path = none
  inspect_fields (field name exported v fs) via_any path =
      or_else (if exported then inspect v via_any (path ++ codes "." ++ name) else none)
        (inspect_fields fs via_any path)

  pub inspect_items : Items → ℕ → Bool → Str → Option Refusal
  inspect_items no_item i via_any path = none
  inspect_items (item v vs) i via_any path =
      or_else (inspect v via_any (path ++ codes "[" ++ show_nat i ++ codes "]"))
        (inspect_items vs (suc i) via_any path)

  pub inspect_entries : Entries → Bool → Str → Option Refusal
  inspect_entries no_entry via_any path = none
  inspect_entries (entry k v es) via_any path =
      or_else (inspect v via_any (path ++ codes "[" ++ k ++ codes "]"))
        (inspect_entries es via_any path)

pub data Failure : Type 0 where
  refused : Refusal → Failure
  marshal_failed : Failure

pub data Result : Type 0 where
  sealed : Str → Result
  failed : Failure → Result

abbrev pub count_sealed : Guard → Str → Guard
count_sealed g b = record g {
  stats = record g.stats { sealed = suc g.stats.sealed; bytes = g.stats.bytes + length b };
}

module _ (marshal : GoValue → Option Str) where
  unfoldable pub seal : Guard → GoValue → Result × Guard
  seal g v = elim (inspect v false []) [
    | some r ↦ (failed (refused r), g)
    | none ↦ elim (marshal v) [
      | none ↦ (failed marshal_failed, g)
      | some b ↦ (sealed b, count_sealed g b)
    ]
  ]

  -- `SealText`, given the message that `fmt.Sprintf` made.
  unfoldable pub seal_text : Guard → Str → Str × Guard
  seal_text g message =
      elim (marshal (struct (field (codes "Message") true (string message) no_field))) [
        | some b ↦ (b, count_sealed g b)
        | none ↦
            let b = codes "{\"message\":\"the result could not be encoded\"}" in
            (b, count_sealed g b)
      ]

-- A cell as it stands in a row of type `[]any`.
unfoldable pub reflect_cell : Cleared → GoValue
reflect_cell Cleared.nil = interface_nil
reflect_cell (Cleared.boolean b) = interface scalar
reflect_cell (Cleared.plain s) = interface (string s)
reflect_cell (Cleared.number n) = interface scalar
reflect_cell (Cleared.text t) = interface cleared
