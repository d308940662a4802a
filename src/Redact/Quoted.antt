-- ===== src/Redact/Quoted.antt =====
-- internal/agent/redact/redact.go: `EngineError` and `scrubQuoted`. The loop takes two quotes off
-- the message in a round, so the length of the message is fuel enough.
use veritix.Base.{
  ℕ, zero, suc, Bool, not, ◌&&◌, ◌||◌, Option, none, some, [], ◌∷◌, ◌++◌, Str, str_eq, ◌==◌,
  if◌then◌else◌, length, has_prefix,
}
use veritix.Base.Unicode.{Unicode}
use veritix.Redact.Guard.{Guard, Text, shape_text}

abbrev pub quote : ℕ
quote = 39

-- `strings.IndexByte(s, '\'')`: what stands before the first quote and after it.
unfoldable pub cut_at_quote : Str → Option (Str × Str)
cut_at_quote [] = none
cut_at_quote (c ∷ s) =
    let later : Option (Str × Str) = elim (cut_at_quote s) [
      | none ↦ none
      | some (a, b) ↦ some (c ∷ a, b)
    ] in
    if c == quote then some ([], s) else later

-- strings.Contains
unfoldable pub contains : Str → Str → Bool
contains [] needle = has_prefix [] needle
contains (c ∷ s) needle = has_prefix (c ∷ s) needle || contains s needle

-- A literal of the model's own statement passes, any other is shaped.
unfoldable pub clear_quoted : Unicode → Str → Guard → Str → Str × Guard
clear_quoted u sql g quoted =
    if not (str_eq sql []) && contains sql (quote ∷ quoted ++ quote ∷ [])
    then (quoted, g)
    else (let (t, g') = shape_text u g quoted in (t.s, g'))

abbrev second_quote : Str → Option (Str × Str) → Option (Str × Str × Str)
second_quote before none = none
second_quote before (some (quoted, rest)) = some (before, quoted, rest)

abbrev first_quote : Option (Str × Str) → Option (Str × Str × Str)
first_quote none = none
first_quote (some (before, after)) = second_quote before (cut_at_quote after)

-- What stands before the first quote, between it and the second, and after that one.
unfoldable pub quoted_piece : Str → Option (Str × Str × Str)
quoted_piece s = first_quote (cut_at_quote s)

unfoldable pub scrub_loop : Unicode → Str → ℕ → Guard → Str → Str × Guard
scrub_loop u sql zero g rest = (rest, g)
scrub_loop u sql (suc fuel) g rest = elim (quoted_piece rest) [
  | none ↦ (rest, g)
  | some (before, quoted, rest') ↦
      let (shown, g1) = clear_quoted u sql g quoted in
      let (tail, g2) = scrub_loop u sql fuel g1 rest' in
      (before ++ quote ∷ (shown ++ quote ∷ tail), g2)
]

unfoldable pub scrub_quoted : Unicode → Guard → Str → Str → Str × Guard
unfolding scrub_loop
scrub_quoted u g s sql = scrub_loop u sql (suc (length s)) g s

-- `EngineError`; the error is its message, if there is one.
unfoldable pub engine_error : Unicode → Guard → Option Str → Str → Text × Guard
engine_error u g none sql = (record { s = [] }, g)
engine_error u g (some message) sql =
    let (t, g') = scrub_quoted u g message sql in (record { s = t }, g')
