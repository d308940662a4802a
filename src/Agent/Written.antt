-- ===== src/Agent/Written.antt =====
-- internal/agent/writtencall.go: a tool call that the model wrote as text. The JSON decoder is a
-- parameter: it gives the keys of an object at the head of a text, and how much it read.
use veritix.Base.{
  ℕ, zero, suc, Bool, true, false, not, ◌||◌, Option, none, some, List, [], ◌∷◌, Str, if◌then◌else◌,
  str_eq, ltb, ◌==◌, length, drop, any_of,
}

pub record Tool : Type 0 where
  pub name : Str
  pub properties : List Str
  pub required : List Str

abbrev pub has_name : List Str → Str → Bool
has_name names k = any_of (str_eq k) names

unfoldable pub has_all : List Str → List Str → Bool
has_all keys [] = true
has_all keys (r ∷ rs) = if not (has_name keys r) then false else has_all keys rs

unfoldable pub only_known : List Str → List Str → Bool
only_known [] properties = true
only_known (k ∷ ks) properties =
    if not (has_name properties k) then false else only_known ks properties

unfoldable pub names_a_tool : List Str → List Tool → Option Str
names_a_tool keys [] = none
names_a_tool keys (t ∷ ts) =
    if length t.required == 0 || ltb (length keys) (length t.required)
    then names_a_tool keys ts
    else if not (has_all keys t.required) || not (only_known keys t.properties)
    then names_a_tool keys ts
    else some t.name

module _ (decode : Str → Option (List Str × ℕ)) where
  -- On fuel: every round moves at least one byte on.
  unfoldable pub scan : ℕ → List Tool → Str → Option Str
  scan zero tools s = none
  scan (suc n) tools [] = none
  scan (suc n) tools (c ∷ s) = elim (if c == 123 then decode (c ∷ s) else none) [
    | none ↦ scan n tools s
    | some (keys, offset) ↦ elim (names_a_tool keys tools) [
      | some name ↦ some name
      | none ↦ scan n tools (drop offset (c ∷ s))
    ]
  ]

  unfoldable pub written_call : Str → List Tool → Option Str
  unfolding scan
  written_call text tools = scan (length text) tools text
