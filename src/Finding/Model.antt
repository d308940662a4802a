-- ===== src/Finding/Model.antt =====
-- internal/finding/finding.go: `Origin`, `Location`, `Evidence`, `Finding`, its key and its id.
-- `Share` is a float and is left out. SHA-256 is a parameter: 32 bytes of a byte string.
use veritix.Base.{
  ℕ, ◌+◌, ◌/◌, ◌%◌, Bool, [], ◌∷◌, ◌++◌, Str, codes, str_eq, ltb, if◌then◌else◌, take,
}
use veritix.Base.Int.{ℤ, pos, ltb_ℤ}
use veritix.Base.Decimal.{show_int}
use veritix.Finding.Severity.{Severity}

pub data Origin : Type 0 where
  check rule agent : Origin

pub record Location : Type 0 where
  pub table : Str
  pub display : Str
  pub column : Str
  pub file : Str
  pub line : ℤ

pub record Evidence : Type 0 where
  pub count_query : Str
  pub row_query : Str
  pub expected : Str
  pub observed : Str

pub record Finding : Type 0 where
  pub rule : Str
  pub severity : Severity
  pub origin : Origin
  pub title : Str
  pub detail : Str
  pub remedy : Str
  pub location : Location
  pub count : ℤ
  pub total : ℤ
  pub evidence : Evidence
  pub verified : Bool

-- `Location.String`
unfoldable pub location_string : Location → Str
location_string l =
    let base = if str_eq l.display [] then l.table else l.display in
    let where_column = if str_eq l.column [] then base else base ++ codes "." ++ l.column in
    if ltb_ℤ (pos 0) l.line then where_column ++ codes ":" ++ show_int l.line else where_column

-- Rule, table, column and line, joined by the byte 0.
unfoldable pub key : Finding → Str
key f = f.rule ++ 0 ∷ (f.location.table ++ 0 ∷ (f.location.column ++ 0 ∷ show_int f.location.line))

abbrev hex_digit : ℕ → ℕ
hex_digit n = if ltb n 10 then 48 + n else 87 + n

-- hex.EncodeToString
unfoldable pub hex_encode : Str → Str
hex_encode [] = []
hex_encode (b ∷ s) = hex_digit (b / 16) ∷ hex_digit (b % 16) ∷ hex_encode s

-- `ID`: the first eight bytes of the digest of the key, in hexadecimal.
unfoldable pub id : (Str → Str) → Finding → Str
unfolding hex_encode key
id sum256 f = hex_encode (take 8 (sum256 (key f)))
