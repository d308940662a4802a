-- ===== src/Sql/Quote.antt =====
-- internal/engine/sql.go: `Ident`, `Idents`, `Literal` and `Qualify`, on bytes.
use veritix.Base.{ℕ, List, [], ◌∷◌, ◌++◌, map, Str, if◌then◌else◌, ◌==◌}

abbrev pub double_quote : ℕ
double_quote = 34

abbrev pub single_quote : ℕ
single_quote = 39

-- `strings.ReplaceAll(s, q, qq)` for a quote of one byte.
unfoldable pub double_all : ℕ → Str → Str
double_all q [] = []
double_all q (c ∷ s) = let rest = double_all q s in if c == q then q ∷ q ∷ rest else c ∷ rest

unfoldable pub ident : Str → Str
ident name = double_quote ∷ double_all double_quote name ++ double_quote ∷ []

unfoldable pub literal : Str → Str
literal s = single_quote ∷ double_all single_quote s ++ single_quote ∷ []

-- `strings.Join` with ", ".
unfoldable pub join_comma : List Str → Str
join_comma [] = []
join_comma (s ∷ []) = s
join_comma (s ∷ t ∷ ss) = s ++ 44 ∷ 32 ∷ join_comma (t ∷ ss)

unfoldable pub idents : List Str → Str
unfolding join_comma
idents names = join_comma (map ident names)

unfoldable pub qualify : Str → Str → Str
qualify table column = ident table ++ 46 ∷ ident column
