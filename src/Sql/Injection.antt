-- ===== src/Sql/Injection.antt =====
-- internal/engine/sql.go: what SQL reads of a quoted text is the text, whatever it holds.
use veritix.Base.{
  ℕ, zero, suc, ◌≡◌, refl, ap, ◌∙◌, sym, append-nil, drop, Bool-cases, inl, inr, arith, false,
  Option, none, some, List, [], ◌∷◌, ◌++◌, map, append_assoc, Str, if◌then◌else◌, ◌==◌, length,
}
use veritix.Sql.Quote.{
  double_quote, single_quote, double_all, ident, literal, join_comma, idents, qualify,
}

-- A byte before the text that was read.
abbrev push : ℕ → Option (Str × Str) → Option (Str × Str)
push c none = none
push c (some (t, rest)) = some (c ∷ t, rest)

-- The rest of a quoted text after its opening quote, as standard SQL reads it: two quotes are one
-- quote of the text, and one quote ends it. Returns the text and what follows it.
unfoldable pub read_rest : ℕ → Str → Option (Str × Str)
read_rest q [] = none
read_rest q (c ∷ []) = if c == q then some ([], []) else none
read_rest q (c ∷ d ∷ s) =
    let inner = read_rest q s in
    let outer = read_rest q (d ∷ s) in
    if c == q then if d == q then push q inner else some ([], d ∷ s) else push c outer

-- A quoted text at the head of a statement.
unfoldable pub read_quoted : ℕ → Str → Option (Str × Str)
unfolding read_rest
read_quoted q [] = none
read_quoted q (c ∷ s) = if c == q then read_rest q s else none

-- Whether a text does not go on with a byte.
abbrev pub NotNext : ℕ → Str → Type 0
NotNext q [] = Unit
NotNext q (c ∷ s) = c == q ≡ false

read_other : (q c : ℕ) (s : Str) → c == q ≡ false → read_rest q (c ∷ s) ≡ push c (read_rest q s)
unfolding read_rest
read_other q c [] h = rw h refl
read_other q c (d ∷ s) h = rw h refl

read_twice : (q : ℕ) (s : Str) → read_rest q (q ∷ q ∷ s) ≡ push q (read_rest q s)
unfolding read_rest
read_twice q s = ground arith

read_rest-double_all :
    (q : ℕ) (s rest : Str)
    → NotNext q rest
    → read_rest q (double_all q s ++ q ∷ rest) ≡ some (s, rest)
unfolding read_rest double_all
read_rest-double_all q [] [] h = ground arith
read_rest-double_all q [] (c ∷ rest) h = ground (arith, h)
read_rest-double_all q (c ∷ s) rest h = elim (Bool-cases (c == q)) [
  | inl e ↦ rw e (
      let same : q ≡ c = ground (arith, e) in
      read_twice q (double_all q s ++ q ∷ rest)
      ∙ ap (push q) (read_rest-double_all q s rest h)
      ∙ ap (λ x. some (x ∷ s, rest)) same)
  | inr e ↦ rw e (
      read_other q c (double_all q s ++ q ∷ rest) e ∙ ap (push c) (read_rest-double_all q s rest h))
]

-- Reading a quoted name, whatever bytes it holds, gives the name back and stops at its end, if
-- the statement does not go on with a double quote.
pub read_quoted-ident :
    (name rest : Str)
    → NotNext double_quote rest
    → read_quoted double_quote (ident name ++ rest) ≡ some (name, rest)
unfolding read_quoted ident
read_quoted-ident name rest h =
    ap (read_rest double_quote)
      (append_assoc (double_all double_quote name) (double_quote ∷ []) rest)
    ∙ read_rest-double_all double_quote name rest h

-- Reading a quoted literal, whatever bytes it holds, gives the text back and stops at its end, if
-- the statement does not go on with a single quote.
pub read_quoted-literal :
    (s rest : Str)
    → NotNext single_quote rest
    → read_quoted single_quote (literal s ++ rest) ≡ some (s, rest)
unfolding read_quoted literal
read_quoted-literal s rest h =
    ap (read_rest single_quote) (append_assoc (double_all single_quote s) (single_quote ∷ []) rest)
    ∙ read_rest-double_all single_quote s rest h

-- A name, and the names after it if the text goes on.
abbrev more : Str → Str → Option (List Str) → Option (List Str)
more name [] others = some (name ∷ [])
more name (c ∷ rest) none = none
more name (c ∷ rest) (some names) = some (name ∷ names)

-- The names of a list of quoted names separated by ", ".
unfoldable pub read_names : ℕ → Str → Option (List Str)
unfolding read_quoted
read_names zero s = none
read_names (suc n) s = elim (read_quoted double_quote s) [
  | none ↦ none
  | some (name, rest) ↦ more name rest (read_names n (drop 2 rest))
]

tail_of : List Str → Str
tail_of [] = []
tail_of (n ∷ ns) = 44 ∷ 32 ∷ join_comma (map ident (n ∷ ns))

idents_cons : (n : Str) (ns : List Str) → idents (n ∷ ns) ≡ ident n ++ tail_of ns
unfolding idents join_comma tail_of
idents_cons n [] = sym (append-nil (ident n))
idents_cons n (k ∷ ns) = refl

read_first :
    (n : Str) (ns : List Str) → read_quoted double_quote (idents (n ∷ ns)) ≡ some (n, tail_of ns)
unfolding tail_of
read_first n [] = ap (read_quoted double_quote) (idents_cons n []) ∙ read_quoted-ident n [] tt
read_first n (k ∷ ns) =
    ap (read_quoted double_quote) (idents_cons n (k ∷ ns))
    ∙ read_quoted-ident n (tail_of (k ∷ ns)) (ground arith)

read_step :
    (n : ℕ) (s name rest : Str)
    → read_quoted double_quote s ≡ some (name, rest)
    → read_names (suc n) s ≡ more name rest (read_names n (drop 2 rest))
unfolding read_names
read_step n s name rest e =
    ap
      (λ o. elim o as (λ x. Option (List Str)) [
        | none ↦ none
        | some p ↦ more p.0 p.1 (read_names n (drop 2 p.1))
      ])
      e

-- Reading a list of quoted names gives the names back, whatever bytes they hold.
pub read_names-idents :
    (n : Str) (ns : List Str) → read_names (suc (length ns)) (idents (n ∷ ns)) ≡ some (n ∷ ns)
unfolding tail_of idents
read_names-idents n [] = read_step 0 (idents (n ∷ [])) n [] (read_first n [])
read_names-idents n (k ∷ ns) =
    read_step (suc (length ns)) (idents (n ∷ k ∷ ns)) n (tail_of (k ∷ ns)) (read_first n (k ∷ ns))
    ∙ ap (more n (tail_of (k ∷ ns))) (read_names-idents k ns)

-- Reading a qualified name gives the table and then the column, whatever bytes they hold.
pub read_quoted-qualify :
    (table column : Str)
    → (read_quoted double_quote (qualify table column) ≡ some (table, 46 ∷ ident column))
      × (read_quoted double_quote (ident column) ≡ some (column, []))
unfolding qualify
read_quoted-qualify table column = (
  read_quoted-ident table (46 ∷ ident column) (ground arith),
  ap (read_quoted double_quote) (sym (append-nil (ident column))) ∙ read_quoted-ident column [] tt,
)
