-- ===== src/Rules/Glob.antt =====
-- internal/rules/rules.go: `matchGlob`, on bytes. `lower` is `strings.ToLower`.
use veritix.Base.{
  ◌+◌, Bool, true, false, not, none, some, List, [], ◌∷◌, Str, codes, str_eq, has_prefix,
  if◌then◌else◌, ◌==◌, length, drop,
}
use veritix.Base.Find.{index_of, contains, has_suffix}

-- `strings.Split` at the stars: the first part and the others.
unfoldable pub split_stars : Str → Str × List Str
split_stars [] = ([], [])
split_stars (c ∷ s) =
    let (part, parts) = split_stars s in if c == 42 then ([], part ∷ parts) else (c ∷ part, parts)

-- The parts after the first, on what is left of the name.
unfoldable pub match_parts : List Str → Str → Bool
match_parts [] name = true
match_parts (part ∷ []) name = if str_eq part [] then true else has_suffix name part
match_parts (part ∷ next ∷ parts) name =
    if str_eq part [] then match_parts (next ∷ parts) name else elim (index_of name part) [
      | none ↦ false
      | some i ↦ match_parts (next ∷ parts) (drop (i + length part) name)
    ]

unfoldable pub match_first : Str → List Str → Str → Bool
unfolding match_parts
match_first part parts name =
    if str_eq part []
    then match_parts parts name
    else if not (has_prefix name part)
    then false
    else match_parts parts (drop (length part) name)

unfoldable pub match_glob : (Str → Str) → Str → Str → Bool
unfolding split_stars match_first
match_glob lower pattern name =
    if str_eq (lower pattern) (lower name)
    then true
    else if not (contains (lower pattern) (codes "*"))
    then false
    else let (part, parts) = split_stars (lower pattern) in match_first part parts (lower name)
