-- ===== src/Base/Find.antt =====
-- Package strings on bytes: suffixes, and the first place of a text in another.
use Prim.Native.Nat.{ℕ, suc}
use mathlib.Core.Bool.{Bool, true, false}
use mathlib.Core.Option.{Option, none, some}
use mathlib.Core.List.{[], ◌∷◌}
use veritix.Base.Tests.{if◌then◌else◌}
use veritix.Base.Text.{Str, str_eq, has_prefix}

-- `strings.Index`, as `none` for -1.
unfoldable pub index_of : Str → Str → Option ℕ
index_of [] part = if has_prefix [] part then some 0 else none
index_of (c ∷ s) part =
    let rest = index_of s part in
    if has_prefix (c ∷ s) part then some 0 else elim rest [ none ↦ none | some i ↦ some (suc i) ]

unfoldable pub contains : Str → Str → Bool
unfolding index_of
contains s part = elim (index_of s part) [ none ↦ false | some i ↦ true ]

unfoldable pub has_suffix : Str → Str → Bool
has_suffix [] part = str_eq [] part
has_suffix (c ∷ s) part = if str_eq (c ∷ s) part then true else has_suffix s part
