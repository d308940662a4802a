-- ===== src/Compare/Ties.antt =====
-- internal/report/compare.go: deltas that the order leaves to the iteration of a map.
use mathlib.Core.List.{reverse, map-append, append-nil}
use mathlib.Core.List
use veritix.Base.{
  ℕ, ◌≡◌, refl, ap, sym, ◌∙◌, arith, Bool, true, false, ◌&&◌, ◌==◌, Option, none, some, List, [],
  ◌∷◌, ◌++◌, map, Str, str_eq, str_eq_iff, str_lt_asym, keep, keep-append, Bool-cases, inl, inr,
}
use veritix.Base.Sort.{sort_by-keep}
use veritix.Base.Walk.{index_by, walk}
use veritix.Compare.Model.{rank, resolved, FindingInfo, FindingDelta, DeltaSummary}
use veritix.Compare.Findings.{
  moved, delta_of, is_listed, resolved_delta, delta_less, round_deltas, left_deltas,
  compare_findings,
}

-- A resolved delta of one severity, rule, table and column.
abbrev pub ties : FindingInfo → FindingDelta → Bool
ties f d =
    rank d.status == rank resolved
    && (str_eq d.severity f.severity
        && (str_eq d.rule f.rule && (str_eq d.table f.table && str_eq d.column f.column)))

str_lt_irrefl : (s : Str) → veritix.Base.str_lt s s ≡ false
str_lt_irrefl s = ground (arith, str_lt_asym s s)

tied_not_less :
    (f : FindingInfo) (a b : FindingDelta)
    → ties f a ≡ true
    → ties f b ≡ true
    → delta_less a b ≡ false
unfolding delta_less rank
tied_not_less f a b h k = ground (
  arith,
  h,
  k,
  str_eq_iff a.severity f.severity,
  str_eq_iff b.severity f.severity,
  str_eq_iff a.severity b.severity,
  str_eq_iff a.rule f.rule,
  str_eq_iff b.rule f.rule,
  str_eq_iff a.rule b.rule,
  str_eq_iff a.table f.table,
  str_eq_iff b.table f.table,
  str_eq_iff a.table b.table,
  str_eq_iff a.column f.column,
  str_eq_iff b.column f.column,
  str_lt_irrefl f.column,
)

not_resolved :
    (f : FindingInfo) (p : Option FindingInfo × FindingInfo) → ties f (delta_of p) ≡ false
unfolding delta_of moved rank
not_resolved f (none, g) = refl
not_resolved f (some prev, g) = ground arith

no_ties :
    (f : FindingInfo) (ps : List (Option FindingInfo × FindingInfo))
    → keep (ties f) (keep is_listed (map delta_of ps)) ≡ []
no_ties f [] = refl
no_ties f (p ∷ ps) = ground (arith, not_resolved f p, no_ties f ps)

keep-reverse : {A : Type 0} (p : A → Bool) (xs : List A) → keep p (reverse xs) ≡ reverse (keep p xs)
keep-reverse p [] = refl
keep-reverse p (x ∷ xs) =
    ap (keep p) (List.reverse-cons x xs)
    ∙ keep-append p (reverse xs) (x ∷ [])
    ∙ elim (Bool-cases (p x)) [
      | inl e ↦ rw (e, keep-reverse p xs) (sym (List.reverse-cons x (keep p xs)))
      | inr e ↦ rw (e, keep-reverse p xs) (append-nil (reverse (keep p xs)))
    ]

map-reverse : {A B : Type 0} (f : A → B) (xs : List A) → map f (reverse xs) ≡ reverse (map f xs)
map-reverse f [] = refl
map-reverse f (x ∷ xs) =
    ap (map f) (List.reverse-cons x xs)
    ∙ map-append f (reverse xs) (x ∷ [])
    ∙ ap (λ ys. ys ++ f x ∷ []) (map-reverse f xs)
    ∙ sym (List.reverse-cons (f x) (map f xs))

module _ (before after : List FindingInfo) (sum : DeltaSummary) (f : FindingInfo) where
  -- The resolved findings of one severity, rule, table and column, as a comparison lists them.
  abbrev pub listed_ties : (List (Str × FindingInfo) → List (Str × FindingInfo)) → List FindingDelta
  listed_ties range = keep (ties f) (compare_findings range before after sum).listed

  ranged :
      (range : List (Str × FindingInfo) → List (Str × FindingInfo))
      → listed_ties range ≡ keep (ties f) (left_deltas range before after)
  unfolding compare_findings round_deltas
  ranged range =
      let rounds = keep is_listed (round_deltas range before after) in
      let left = left_deltas range before after in
      sort_by-keep delta_less (ties f) (tied_not_less f) (rounds ++ left)
      ∙ keep-append (ties f) rounds left
      ∙ ap (λ xs. xs ++ keep (ties f) left)
          (no_ties f (walk (λ g. g.id) (index_by (λ g. g.id) before []) after).0)

  -- For every baseline and every run: the findings that this run no longer has and that agree in
  -- severity, rule, table and column are listed in the order in which the range over the map visits
  -- them, so that the opposite order of the range lists them in the opposite order.
  pub ties-follow_range :
      (range : List (Str × FindingInfo) → List (Str × FindingInfo))
      → (listed_ties range ≡ keep (ties f) (left_deltas range before after))
        × (listed_ties (λ m. reverse (range m)) ≡ reverse (listed_ties range))
  unfolding left_deltas
  ties-follow_range range =
      let left = range (walk (λ g. g.id) (index_by (λ g. g.id) before []) after).1 in
      (
        ranged range,
        ranged (λ m. reverse (range m))
            ∙ ap (keep (ties f)) (map-reverse resolved_delta left)
            ∙ keep-reverse (ties f) (map resolved_delta left)
            ∙ ap reverse (sym (ranged range)),
      )
