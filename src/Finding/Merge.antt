-- ===== src/Finding/Merge.antt =====
-- internal/finding/finding.go: `Add` keeps the set indexed and unique, and is the plain merge.
use veritix.Base.{
  ℕ, zero, suc, ◌≡◌, refl, sym, ap, ◌∙◌, arith, Option, none, some, List, [], ◌∷◌, ◌++◌, Str,
  str_eq, str_eq_iff, if◌then◌else◌, length, get_elem?, set, Bool-cases, Option-cases, inl, inr,
}
use veritix.Base.Dict.{lookup, insert, lookup-insert}
use veritix.Finding.Model.{Finding, key}
use veritix.Finding.Set.{FindingSet, new_set, more_severe, add, add_all}

-- The index of the first finding with a key.
unfoldable pub position : Str → List Finding → Option ℕ
position k [] = none
position k (f ∷ fs) =
    if str_eq (key f) k
    then some 0
    else elim (position k fs) [ none ↦ none | some i ↦ some (suc i) ]

-- No two findings share a key.
abbrev pub DistinctKeys : List Finding → Type 0
DistinctKeys [] = Unit
DistinctKeys (f ∷ fs) = (position (key f) fs ≡ none) × DistinctKeys fs

pub record Inv (s : FindingSet) : Type 0 where
  pub indexed : (k : Str) → lookup k s.seen ≡ position k s.items
  pub distinct : DistinctKeys s.items

-- The specification of `Add`: the finding replaces a less severe one with its key, is ignored
-- beside any other with its key, and goes to the end if its key is new.
unfoldable pub merge : Finding → List Finding → List Finding
merge f [] = f ∷ []
merge f (g ∷ gs) =
    if str_eq (key g) (key f) then (if more_severe f g then f else g) ∷ gs else g ∷ merge f gs

merge_new :
    (f : Finding) (xs : List Finding) → position (key f) xs ≡ none → merge f xs ≡ xs ++ f ∷ []
unfolding merge position
merge_new f [] h = refl
merge_new f (g ∷ gs) h = ground (arith, merge_new f gs)

-- At the index of its key, the finding that `merge` compares.
merge_old :
    (f : Finding) (xs : List Finding) (i : ℕ)
    → position (key f) xs ≡ some i
    → (g : Finding) × (get_elem? xs i ≡ some g)
      × (key g ≡ key f)
      × (merge f xs ≡ (if more_severe f g then set xs i f else xs))
unfolding merge position
merge_old f [] i h = absurd (ground arith)
merge_old f (g ∷ gs) zero h = (g, refl, ground (arith, str_eq_iff (key g) (key f)), ground arith)
merge_old f (g ∷ gs) (suc i) h =
    let (x, at, same, eq) = merge_old f gs i (ground arith) in (x, at, same, ground arith)

position-append :
    (k : Str) (xs : List Finding) (f : Finding)
    → position k (xs ++ f ∷ []) ≡ elim (position k xs) [
      | none ↦ if str_eq (key f) k then some (length xs) else none
      | some i ↦ some i
    ]
unfolding position
position-append k [] f = ground arith
position-append k (g ∷ gs) f = ground (arith, position-append k gs f)

-- A replacement under the same key moves no index.
position-set :
    (k : Str) (xs : List Finding) (i : ℕ) (f g : Finding)
    → get_elem? xs i ≡ some g
    → key g ≡ key f
    → position k (set xs i f) ≡ position k xs
unfolding position
position-set k [] i f g at same = refl
position-set k (x ∷ xs) zero f g at same = let e : key x ≡ key f = ground arith in rw e refl
position-set k (x ∷ xs) (suc i) f g at same = rw (position-set k xs i f g at same) refl

DistinctKeys-append :
    (xs : List Finding) (f : Finding)
    → DistinctKeys xs
    → position (key f) xs ≡ none
    → DistinctKeys (xs ++ f ∷ [])
unfolding position
DistinctKeys-append [] f d n = (refl, tt)
DistinctKeys-append (x ∷ xs) f d n = (
  ground
      (arith, position-append (key x) xs f, str_eq_iff (key x) (key f), str_eq_iff (key f) (key x)),
  DistinctKeys-append xs f d.1 (ground arith),
)

DistinctKeys-set :
    (xs : List Finding) (i : ℕ) (f g : Finding)
    → get_elem? xs i ≡ some g
    → key g ≡ key f
    → DistinctKeys xs
    → DistinctKeys (set xs i f)
DistinctKeys-set [] i f g at same d = tt
DistinctKeys-set (x ∷ xs) zero f g at same d =
    let e : key f ≡ key x = ground arith in (rw e d.0, d.1)
DistinctKeys-set (x ∷ xs) (suc i) f g at same d =
    (position-set (key x) xs i f g at same ∙ d.0, DistinctKeys-set xs i f g at same d.1)

pub new_set-Inv : Inv new_set
unfolding new_set lookup position
new_set-Inv = record { indexed = λ k. refl; distinct = tt }

-- The two ways that `Add` ends.
add_absent :
    (f : Finding) (s : FindingSet)
    → Inv s
    → position (key f) s.items ≡ none
    → (s' : FindingSet) × (add f s ≡ some s') × (s'.items ≡ merge f s.items) × Inv s'
unfolding add
add_absent f s v n =
    let missing : lookup (key f) s.seen ≡ none = v.indexed (key f) ∙ n in
    let s' : FindingSet = record {
      items = s.items ++ f ∷ [];
      seen = insert (key f) (length s.items) s.seen;
    } in
    (
      s',
      rw missing refl,
      sym (merge_new f s.items n),
      record {
        indexed = λ k. ground (
          arith,
          lookup-insert (key f) k (length s.items) s.seen,
          position-append k s.items f,
          v.indexed k,
          v.indexed (key f),
          str_eq_iff (key f) k,
        );
        distinct = DistinctKeys-append s.items f v.distinct n;
      },
    )

add_present :
    (f : Finding) (s : FindingSet) (i : ℕ)
    → Inv s
    → position (key f) s.items ≡ some i
    → (s' : FindingSet) × (add f s ≡ some s') × (s'.items ≡ merge f s.items) × Inv s'
unfolding add
add_present f s i v n =
    let found : lookup (key f) s.seen ≡ some i = v.indexed (key f) ∙ n in
    let (g, at, same, eq) = merge_old f s.items i n in
    elim (Bool-cases (more_severe f g)) [
      | inl e ↦ (
        record s { items = set s.items i f },
        ground arith,
        ground arith,
        record {
          indexed = λ k. v.indexed k ∙ sym (position-set k s.items i f g at same);
          distinct = DistinctKeys-set s.items i f g at same v.distinct;
        },
      )
      | inr e ↦ (s, ground arith, ground arith, v)
    ]

-- On a well-formed set `Add` never indexes out of range, it leaves the set well-formed, with one
-- finding to a key, and the findings are the plain merge of the old ones with the new one.
pub add-merge :
    (f : Finding) (s : FindingSet)
    → Inv s
    → (s' : FindingSet) × (add f s ≡ some s') × (s'.items ≡ merge f s.items) × Inv s'
add-merge f s v = elim (Option-cases (position (key f) s.items)) [
  | inl n ↦ add_absent f s v n
  | inr (i, n) ↦ add_present f s i v n
]

unfoldable pub merge_all : List Finding → List Finding → List Finding
merge_all [] xs = xs
merge_all (f ∷ fs) xs = merge_all fs (merge f xs)

-- `AddAll` on a well-formed set succeeds, leaves it well-formed, and merges the findings one by one
-- in their order.
pub add_all-merge_all :
    (fs : List Finding) (s : FindingSet)
    → Inv s
    → (s' : FindingSet) × (add_all fs s ≡ some s') × (s'.items ≡ merge_all fs s.items) × Inv s'
unfolding add_all merge_all
add_all-merge_all [] s v = (s, refl, refl, v)
add_all-merge_all (f ∷ fs) s v =
    let (s1, e1, m1, v1) = add-merge f s v in
    let (s2, e2, m2, v2) = add_all-merge_all fs s1 v1 in
    (s2, rw (e1, add_all) e2, m2 ∙ ap (merge_all fs) m1, v2)
