-- ===== src/Compare/Truth.antt =====
-- internal/report/compare.go: which findings the delta lists, and as what.
use mathlib.Core.List.{Perm}
use veritix.Base.{
  ◌≡◌, refl, ◌∙◌, arith, Bool, true, false, ◌&&◌, ◌||◌, Option, none, some, List, [], ◌∷◌, ◌++◌,
  map, Str, str_eq, str_eq_iff, if◌then◌else◌, ◌==◌, keep, any_of, any_of-append, any_of-Perm,
  any_of-map_Perm,
}
use veritix.Base.Int.{ltb_ℤ}
use veritix.Base.Dict.{lookup, delete, lookup-delete}
use veritix.Base.Keyed.{Keyed, index_by-Keyed, walk-Keyed}
use veritix.Base.Sort.{sort_by-perm}
use veritix.Base.Walk.{has_key, DistinctBy, find_by, index_by, lookup-index_by, walk, lookup-walk}
use veritix.Compare.Model.{
  DeltaStatus, new, worsened, resolved, improved, unchanged, rank, FindingInfo, FindingDelta,
  DeltaSummary,
}
use veritix.Compare.Findings.{
  moved, delta_of, is_listed, resolved_delta, delta_less, round_deltas, compare_findings,
}

-- Whether a delta says that the finding of an id has a status.
abbrev pub says : Str → DeltaStatus → FindingDelta → Bool
says k s d = str_eq d.id k && (rank d.status == rank s)

-- What there is to say of a finding, from what each run has of it.
abbrev pub should_say : DeltaStatus → Option FindingInfo → Option FindingInfo → Bool
should_say s none none = false
should_say s none (some f) = rank new == rank s
should_say s (some b) none = rank resolved == rank s
should_say s (some b) (some f) =
    if ltb_ℤ b.count f.count
    then rank worsened == rank s
    else if ltb_ℤ f.count b.count
    then rank improved == rank s
    else if str_eq b.severity f.severity || str_eq b.severity []
    then false
    else rank unchanged == rank s

-- The part of it that a round says.
abbrev round_says : DeltaStatus → Option FindingInfo → Option FindingInfo → Bool
round_says s b none = false
round_says s b (some f) = should_say s b (some f)

abbrev left_says : DeltaStatus → Option FindingInfo → Bool
left_says s none = false
left_says s (some b) = rank resolved == rank s

rounds : List (Option FindingInfo × FindingInfo) → List FindingDelta
rounds ps = keep is_listed (map delta_of ps)

head_says :
    (k : Str) (s : DeltaStatus) (b : Option FindingInfo) (f : FindingInfo) (ds : List FindingDelta)
    → any_of (says k s) (keep is_listed (delta_of (b, f) ∷ ds)) ≡ (
        if str_eq f.id k && should_say s b (some f)
        then true
        else any_of (says k s) (keep is_listed ds))
unfolding delta_of is_listed moved rank str_eq
head_says k s none f ds = ground arith
head_says k s (some b) f ds = ground (arith, str_eq_iff b.severity f.severity)

no_round :
    (k : Str) (s : DeltaStatus) (old : List (Str × FindingInfo)) (fs : List FindingInfo)
    → has_key (λ f. f.id) k fs ≡ false
    → any_of (says k s) (rounds (walk (λ f. f.id) old fs).0) ≡ false
unfolding walk rounds
no_round k s old [] h = refl
no_round k s old (f ∷ fs) h = ground (
  arith,
  head_says k s (lookup f.id old) f (map delta_of (walk (λ f. f.id) (delete f.id old) fs).0),
  no_round k s (delete f.id old) fs,
)

rounds_say :
    (k : Str) (s : DeltaStatus) (old : List (Str × FindingInfo)) (fs : List FindingInfo)
    → DistinctBy (λ f. f.id) fs
    → any_of (says k s) (rounds (walk (λ f. f.id) old fs).0)
      ≡ round_says s (lookup k old) (find_by (λ f. f.id) k fs)
unfolding walk rounds
rounds_say k s old [] d = refl
rounds_say k s old (f ∷ fs) d = ground (
  arith,
  head_says k s (lookup f.id old) f (map delta_of (walk (λ f. f.id) (delete f.id old) fs).0),
  no_round k s (delete f.id old) fs,
  rounds_say k s (delete f.id old) fs d.1,
  d.0,
  str_eq_iff f.id k,
  lookup-delete f.id k old,
)

left_say :
    (k : Str) (s : DeltaStatus) (m : List (Str × FindingInfo))
    → Keyed (λ f. f.id) m
    → any_of (says k s) (map resolved_delta m) ≡ left_says s (lookup k m)
unfolding lookup resolved_delta
left_say k s [] h = refl
left_say k s ((j, f) ∷ m) h = ground (arith, left_say k s m h.1, h.0, str_eq_iff j k)

absent :
    (k : Str) (fs : List FindingInfo)
    → has_key (λ f. f.id) k fs ≡ false
    → find_by (λ f. f.id) k fs ≡ none
absent k [] h = refl
absent k (f ∷ fs) h = ground (arith, absent k fs)

unfound :
    (k : Str) (fs : List FindingInfo)
    → find_by (λ f. f.id) k fs ≡ none
    → has_key (λ f. f.id) k fs ≡ false
unfound k [] h = refl
unfound k (f ∷ fs) h = ground (arith, unfound k fs)

-- The two parts together.
both_say :
    (s : DeltaStatus) (b a : Option FindingInfo) (seen : Bool)
    → ((seen ≡ false) → a ≡ none)
    → (a ≡ none → seen ≡ false)
    → (if round_says s b a then true else left_says s (if seen then none else b)) ≡ should_say s b a
both_say s b none seen h g = ground (arith, g refl)
both_say s b (some f) true h g = ground arith
both_say s b (some f) false h g = ground (arith, h refl)

-- If no two findings of a run have one id, the delta says of an id exactly what should be said:
-- new for a finding only this run has, resolved for one only the baseline has, worsened or
-- improved for one of both whose count rose or fell, unchanged for one of both whose count stayed
-- and whose severity moved from one that is not empty, and nothing of any other.
pub compare_findings-should_say :
    (range : List (Str × FindingInfo) → List (Str × FindingInfo))
    → ((m : List (Str × FindingInfo)) → Perm (range m) m)
    → (before after : List FindingInfo) (sum : DeltaSummary) → DistinctBy (λ f. f.id) before
    → DistinctBy (λ f. f.id) after
    → (k : Str) (s : DeltaStatus)
    → any_of (says k s) (compare_findings range before after sum).listed
      ≡ should_say s (find_by (λ f. f.id) k before) (find_by (λ f. f.id) k after)
unfolding compare_findings rounds
compare_findings-should_say range perm before after sum db da k s =
    let id : FindingInfo → Str = λ f. f.id in
    let old = index_by id before [] in
    let left = (walk id old after).1 in
    let r = round_deltas range before after in
    let l = map resolved_delta (range left) in
    let sorted = any_of-Perm (says k s) (sort_by-perm delta_less (keep is_listed r ++ l)) in
    let parts = any_of-append (says k s) (keep is_listed r) l in
    let first = rounds_say k s old after da in
    let second =
      any_of-map_Perm (says k s) resolved_delta (perm left)
      ∙ left_say k s left (walk-Keyed id after old (index_by-Keyed id before [] tt)) in
    let rest = lookup-walk id old after k in
    let base = lookup-index_by id before k db in
    let whole =
      both_say s (find_by id k before) (find_by id k after) (has_key id k after) (absent k after)
        (unfound k after) in
    cc (sorted, parts, first, second, rest, base, whole)
