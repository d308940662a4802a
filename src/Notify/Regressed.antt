-- ===== src/Notify/Regressed.antt =====
-- internal/notify/notify.go and internal/report/compare.go: the comparison of two runs and the choice
-- whether anyone is told.
use veritix.Base.{
  ◌≡◌, refl, ap, sym, ◌∙◌, subst, arith, Bool, true, false, ◌&&◌, Option, none, some, List, [], ◌∷◌,
  ◌++◌, map, Str, codes, str_eq, str_eq_iff, if◌then◌else◌, ltb, leb, length, keep, any_of,
  any_of-append, any_of-Perm,
}
use veritix.Base.Int.{ltb_ℤ}
use veritix.Base.Dict.{lookup, delete, lookup-delete}
use veritix.Base.Sort.{sort_by-perm}
use veritix.Base.Walk.{has_key, DistinctBy, find_by, index_by, lookup-index_by, walk}
use veritix.Config.Settings.{Notify}
use veritix.Compare.Model.{rank, severity_rank, FindingInfo, FindingDelta, DeltaSummary}
use veritix.Compare.Findings.{
  moved, delta_of, is_listed, resolved_delta, delta_less, round_deltas, left_deltas,
  compare_findings, is_regression, regressed, regressions,
}
use veritix.Notify.Sink.{regression, count_regressions, wanted}

-- A finding is a regression against what the baseline has of its id: it is at least as severe as
-- asked for, and the baseline has none or a smaller count.
abbrev pub grew : Option FindingInfo → FindingInfo → Bool
grew none f = true
grew (some b) f = ltb_ℤ b.count f.count

abbrev pub is_worse : Str → Option FindingInfo → FindingInfo → Bool
is_worse min_severity b f = leb (severity_rank f.severity) (severity_rank min_severity) && grew b f

module _ (min_severity : Str) where
  head_regresses :
      (b : Option FindingInfo) (f : FindingInfo) (ds : List FindingDelta)
      → any_of (is_regression min_severity) (keep is_listed (delta_of (b, f) ∷ ds)) ≡ (
          if is_worse min_severity b f
          then true
          else any_of (is_regression min_severity) (keep is_listed ds))
  unfolding delta_of is_listed moved rank is_regression
  head_regresses none f ds = ground arith
  head_regresses (some b) f ds = ground arith

  after_delete :
      (k : Str) (old : List (Str × FindingInfo)) (fs : List FindingInfo)
      → has_key (λ f. f.id) k fs ≡ false
      → any_of (λ f. is_worse min_severity (lookup f.id (delete k old)) f) fs
        ≡ any_of (λ f. is_worse min_severity (lookup f.id old) f) fs
  after_delete k old [] h = refl
  after_delete k old (f ∷ fs) h =
      let same : lookup f.id (delete k old) ≡ lookup f.id old =
        ground (arith, lookup-delete k f.id old, h, str_eq_iff k f.id, str_eq_iff f.id k) in
      rw same (
        ap (λ b. if is_worse min_severity (lookup f.id old) f then true else b)
          (after_delete k old fs (ground (arith, h))))

  rounds_regress :
      (old : List (Str × FindingInfo)) (fs : List FindingInfo)
      → DistinctBy (λ f. f.id) fs
      → any_of
          (is_regression min_severity)
          (keep is_listed (map delta_of (walk (λ f. f.id) old fs).0))
        ≡ any_of (λ f. is_worse min_severity (lookup f.id old) f) fs
  unfolding walk
  rounds_regress old [] d = refl
  rounds_regress old (f ∷ fs) d =
      head_regresses (lookup f.id old) f (map delta_of (walk (λ g. g.id) (delete f.id old) fs).0)
      ∙ ap (λ b. if is_worse min_severity (lookup f.id old) f then true else b)
          (rounds_regress (delete f.id old) fs d.1 ∙ after_delete f.id old fs d.0)

  no_left :
      (m : List (Str × FindingInfo))
      → any_of (is_regression min_severity) (map resolved_delta m) ≡ false
  unfolding resolved_delta is_regression rank
  no_left [] = refl
  no_left (e ∷ m) = ground (arith, no_left m)

  by_find :
      (before fs : List FindingInfo)
      → DistinctBy (λ f. f.id) before
      → any_of (λ f. is_worse min_severity (lookup f.id (index_by (λ g. g.id) before [])) f) fs
        ≡ any_of (λ f. is_worse min_severity (find_by (λ g. g.id) f.id before) f) fs
  by_find before [] d = refl
  by_find before (f ∷ fs) d = rw (lookup-index_by (λ g. g.id) before f.id d) (
      ap (λ b. if is_worse min_severity (find_by (λ g. g.id) f.id before) f then true else b)
        (by_find before fs d))

  listed_regress :
      (range : List (Str × FindingInfo) → List (Str × FindingInfo))
      (before after : List FindingInfo) (sum : DeltaSummary)
      → DistinctBy (λ f. f.id) before
      → DistinctBy (λ f. f.id) after
      → any_of (is_regression min_severity) (compare_findings range before after sum).listed
        ≡ any_of (λ f. is_worse min_severity (find_by (λ g. g.id) f.id before) f) after
  unfolding compare_findings round_deltas left_deltas
  listed_regress range before after sum db da =
      let p = is_regression min_severity in
      let old = index_by (λ (g : FindingInfo). g.id) before [] in
      let walked = walk (λ (g : FindingInfo). g.id) old after in
      let new_ones = keep is_listed (map delta_of walked.0) in
      let left = map resolved_delta (range walked.1) in
      let without : (if any_of p new_ones then true else any_of p left) ≡ any_of p new_ones =
        ground (arith, no_left (range walked.1)) in
      any_of-Perm p (sort_by-perm delta_less (new_ones ++ left))
      ∙ any_of-append p new_ones left
      ∙ without
      ∙ rounds_regress old after da
      ∙ by_find before after db

any_of-length : {A : Type 0} (p : A → Bool) (xs : List A) → ltb 0 (length (keep p xs)) ≡ any_of p xs
any_of-length p [] = refl
any_of-length p (x ∷ xs) = ground (arith, any_of-length p xs)

only_regression :
    (s : Str)
    → str_eq s (codes "regression") ≡ true
    → (str_eq s (codes "any") ≡ false) × (str_eq s (codes "failure") ≡ false)
unfolding str_eq
only_regression s h =
    subst (λ x. (str_eq x (codes "any") ≡ false) × (str_eq x (codes "failure") ≡ false))
      (sym ((str_eq_iff s (codes "regression")).0 h)) (refl, refl)

not_over_yet :
    (str_eq (codes "succeeded") (codes "canceled") ≡ false)
    × (str_eq (codes "succeeded") (codes "failed") ≡ false)
unfolding str_eq
not_over_yet = (refl, refl)

-- A sink that wants regressions is told of a run that succeeded, as a regression, exactly if some
-- finding of the run is at least as severe as the sink asks for and the baseline has no finding with
-- its id or one with a smaller count; else it is told nothing. No two findings of either run have
-- one id, and the order of the range over the map does not matter.
pub wanted-compare_findings :
    (n : Notify) (range : List (Str × FindingInfo) → List (Str × FindingInfo))
    (before after : List FindingInfo) (sum : DeltaSummary)
    → n.on_event ≡ codes "regression"
    → DistinctBy (λ f. f.id) before
    → DistinctBy (λ f. f.id) after
    → wanted
        (some n)
        (codes "succeeded")
        (some (compare_findings range before after sum).listed)
        n.min_severity
      ≡ (if any_of (λ f. is_worse n.min_severity (find_by (λ g. g.id) f.id before) f) after
          then some regression
          else none)
unfolding wanted count_regressions regressions regressed
wanted-compare_findings n range before after sum r db da =
    let listed = (compare_findings range before after sum).listed in
    let other = only_regression n.on_event ((str_eq_iff n.on_event (codes "regression")).1 r) in
    ground (
      arith,
      not_over_yet.0,
      not_over_yet.1,
      other.0,
      other.1,
      any_of-length (is_regression n.min_severity) listed,
      listed_regress n.min_severity range before after sum db da,
    )
