-- ===== src/Eval/Ledger.antt =====
-- internal/eval/score.go: a score accounts for every target, every defect and every claim.
use veritix.Base.{
  ℕ, suc, ◌+◌, ◌≡◌, refl, ap, subst, ◌∙◌, arith, Bool, true, false, not, ◌&&◌, ◌||◌, Option, none,
  some, List, [], ◌∷◌, Str, str_eq, str_eq_iff, if◌then◌else◌, any_of, map, length, count_if, All,
  All-map,
}
use veritix.Finding.Model.{Finding, agent}
use veritix.Eval.Manifest.{Defect, Manifest, agent_targets}
use veritix.Eval.Match.{matches_target, same_origin}
use veritix.Eval.Score.{RunScore, Marked, claim_first, credit, claims, score_run}

abbrev pub by_agent : Finding → Bool
by_agent f = same_origin f.origin agent

-- Some finding of the agent measures a defect.
abbrev pub measured_in : List Finding → Defect → Bool
measured_in fs d = any_of (λ f. by_agent f && matches_target f d) fs

abbrev findings_of : List Marked → List Finding
findings_of = map (λ p. p.0)

abbrev taken : List Marked → ℕ
taken = count_if (λ p. by_agent p.0 && p.1)

-- A target claimed: one more finding taken, the findings as they were, and one of them measures it.
pub record Claimed (d : Defect) (before after : List Marked) : Type 0 where
  pub one_more : taken after ≡ suc (taken before)
  pub same : findings_of after ≡ findings_of before
  pub measured : measured_in (findings_of before) d ≡ true

ClaimedIn : Defect → List Marked → Option (List Marked) → Type 0
ClaimedIn d ms none = Unit
ClaimedIn d ms (some ms') = Claimed d ms ms'

passed_over :
    (d : Defect) (f : Finding) (b : Bool) (ms : List Marked) (o : Option (List Marked))
    → ClaimedIn d ms o
    → ClaimedIn d ((f, b) ∷ ms) (elim o [ none ↦ none | some ms' ↦ some ((f, b) ∷ ms') ])
unfolding ClaimedIn
passed_over d f b ms none h = tt
passed_over d f b ms (some ms') h = record {
  one_more = ground (arith, h.one_more);
  same = ap (λ fs. f ∷ fs) h.same;
  measured = ground (arith, h.measured);
}

-- One finding of the loop: passed over, taken, or passed over because it does not match.
tried :
    (d : Defect) (f : Finding) (b : Bool) (ms : List Marked) (o : Option (List Marked))
    (skip hit : Bool)
    → skip ≡ (not (by_agent f) || b)
    → hit ≡ matches_target f d
    → ClaimedIn d ms o
    → ClaimedIn d ((f, b) ∷ ms) (
        if skip
        then elim o [ none ↦ none | some ms' ↦ some ((f, b) ∷ ms') ]
        else if hit
        then some ((f, true) ∷ ms)
        else elim o [ none ↦ none | some ms' ↦ some ((f, b) ∷ ms') ])
unfolding ClaimedIn
tried d f b ms o true hit p q h = passed_over d f b ms o h
tried d f b ms o false false p q h = passed_over d f b ms o h
tried d f b ms o false true p q h = record {
  one_more = ground (arith, p, q);
  same = refl;
  measured = ground (arith, p, q);
}

claim_first_lem : (d : Defect) (ms : List Marked) → ClaimedIn d ms (claim_first d ms)
unfolding claim_first ClaimedIn
claim_first_lem d [] = tt
claim_first_lem d ((f, b) ∷ ms) =
    tried d f b ms (claim_first d ms) (not (by_agent f) || b) (matches_target f d) refl refl
      (claim_first_lem d ms)

-- The targets that some finding of the agent measures, by id.
abbrev pub is_measured_id : List Finding → List Defect → Str → Bool
is_measured_id fs ds id = any_of (λ d. str_eq d.id id && measured_in fs d) ds

-- What crediting a list of targets leaves.
pub record CreditSound (ds : List Defect) (ms : List Marked) (detected missed : List Str)
    (end : List Marked) : Type 0 where
  pub each_target : length detected + length missed ≡ length ds
  pub one_each : taken end ≡ taken ms + length detected
  pub same_findings : findings_of end ≡ findings_of ms
  pub backed : All (λ id. is_measured_id (findings_of ms) ds id ≡ true) detected

later :
    (fs : List Finding) (d : Defect) (ds : List Defect) (ids : List Str)
    → All (λ id. is_measured_id fs ds id ≡ true) ids
    → All (λ id. is_measured_id fs (d ∷ ds) id ≡ true) ids
later fs d ds ids = All-map (λ id h. ground (arith, h)) ids

abbrev Ending : Type 0
Ending = List Str × List Str × List Marked

abbrev IsSoundFrom : List Defect → List Marked → Ending → Type 0
IsSoundFrom ds ms e = CreditSound ds ms e.0 e.1 e.2

-- One target, by what the search for a finding returned.
one_target :
    (d : Defect) (ds : List Defect) (ms : List Marked) (rest : List Marked → Ending)
    (ih : (ms' : List Marked) → IsSoundFrom ds ms' (rest ms')) (o : Option (List Marked))
    → ClaimedIn d ms o
    → IsSoundFrom (d ∷ ds) ms (elim o [
      | some ms' ↦ (d.id ∷ (rest ms').0, (rest ms').1, (rest ms').2)
      | none ↦ ((rest ms).0, d.id ∷ (rest ms).1, (rest ms).2)
    ])
unfolding ClaimedIn
one_target d ds ms rest ih none h = record {
  each_target = ground (arith, (ih ms).each_target);
  one_each = (ih ms).one_each;
  same_findings = (ih ms).same_findings;
  backed = later (findings_of ms) d ds (rest ms).0 (ih ms).backed;
}
one_target d ds ms rest ih (some ms') h = record {
  each_target = ground (arith, (ih ms').each_target);
  one_each = ground (arith, (ih ms').one_each, h.one_more);
  same_findings = (ih ms').same_findings ∙ h.same;
  backed = (
    ground (arith, h.measured, str_eq_iff d.id d.id),
    later (findings_of ms) d ds (rest ms').0 (
        subst (λ fs. All (λ id. is_measured_id fs ds id ≡ true) (rest ms').0) h.same
          (ih ms').backed),
  );
}

pub credit-IsSound : (ds : List Defect) (ms : List Marked) → IsSoundFrom ds ms (credit ds ms)
unfolding credit
credit-IsSound [] ms = record {
  each_target = refl;
  one_each = ground arith;
  same_findings = refl;
  backed = tt;
}
credit-IsSound (d ∷ ds) ms =
    one_target d ds ms (credit ds) (credit-IsSound ds) (claim_first d ms) (claim_first_lem d ms)

-- Every finding of the agent that no target took is a claim.
pub claims-taken :
    (m : Manifest) (ms : List Marked)
    → length (claims m ms) + taken ms ≡ count_if by_agent (findings_of ms)
unfolding claims
claims-taken m [] = refl
claims-taken m ((f, b) ∷ ms) = ground (arith, claims-taken m ms)

findings_of_fresh : (fs : List Finding) → findings_of (map (λ f. (f, false)) fs) ≡ fs
findings_of_fresh [] = refl
findings_of_fresh (f ∷ fs) = ap (λ gs. f ∷ gs) (findings_of_fresh fs)

taken_fresh : (fs : List Finding) → taken (map (λ f. (f, false)) fs) ≡ 0
taken_fresh [] = refl
taken_fresh (f ∷ fs) = ground (arith, taken_fresh fs)

-- What a score says of a run: each target once, each finding of the agent once, and a measurement
-- behind every credit.
pub record AccountsFor (m : Manifest) (fs : List Finding) (r : RunScore) : Type 0 where
  pub targets_once : length r.detected + length r.missed ≡ length (agent_targets m)
  pub findings_once : length r.unclassified + length r.detected ≡ count_if by_agent fs
  pub credits_backed : All (λ id. is_measured_id fs (agent_targets m) id ≡ true) r.detected

-- However a run ended: every agent target is detected or missed, once; every finding of the agent is
-- either credited to one target or listed as an unclassified claim, so a finding never pays for two
-- targets and none is dropped; and behind the id of each detected target stands a finding of the
-- agent at that target's location with a count the target accepts.
pub score_run-AccountsFor :
    (m : Manifest) (findings : List Finding) → AccountsFor m findings (score_run m findings)
unfolding score_run
score_run-AccountsFor m findings =
    let fresh = map (λ f. (f, false)) findings in
    let h = credit-IsSound (agent_targets m) fresh in
    record {
      targets_once = h.each_target;
      findings_once = ground (
        arith,
        claims-taken m (credit (agent_targets m) fresh).2,
        h.one_each,
        taken_fresh findings,
        ap (count_if by_agent) (h.same_findings ∙ findings_of_fresh findings),
      );
      credits_backed =
          subst
            (λ fs.
              All (λ id. is_measured_id fs (agent_targets m) id ≡ true)
                (score_run m findings).detected)
            (findings_of_fresh findings) h.backed;
    }
