-- ===== src/Eval/Valid.antt =====
-- internal/eval/manifest.go: what a manifest that passes its validation promises.
use veritix.Base.{
  ℕ, suc, ◌≡◌, refl, arith, Bool, true, false, not, ◌&&◌, Option, none, some, List, [], ◌∷◌, Str,
  str_eq_iff, any_of, map, All,
}
use veritix.Base.Int.{pos, ltb_ℤ}
use veritix.Base.Walk.{DistinctBy, has_key, is_some}
use veritix.Eval.Manifest.{
  AgentTarget, Defect, Noise, Manifest, has_items, aided, has_name, missing_context, target_fault,
  defect_fault, check_defects, is_target_of, noise_fault, check_noise, validate,
}

-- What a valid manifest promises of one defect.
pub record Scorable (docs : List Str) (d : Defect) : Type 0 where
  pub listed : All (λ id. has_name docs id ≡ true) d.needs_context
  pub targeted : (aided d && not (is_some d.agent)) ≡ false
  pub counted : (a : AgentTarget) → d.agent ≡ some a → ltb_ℤ (pos 0) a.count ≡ true

-- None of some names is in a list of them.
Fresh : List Str → List Defect → Type 0
Fresh seen = All (λ d. has_name seen d.id ≡ false)

missing_none :
    (docs ids : List Str)
    → missing_context docs ids ≡ none
    → All (λ id. has_name docs id ≡ true) ids
unfolding missing_context
missing_none docs [] h = tt
missing_none docs (i ∷ ids) h = (ground (arith, h), missing_none docs ids (ground (arith, h)))

target_none :
    (o : Option AgentTarget) (a : AgentTarget)
    → target_fault o ≡ none
    → o ≡ some a
    → ltb_ℤ (pos 0) a.count ≡ true
unfolding target_fault
target_none none a h e = absurd (ground arith)
target_none (some b) a h e = ground (arith, h, e)

defect_none :
    (docs seen : List Str) (d : Defect)
    → defect_fault docs seen d ≡ none
    → Scorable docs d × (has_name seen d.id ≡ false)
unfolding defect_fault
defect_none docs seen d h = (
  record {
    listed = missing_none docs d.needs_context (ground (arith, h));
    targeted = ground (arith, h);
    counted = λ a. target_none d.agent a (ground (arith, h));
  },
  ground (arith, h),
)

split_head :
    (seen : List Str) (k : Str) (ds : List Defect)
    → Fresh (k ∷ seen) ds
    → Fresh seen ds × (has_key (λ d. d.id) k ds ≡ false)
unfolding Fresh
split_head seen k [] h = (tt, refl)
split_head seen k (d ∷ ds) h =
    let rest = split_head seen k ds h.1 in
    (
      (ground (arith, h.0), rest.0),
      ground (arith, h.0, rest.1, str_eq_iff k d.id, str_eq_iff d.id k),
    )

defects_none :
    (docs : List Str) (i : ℕ) (seen : List Str) (ds : List Defect)
    → check_defects docs i seen ds ≡ none
    → All (Scorable docs) ds × Fresh seen ds × DistinctBy (λ d. d.id) ds
unfolding check_defects Fresh
defects_none docs i seen [] h = (tt, tt, tt)
defects_none docs i seen (d ∷ ds) h =
    let one = defect_none docs seen d (ground (arith, h)) in
    let rest = defects_none docs (suc i) (d.id ∷ seen) ds (ground (arith, h)) in
    let split = split_head seen d.id ds rest.1 in
    ((one.0, rest.0), (one.1, split.0), (split.1, rest.2))

-- No target measures at a place what a noise entry says of it.
abbrev pub Apart : List Defect → Noise → Type 0
Apart defects n = any_of (is_target_of n) defects ≡ false

noise_none :
    (defects : List Defect) (i : ℕ) (ns : List Noise)
    → check_noise defects i ns ≡ none
    → All (Apart defects) ns
unfolding check_noise noise_fault
noise_none defects i [] h = tt
noise_none defects i (n ∷ ns) h =
    (ground (arith, h), noise_none defects (suc i) ns (ground (arith, h)))

-- What a manifest promises that passes its validation.
pub record IsSound (m : Manifest) : Type 0 where
  pub some_defects : has_items m.defects ≡ true
  pub scorable : All (Scorable (map (λ c. c.id) m.context)) m.defects
  pub distinct : DistinctBy (λ d. d.id) m.defects
  pub apart : All (Apart m.defects) m.noise

-- A manifest that passes its validation lists a defect, and no two under one id; each document that
-- a defect needs is listed, only targets of the agent need one, every target has a positive count,
-- and no noise entry describes what a target measures at its place.
pub validate-IsSound : (is_abs : Str → Bool) (m : Manifest) → validate is_abs m ≡ none → IsSound m
unfolding validate
validate-IsSound is_abs m h =
    let docs = map (λ c. c.id) m.context in
    let parts : (has_items m.defects ≡ true)
        × (check_defects docs 0 [] m.defects ≡ none)
        × (check_noise m.defects 0 m.noise ≡ none) =
      (ground (arith, h), ground (arith, h), ground (arith, h)) in
    let defects = defects_none docs 0 [] m.defects parts.1 in
    record {
      some_defects = parts.0;
      scorable = defects.0;
      distinct = defects.2;
      apart = noise_none m.defects 0 m.noise parts.2;
    }
