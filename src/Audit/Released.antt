-- ===== src/Audit/Released.antt =====
-- internal/audit/audit.go: what an audit leaves behind, and what it reports.
use veritix.Base.{
  ◌≡◌, refl, sym, subst, arith, Bool, true, false, not, ◌&&◌, Option, none, some, List, Str,
  if◌then◌else◌, All,
}
use veritix.Base.Int.{ℤ}
use veritix.Finding.Model.{Finding}
use veritix.Finding.Set.{FindingSet, add_all, verify}
use veritix.Finding.Merge.{Inv, add_all-merge_all}
use veritix.Finding.Verify.{Reproduces, verify_lem}
use veritix.Audit.Pipeline.{
  Held, nothing, Options, Stages, End, failed, crashed, done, fail_with, verify_phase, run_model,
  agent_phase, checks_phase, run, close_result,
}

-- Nothing is held but, where there is one, the scratch directory, and no model met an open engine.
pub record OnlyScratch (scratch : Bool) (h : Held) : Type 0 where
  pub engine_closed : h.engine ≡ false
  pub servers_closed : h.servers ≡ false
  pub never_unlocked : h.unlocked_model ≡ false
  pub scratch_left : h.scratch ≡ scratch

-- With an error the scratch directory is all that is left; without one `Close` leaves nothing, and
-- every finding of the result reproduces.
abbrev pub LeavesOnly : (Str → Option ℤ) → Bool → End × Held → Type 0
LeavesOnly scan scratch (failed, h) = OnlyScratch scratch h
LeavesOnly scan scratch (crashed, h) = ⊥
LeavesOnly scan scratch (done found, h) =
    OnlyScratch false (close_result h) × (All (Reproduces scan) found.items × Inv found)

-- The scratch directory of a run whose engine was opened.
abbrev pub has_scratch : Options → Stages → Bool
has_scratch o w = w.discovers && (w.opens && (not o.database_given && w.makes_scratch))

-- While the stages run: the engine is open, and no model was run unlocked.
record Working (scratch : Bool) (h : Held) : Type 0 where
  scratch_is : h.scratch ≡ scratch
  safe : h.unlocked_model ≡ false

module _ (o : Options) (w : Stages) (scratch : Bool) where
  abbrev Leaves : End × Held → Type 0
  Leaves = LeavesOnly w.scan_one scratch

  failing : (h : Held) → Working scratch h → Leaves (fail_with h)
  failing h k = record {
    engine_closed = refl;
    servers_closed = refl;
    never_unlocked = k.safe;
    scratch_left = k.scratch_is;
  }

  -- A step that may fail, before the rest.
  step :
      (ok : Bool) (h : Held) (r : End × Held)
      → Working scratch h
      → Leaves r
      → Leaves (if not ok then fail_with h else r)
  step true h r k l = l
  step false h r k l = failing h k

  choose : (b : Bool) (x y : End × Held) → Leaves x → Leaves y → Leaves (if b then x else y)
  choose true x y l m = l
  choose false x y l m = m

  verify_phase-Leaves :
      (s : FindingSet) (h : Held) → Inv s → Working scratch h → Leaves (verify_phase w s h)
  unfolding verify_phase
  verify_phase-Leaves s h v k =
      let r = verify_lem w.scan_one s v in
      step w.verifies h (done (verify w.scan_one s).0, record h { servers = false }) k
        (
          record {
            engine_closed = refl;
            servers_closed = refl;
            never_unlocked = k.safe;
            scratch_left = refl;
          },
          (r.1, r.0),
        )

  -- Findings added to a well-formed set, and the rest of the run on the set.
  adding :
      (fs : List Finding) (s : FindingSet) (h : Held) (next : FindingSet → End × Held)
      → Inv s
      → ((s' : FindingSet) → Inv s' → Leaves (next s'))
      → Leaves
          (elim (add_all fs s) as (λ x. End × Held) [ none ↦ (crashed, h) | some s' ↦ next s' ])
  adding fs s h next v go =
      let (s', e, m, v') = add_all-merge_all fs s v in
      subst (λ x. Leaves (elim x as (λ y. End × Held) [ none ↦ (crashed, h) | some z ↦ next z ]))
        (sym e) (go s' v')

  agent_phase-Leaves :
      (s : FindingSet) (h : Held) → Inv s → Working scratch h → Leaves (agent_phase o w s h)
  unfolding agent_phase
  agent_phase-Leaves s h v k =
      let locked : Held = record h { locked = true } in
      let connected : Held = run_model (record locked { servers = o.has_servers }) in
      let k1 : Working scratch locked = record { scratch_is = k.scratch_is; safe = k.safe } in
      let k2 : Working scratch connected = record {
        scratch_is = k.scratch_is;
        safe = ground (arith, k.safe);
      } in
      choose (not o.has_agent) _ _ (verify_phase-Leaves s h v k) (
        step w.locks h _ k (
          choose (o.has_servers && not w.connects) _ _ (failing locked k1)
            (answered w.agent connected k2)))
    where
      answered :
          (a : Option (List Finding)) (h' : Held)
          → Working scratch h'
          → Leaves (elim a as (λ x. End × Held) [
            | none ↦ fail_with h'
            | some fs ↦ elim (add_all fs s) as (λ x. End × Held) [
              | none ↦ (crashed, h')
              | some more ↦ verify_phase w more h'
            ]
          ])
      answered none h' k' = failing h' k'
      answered (some fs) h' k' =
          adding fs s h' (λ more. verify_phase w more h') v
            (λ more v'. verify_phase-Leaves more h' v' k')

  ruled :
      (s : FindingSet) (h : Held)
      → Inv s
      → Working scratch h
      → (r : Option (List Finding))
      → Leaves (elim r as (λ x. End × Held) [
        | none ↦ fail_with h
        | some fs ↦ elim (add_all fs s) as (λ x. End × Held) [
          | none ↦ (crashed, h)
          | some more ↦ agent_phase o w more h
        ]
      ])
  ruled s h v k none = failing h k
  ruled s h v k (some fs) =
      adding fs s h (λ more. agent_phase o w more h) v (λ more v'. agent_phase-Leaves more h v' k)

  -- The checks, by what they returned.
  checked :
      (h : Held)
      → Working scratch h
      → (c : Option FindingSet) → ((s : FindingSet) → c ≡ some s → Inv s)
      → Leaves (elim c as (λ x. End × Held) [
        | none ↦ fail_with h
        | some found ↦ elim w.rules as (λ x. End × Held) [
          | none ↦ fail_with h
          | some fs ↦ elim (add_all fs found) as (λ x. End × Held) [
            | none ↦ (crashed, h)
            | some more ↦ agent_phase o w more h
          ]
        ]
      ])
  checked h k none v = failing h k
  checked h k (some s) v = ruled s h (v s refl) k w.rules

  checks_phase-Leaves :
      (h : Held)
      → Working scratch h
      → ((s : FindingSet) → w.checks ≡ some s → Inv s)
      → Leaves (checks_phase o w h)
  unfolding checks_phase
  checks_phase-Leaves h k v = checked h k w.checks v

-- The beginning of a run, before the engine is open.
opening :
    (scan : Str → Option ℤ) (d p s : Bool) (r : End × Held)
    → LeavesOnly scan s r
    → LeavesOnly scan
        (d && (p && s))
        (if not d then (failed, nothing) else if not p then (failed, nothing) else r)
opening scan true true s r h = h
opening scan true false s r h = record {
  engine_closed = refl;
  servers_closed = refl;
  never_unlocked = refl;
  scratch_left = refl;
}
opening scan false p s r h = record {
  engine_closed = refl;
  servers_closed = refl;
  never_unlocked = refl;
  scratch_left = refl;
}

-- If the set that the checks return is well-formed, nothing indexes out of range; a run that ends in
-- an error has closed its engine and its context servers, and leaves exactly the scratch directory
-- that it made for an engine that opened; after a run without an error `Close` leaves nothing, and
-- every finding of the result reproduces; and no model was run on an engine that is not locked down.
pub run-LeavesOnly :
    (o : Options) (w : Stages)
    → ((s : FindingSet) → w.checks ≡ some s → Inv s)
    → LeavesOnly w.scan_one (has_scratch o w) (run o w)
unfolding run
run-LeavesOnly o w v =
    let scratch = not o.database_given && w.makes_scratch in
    let h : Held = record nothing { engine = true; scratch = scratch } in
    let k : Working scratch h = record { scratch_is = refl; safe = refl } in
    opening w.scan_one w.discovers w.opens scratch _ (
      step o w scratch w.ingests h _ k
        (step o w scratch w.profiles h _ k (checks_phase-Leaves o w scratch h k v)))
