-- ===== src/Scheduler/Swept.antt =====
-- internal/api/scheduler.go: what a sweep leaves in the table of schedules.
use mathlib.Core.List.{map-map, map-id}
use veritix.Base.{
  ◌≤◌, ◌≡◌, ◌∙◌, ap, sym, refl, arith, Bool, true, false, List, [], ◌∷◌, map, Str, str_eq,
  str_eq_iff, str_eq_refl, if◌then◌else◌, All, All-map, ◌⊎◌, Bool-cases, inl, inr, none,
}
use veritix.Base.Int.{ℤ, ltb_ℤ}
use veritix.Base.Walk.{DistinctBy, has_key}
use veritix.Schedule.Spec.{Calendar, next, validate}
use veritix.Schedule.Next.{Regular, DayNumber, next-After}
use veritix.Scheduler.Sweep.{
  State, set_fired, schedule_fired, StartResult, run, refusal, Server, Step, not_due, left_due,
  held, could_not_start, started, Entry, blocked, try_start, due_round, round, is_started,
  sweep_loop, sweep,
}
use veritix.Scheduler.Firing.{row_after, Fits, starts, leaves, sweep_loop-Fits, sweep_loop-starts}

module _ (cal : Calendar) where
  -- A row of the table after a step for the schedule `s`.
  abbrev pub apply_step : {S : Type 0} → Server S → Entry cal → Step → Entry cal → Entry cal
  apply_step server s (held n r) e =
      if server.writes s.dataset_id then set_fired cal s.dataset_id n [] r e else e
  apply_step server s (could_not_start n r) e =
      if server.writes s.dataset_id then set_fired cal s.dataset_id n [] r e else e
  apply_step server s (started n id) e =
      if server.writes s.dataset_id then set_fired cal s.dataset_id n id [] e else e
  apply_step server s not_due e = e
  apply_step server s left_due e = e

  module _ {S : Type 0} (server : Server S) (zero_time now : ℤ) where
    -- What all steps of a sweep make of a row.
    apply_steps : List (Entry cal × Step) → Entry cal → Entry cal
    apply_steps [] e = e
    apply_steps (p ∷ ps) e = apply_steps ps (apply_step server p.0 p.1 e)

    -- An update that the database may not carry out, row by row.
    write_table :
        (up : Bool) (f : Entry cal → Entry cal) (st : State cal S)
        → (if up then record st { schedules = map f st.schedules } else st).schedules
          ≡ map (λ e. if up then f e else e) st.schedules
    write_table true f st = refl
    write_table false f st = sym (map-id st.schedules)

    try_table :
        (st : State cal S) (s : Entry cal) (n : ℤ) (r : StartResult × S)
        → let o = try_start cal server zero_time now st s n r in
          o.1.schedules ≡ map (apply_step server s o.0) st.schedules
    unfolding try_start schedule_fired
    try_table st s n (run id, w) =
        write_table (server.writes s.dataset_id) (set_fired cal s.dataset_id n id [])
          (record st { world = w })
    try_table st s n (refusal x, w) =
        write_table (server.writes s.dataset_id) (set_fired cal s.dataset_id n [] x)
          (record st { world = w })

    fired_table :
        (st : State cal S) (s : Entry cal) (n : ℤ) (r : Str)
        → (schedule_fired cal server st s.dataset_id n [] r).schedules
          ≡ map (apply_step server s (held n r)) st.schedules
    unfolding schedule_fired
    fired_table st s n r =
        write_table (server.writes s.dataset_id) (set_fired cal s.dataset_id n [] r) st

    due_table :
        (st : State cal S) (began : Bool) (s : Entry cal)
        → let o = due_round cal server zero_time now st began s in
          o.1.schedules ≡ map (apply_step server s o.0) st.schedules
    unfolding due_round
    due_table st began s =
        let n = next cal zero_time s.spec now in
        let r = blocked cal server st.world s now in
        elim (Bool-cases (str_eq r [])) [
          | inr e ↦ rw e (fired_table st s n r)
          | inl e ↦ rw e (elim (Bool-cases began) [
            | inl b ↦ rw b (sym (map-id st.schedules))
            | inr b ↦ rw b (try_table st s n (server.start_run st.world s.dataset_id s.notify))
          ])
        ]

    round_table :
        (st : State cal S) (began : Bool) (s : Entry cal)
        → let o = round cal server zero_time now st began s in
          o.1.schedules ≡ map (apply_step server s o.0) st.schedules
    unfolding round
    round_table st began s = elim (Bool-cases (ltb_ℤ now s.next_due_at)) [
      | inl e ↦ rw e (sym (map-id st.schedules))
      | inr e ↦ rw e (due_table st began s)
    ]

    loop_table :
        (st : State cal S) (began : Bool) (ss : List (Entry cal))
        → let o = sweep_loop cal server zero_time now st began ss in
          o.1.schedules ≡ map (apply_steps o.0) st.schedules
    unfolding sweep_loop apply_steps
    loop_table st began [] = sym (map-id st.schedules)
    loop_table st began (s ∷ ss) =
        let r = round cal server zero_time now st began s in
        let more = if is_started r.0 then true else began in
        let steps = (sweep_loop cal server zero_time now r.1 more ss).0 in
        loop_table r.1 more ss
        ∙ ap (map (apply_steps steps)) (round_table st began s)
        ∙ map-map (apply_steps steps) (apply_step server s r.0) st.schedules

    -- A step leaves the rows of other datasets alone.
    step_other :
        (s : Entry cal) (step : Step) (e : Entry cal)
        → str_eq e.dataset_id s.dataset_id ≡ false
        → apply_step server s step e ≡ e
    unfolding set_fired
    step_other s (held n r) e h = ground (arith, h)
    step_other s (could_not_start n r) e h = ground (arith, h)
    step_other s (started n id) e h = ground (arith, h)
    step_other s not_due e h = refl
    step_other s left_due e h = refl

    step_own :
        (s : Entry cal) (step : Step) → apply_step server s step s ≡ row_after cal server (s, step)
    unfolding set_fired
    step_own s (held n r) = ground (arith, str_eq_refl s.dataset_id)
    step_own s (could_not_start n r) = ground (arith, str_eq_refl s.dataset_id)
    step_own s (started n id) = ground (arith, str_eq_refl s.dataset_id)
    step_own s not_due = refl
    step_own s left_due = refl

    same_dataset :
        (s : Entry cal) (step : Step) → (row_after cal server (s, step)).dataset_id ≡ s.dataset_id
    same_dataset s (held n r) = ground arith
    same_dataset s (could_not_start n r) = ground arith
    same_dataset s (started n id) = ground arith
    same_dataset s not_due = refl
    same_dataset s left_due = refl

    untouched :
        (st : State cal S) (began : Bool) (ss : List (Entry cal)) (e : Entry cal)
        → has_key (λ x. x.dataset_id) e.dataset_id ss ≡ false
        → apply_steps (sweep_loop cal server zero_time now st began ss).0 e ≡ e
    unfolding sweep_loop apply_steps
    untouched st began [] e h = refl
    untouched st began (s ∷ ss) e h =
        let r = round cal server zero_time now st began s in
        let more = if is_started r.0 then true else began in
        let steps = (sweep_loop cal server zero_time now r.1 more ss).0 in
        ap (apply_steps steps) (
          step_other s r.0 e (
            ground (
              arith,
              h,
              str_eq_iff e.dataset_id s.dataset_id,
              str_eq_iff s.dataset_id e.dataset_id,
            )))
        ∙ untouched r.1 more ss e (ground (arith, h))

    map_other :
        (s : Entry cal) (step : Step) (f : Entry cal → Entry cal) (ss : List (Entry cal))
        → has_key (λ x. x.dataset_id) s.dataset_id ss ≡ false
        → map (λ e. f (apply_step server s step e)) ss ≡ map f ss
    map_other s step f [] h = refl
    map_other s step f (e ∷ ss) h =
        let here = step_other s step e (
          ground (
            arith,
            h,
            str_eq_iff e.dataset_id s.dataset_id,
            str_eq_iff s.dataset_id e.dataset_id,
          )) in
        ap (λ x. f x ∷ map (λ y. f (apply_step server s step y)) ss) here
        ∙ ap (λ ys. f e ∷ ys) (map_other s step f ss (ground (arith, h)))

    own_rows :
        (st : State cal S) (began : Bool) (ss : List (Entry cal))
        → DistinctBy (λ x. x.dataset_id) ss
        → let steps = (sweep_loop cal server zero_time now st began ss).0 in
          map (apply_steps steps) ss ≡ map (row_after cal server) steps
    unfolding sweep_loop apply_steps
    own_rows st began [] d = refl
    own_rows st began (s ∷ ss) d =
        let r = round cal server zero_time now st began s in
        let more = if is_started r.0 then true else began in
        let steps = (sweep_loop cal server zero_time now r.1 more ss).0 in
        let key = λ (i : Str). has_key (λ (x : Entry cal). x.dataset_id) i ss in
        let own : apply_steps steps (apply_step server s r.0 s) ≡ row_after cal server (s, r.0) =
          ap (apply_steps steps) (step_own s r.0)
          ∙ untouched r.1 more ss (row_after cal server (s, r.0))
              (ap key (same_dataset s r.0) ∙ d.0) in
        ap (λ x. x ∷ map (λ e. apply_steps steps (apply_step server s r.0 e)) ss) own
        ∙ ap (λ ys. row_after cal server (s, r.0) ∷ ys)
            (map_other s r.0 (apply_steps steps) ss d.0 ∙ own_rows r.1 more ss d.1)

    -- What a sweep does, as its steps and the table that it leaves tell.
    pub record Swept (st : State cal S) (o : List (Entry cal × Step) × State cal S) : Type 0 where
      pub one_start : starts cal server zero_time now o.0 ≤ 1
      pub left_for_start :
          (leaves cal server zero_time now o.0 ≡ 0) ⊎ (starts cal server zero_time now o.0 ≡ 1)
      pub each_once : map (λ p. p.0) o.0 ≡ st.schedules
      pub each_fits : All (Fits cal server zero_time now) o.0
      pub table : o.1.schedules ≡ map (row_after cal server) o.0

    -- If the store can read its schedules, with one to a dataset, weekdays from 0 to 6, valid
    -- schedules and regular days, a sweep takes every schedule once and starts at most one audit,
    -- and leaves a schedule due on purpose only if it started one. It passes over only what is not
    -- due and starts an audit only for a due window that is not stale. In the table afterwards every
    -- schedule that was due, but for those left due, has the next window with the run or the reason,
    -- unless the database did not carry out its update, all other rows are as they were, and the
    -- rows still due are exactly those left due and the due ones whose update failed.
    pub sweep-Swept :
        ((l : cal.Location) (t : ℤ) → DayNumber (cal.weekday l t))
        → (st : State cal S) → server.reads st.world ≡ true
        → DistinctBy (λ x. x.dataset_id) st.schedules
        → All (λ s. (validate cal s.spec ≡ none) × Regular cal s.spec) st.schedules
        → Swept st (sweep cal server zero_time now st)
    unfolding sweep
    sweep-Swept days st up d h =
        let c = sweep_loop-starts cal server zero_time now st false st.schedules in
        let later =
          All-map (λ s v. next-After cal zero_time s.spec now days v.1 v.0) st.schedules h in
        rw up (record {
          one_start = omega (arith, c.1);
          left_for_start = ground (arith, c.2);
          each_once = c.0;
          each_fits = sweep_loop-Fits cal server zero_time now st false st.schedules later;
          table = loop_table st false st.schedules ∙ own_rows st false st.schedules d;
        })
