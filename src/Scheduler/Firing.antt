-- ===== src/Scheduler/Firing.antt =====
-- internal/api/scheduler.go: what a sweep does to each schedule.
use veritix.Base.{
  map, ℕ, ◌+◌, ◌≤◌, ◌≡◌, ◌&&◌, ◌||◌, refl, arith, Bool, true, false, not, List, [], ◌∷◌, Str,
  str_eq, codes, if◌then◌else◌, count_if, All, ◌⊎◌, Bool-cases, inl, inr,
}
use veritix.Base.Int.{ℤ, ltb_ℤ, ◌<ℤ◌}
use veritix.Schedule.Spec.{Calendar, next}
use veritix.Scheduler.Sweep.{
  State, StartResult, run, refusal, Server, Step, not_due, left_due, held, could_not_start, started,
  Entry, is_stale, running_reason, blocked, try_start, due_round, round, is_started, sweep_loop,
}

abbrev pub was_left : Step → Bool
was_left left_due = true
was_left _ = false

module _ (cal : Calendar) where
  -- The row of a schedule after its own step: an attempt, refused, held or successful, moves the
  -- window to the next one and records the run or the reason, if the database carries that out.
  abbrev pub row_after : {S : Type 0} → Server S → Entry cal × Step → Entry cal
  row_after server (s, held n r) =
      if server.writes s.dataset_id
      then record s { next_due_at = n; last_run_id = []; last_error = r }
      else s
  row_after server (s, could_not_start n r) =
      if server.writes s.dataset_id
      then record s { next_due_at = n; last_run_id = []; last_error = r }
      else s
  row_after server (s, started n id) =
      if server.writes s.dataset_id
      then record s { next_due_at = n; last_run_id = id; last_error = [] }
      else s
  row_after server (s, not_due) = s
  row_after server (s, left_due) = s

  -- The window that a step moves its schedule to, if it does.
  abbrev pub moved_to : Step → ℤ → ℤ
  moved_to (held n r) d = n
  moved_to (could_not_start n r) d = n
  moved_to (started n id) d = n
  moved_to not_due d = d
  moved_to left_due d = d

  abbrev pub is_due : ℤ → ℤ → Bool
  is_due now t = not (ltb_ℤ now t)

  -- A step that fits its schedule: only a schedule that was not due is passed over, only one whose
  -- window is not stale starts an audit, a window moves to the next one, and the row of a schedule is due afterwards only if it was
  -- left due on purpose or it was due and the database did not carry out the update.
  pub record Fits {S : Type 0} (server : Server S) (zero_time now : ℤ) (p : Entry cal × Step)
      : Type 0 where
    pub passed : p.1 ≡ not_due → is_due now p.0.next_due_at ≡ false
    pub fresh :
        is_started p.1 ≡ true → (is_due now p.0.next_due_at ≡ true) × (is_stale cal p.0 now ≡ false)
    pub to_next : moved_to p.1 (next cal zero_time p.0.spec now) ≡ next cal zero_time p.0.spec now
    pub still_due :
        is_due now (row_after server p).next_due_at
        ≡ (was_left p.1 || (is_due now p.0.next_due_at && not (server.writes p.0.dataset_id)))

  -- Being stale is a reason.
  reason_given :
      (b : Bool) (r : Str)
      → str_eq (if b then codes "missed while nothing was running to fire it" else r) [] ≡ true
      → b ≡ false
  unfolding str_eq
  reason_given true r h = absurd (ground arith)
  reason_given false r h = refl

  later_not_due : (now n : ℤ) → now <ℤ n → is_due now n ≡ false
  later_not_due now n h = ground arith

  module _ {S : Type 0} (server : Server S) (zero_time now : ℤ) where
    not_stale :
        (st : S) (s : Entry cal)
        → str_eq (blocked cal server st s now) [] ≡ true
        → is_stale cal s now ≡ false
    unfolding blocked
    not_stale st s h =
        reason_given (is_stale cal s now) (running_reason cal (server.active_run st s.dataset_id)) h

    start-Fits :
        (st : State cal S) (s : Entry cal) (n : ℤ) (r : StartResult × S)
        → now <ℤ n
        → n ≡ next cal zero_time s.spec now
        → is_due now s.next_due_at ≡ true
        → is_stale cal s now ≡ false
        → Fits server zero_time now (s, (try_start cal server zero_time now st s n r).0)
    unfolding try_start
    start-Fits st s n (run id, w) h e d f = record {
      passed = λ k. absurd (ground arith);
      fresh = λ k. (d, f);
      to_next = e;
      still_due = ground (arith, later_not_due now n h, d);
    }
    start-Fits st s n (refusal id, w) h e d f = record {
      passed = λ k. absurd (ground arith);
      fresh = λ k. absurd (ground arith);
      to_next = e;
      still_due = ground (arith, later_not_due now n h, d);
    }

    due-Fits :
        (st : State cal S) (began : Bool) (s : Entry cal)
        → now <ℤ next cal zero_time s.spec now
        → is_due now s.next_due_at ≡ true
        → Fits server zero_time now (s, (due_round cal server zero_time now st began s).0)
    unfolding due_round
    due-Fits st began s h d = elim (Bool-cases (str_eq (blocked cal server st.world s now) [])) [
      | inr e ↦ rw e (record {
        passed = λ e. absurd (ground arith);
        fresh = λ e. absurd (ground arith);
        to_next = refl;
        still_due = ground (arith, later_not_due now (next cal zero_time s.spec now) h, d);
      })
      | inl e ↦
          rw e
            (elim began
              as (λ b. Fits server zero_time now (
                s,
                (if b
                    then (left_due, st)
                    else try_start cal server zero_time now st s (next cal zero_time s.spec now)
                        (server.start_run st.world s.dataset_id s.notify)).0,
              )) [
                | true ↦ record {
                  passed = λ e. absurd (ground arith);
                  fresh = λ e. absurd (ground arith);
                  to_next = refl;
                  still_due = ground (arith, d);
                }
                | false ↦
                    start-Fits st s (next cal zero_time s.spec now)
                      (server.start_run st.world s.dataset_id s.notify) h refl d
                      (not_stale st.world s e)
              ])
    ]

    round-Fits :
        (st : State cal S) (began : Bool) (s : Entry cal)
        → now <ℤ next cal zero_time s.spec now
        → Fits server zero_time now (s, (round cal server zero_time now st began s).0)
    unfolding round
    round-Fits st began s h = elim (Bool-cases (ltb_ℤ now s.next_due_at)) [
      | inl e ↦ rw e (record {
        passed = λ k. ground (arith, e);
        fresh = λ k. absurd (ground arith);
        to_next = refl;
        still_due = ground (arith, e);
      })
      | inr e ↦ rw e (due-Fits st began s h (ground (arith, e)))
    ]

    pub sweep_loop-Fits :
        (st : State cal S) (began : Bool) (ss : List (Entry cal))
        → All (λ s. now <ℤ next cal zero_time s.spec now) ss
        → All (Fits server zero_time now) (sweep_loop cal server zero_time now st began ss).0
    unfolding sweep_loop
    sweep_loop-Fits st began [] h = tt
    sweep_loop-Fits st began (s ∷ ss) h =
        let r = round cal server zero_time now st began s in
        (
          round-Fits st began s h.0,
          sweep_loop-Fits r.1 (if is_started r.0 then true else began) ss h.1,
        )

    abbrev pub starts : List (Entry cal × Step) → ℕ
    starts = count_if (λ p. is_started p.1)

    abbrev pub leaves : List (Entry cal × Step) → ℕ
    leaves = count_if (λ p. was_left p.1)

    abbrev pub one_if : Bool → ℕ
    one_if b = if b then 1 else 0

    round_starts :
        (st : State cal S) (s : Entry cal)
        → is_started (round cal server zero_time now st true s).0 ≡ false
    unfolding round due_round
    round_starts st s = ground arith

    try_leaves :
        (st : State cal S) (s : Entry cal) (n : ℤ) (r : StartResult × S)
        → was_left (try_start cal server zero_time now st s n r).0 ≡ false
    unfolding try_start
    try_leaves st s n (run id, w) = refl
    try_leaves st s n (refusal e, w) = refl

    round_leaves :
        (st : State cal S) (s : Entry cal)
        → was_left (round cal server zero_time now st false s).0 ≡ false
    unfolding round due_round
    round_leaves st s = ground (
      arith,
      try_leaves st s (next cal zero_time s.spec now)
          (server.start_run st.world s.dataset_id s.notify),
    )

    pub sweep_loop-starts :
        (st : State cal S) (began : Bool) (ss : List (Entry cal))
        → let steps = (sweep_loop cal server zero_time now st began ss).0 in
          (map (λ p. p.0) steps ≡ ss)
          × (starts steps + one_if began ≤ 1)
          × ((leaves steps ≡ 0) ⊎ (starts steps + one_if began ≡ 1))
    unfolding sweep_loop
    sweep_loop-starts st true [] = (refl, omega arith, inl refl)
    sweep_loop-starts st false [] = (refl, omega arith, inl refl)
    sweep_loop-starts st true (s ∷ ss) =
        let r = round cal server zero_time now st true s in
        ground (arith, round_starts st s, sweep_loop-starts r.1 true ss)
    sweep_loop-starts st false (s ∷ ss) =
        let r = round cal server zero_time now st false s in
        ground (
          arith,
          round_leaves st s,
          sweep_loop-starts r.1 (if is_started r.0 then true else false) ss,
        )
