-- ===== src/Scheduler/Sweep.antt =====
-- internal/api/scheduler.go: `sweep`, `blocked` and `record`, over `ScheduleFired` of
-- internal/store/schedules.go. The runs of the store and the start of an audit are a parameter.
-- Log lines are left out.
use veritix.Base.{
  ◌^◌, ◌-◌, Bool, true, false, not, ◌&&◌, List, [], ◌∷◌, ◌++◌, map, Str, codes, str_eq,
  if◌then◌else◌,
}
use veritix.Base.Int.{ℤ, pos, negsuc, ◌-ℤ◌, ltb_ℤ}
use veritix.Schedule.Spec.{Calendar, Schedule, next, window}

-- What `ActiveRun` returns: a run's id, `store.ErrNotFound`, or another error's text.
pub data ActiveRun : Type 0 where
  active : Str → ActiveRun
  not_found : ActiveRun
  failed : Str → ActiveRun

-- What `startRun` returns: a run's id or an error's text.
pub data StartResult : Type 0 where
  run : Str → StartResult
  refusal : Str → StartResult

-- `reads` and `writes` say whether the database carries out the query for the schedules and, in this
-- sweep, the update of the schedule of a dataset.
pub record Server (S : Type 0) : Type 0 where
  pub reads : S → Bool
  pub writes : Str → Bool
  pub active_run : S → Str → ActiveRun
  pub start_run : S → Str → Bool → StartResult × S

-- `time.Time.Sub` stops at the largest and the smallest duration.
unfoldable pub sub_time : ℤ → ℤ → ℤ
sub_time a b =
    if ltb_ℤ (pos (2 ^ 63 - 1)) (a -ℤ b)
    then pos (2 ^ 63 - 1)
    else if ltb_ℤ (a -ℤ b) (negsuc (2 ^ 63 - 1))
    then negsuc (2 ^ 63 - 1)
    else a -ℤ b

-- What happened to one schedule in a sweep.
pub data Step : Type 0 where
  not_due left_due : Step
  held : ℤ → Str → Step
  could_not_start : ℤ → Str → Step
  started : ℤ → Str → Step

-- Whether an audit has been started in this sweep.
abbrev pub is_started : Step → Bool
is_started (started n id) = true
is_started _ = false

module _ (cal : Calendar) where
  pub record Entry : Type 0 where
    pub dataset_id : Str
    pub spec : Schedule cal
    pub next_due_at : ℤ
    pub notify : Bool
    pub last_run_id : Str
    pub last_error : Str

  -- The rows of the schedules, in the order in which `Schedules` returns them, and the rest.
  pub record State (S : Type 0) : Type 0 where
    pub schedules : List Entry
    pub world : S

  -- What the statement of `ScheduleFired` makes of a row.
  unfoldable pub set_fired : Str → ℤ → Str → Str → Entry → Entry
  set_fired id n run_id reason e =
      if str_eq e.dataset_id id
      then record e { next_due_at = n; last_run_id = run_id; last_error = reason }
      else e

  -- `ScheduleFired`; that it fails is only logged.
  unfoldable pub schedule_fired : {S : Type 0} → Server S → State S → Str → ℤ → Str → Str → State S
  unfolding set_fired
  schedule_fired server st id n run_id reason =
      if server.writes id
      then record st { schedules = map (set_fired id n run_id reason) st.schedules }
      else st

  -- Whether the window is older than the schedule's own period.
  unfoldable pub is_stale : Entry → ℤ → Bool
  is_stale s now =
      ltb_ℤ (pos 0) (window cal s.spec) && ltb_ℤ (window cal s.spec) (sub_time now s.next_due_at)

  unfoldable pub running_reason : ActiveRun → Str
  running_reason (active id) =
      codes "an audit of this dataset was already running (" ++ id ++ codes ")"
  running_reason (failed e) = e
  running_reason not_found = []

  unfoldable pub blocked : {S : Type 0} → Server S → S → Entry → ℤ → Str
  unfolding is_stale running_reason
  blocked server st s now =
      if is_stale s now
      then codes "missed while nothing was running to fire it"
      else running_reason (server.active_run st s.dataset_id)

  module _ {S : Type 0} (server : Server S) (zero_time now : ℤ) where
    -- The end of a round that tried to start an audit.
    unfoldable pub try_start : State S → Entry → ℤ → StartResult × S → Step × State S
    try_start st s n (run id, w) =
        (started n id, schedule_fired server (record st { world = w }) s.dataset_id n id [])
    try_start st s n (refusal e, w) =
        (could_not_start n e, schedule_fired server (record st { world = w }) s.dataset_id n [] e)

    unfoldable pub due_round : State S → Bool → Entry → Step × State S
    unfolding try_start
    due_round st began s =
        let n = next cal zero_time s.spec now in
        let reason = blocked server st.world s now in
        if not (str_eq reason [])
        then (held n reason, schedule_fired server st s.dataset_id n [] reason)
        else if began
        then (left_due, st)
        else try_start st s n (server.start_run st.world s.dataset_id s.notify)

    unfoldable pub round : State S → Bool → Entry → Step × State S
    round st began s = if ltb_ℤ now s.next_due_at then (not_due, st) else due_round st began s

    unfoldable pub sweep_loop : State S → Bool → List Entry → List (Entry × Step) × State S
    sweep_loop st began [] = ([], st)
    sweep_loop st began (s ∷ ss) =
        let (step, st') = round st began s in
        let (steps, end) = sweep_loop st' (if is_started step then true else began) ss in
        ((s, step) ∷ steps, end)

    unfoldable pub sweep : State S → List (Entry × Step) × State S
    unfolding sweep_loop
    sweep st = if not (server.reads st.world) then ([], st) else sweep_loop st false st.schedules
