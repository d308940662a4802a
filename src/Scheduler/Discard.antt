-- ===== src/Scheduler/Discard.antt =====
-- internal/api/scheduler.go: `discard` and one turn of the clock, over what they call; and
-- internal/api/datasets.go: `removeRunFiles`.
use veritix.Base.{
  Bool, true, not, ◌||◌, List, [], ◌∷◌, ◌++◌, Str, codes, str_eq, has_prefix, if◌then◌else◌,
}
use veritix.Base.Int.{ℤ, pos, ltb_ℤ, ◌-ℤ◌}

-- What `discard` calls: each returns whether it succeeded.
pub record DataStore (S R : Type 0) : Type 0 where
  pub discardable : S → ℤ → Bool × List R
  pub remove_run_files : S → R → Bool × S
  pub clear_run_database : S → R → Bool × S

-- `newScheduler`: the tick of the configuration, or 30 seconds.
unfoldable pub scheduler_tick : ℤ → ℤ
scheduler_tick tick = if not (ltb_ℤ (pos 0) tick) then pos 30000000000 else tick

unfoldable pub needed : Bool → ℤ → Bool
needed fire retain = if fire then true else ltb_ℤ (pos 0) retain

module _ {S R : Type 0} (store : DataStore S R) where
  unfoldable pub discard_one : S → R → S
  discard_one st run =
      let (removed, st') = store.remove_run_files st run in
      if not removed then st' else (store.clear_run_database st' run).1

  unfoldable pub discard_loop : S → List R → S
  unfolding discard_one
  discard_loop st [] = st
  discard_loop st (run ∷ runs) = discard_loop (discard_one st run) runs

  unfoldable pub discard : S → ℤ → ℤ → S
  unfolding discard_loop
  discard st now retain =
      let (ok, expired) = store.discardable st (now -ℤ retain) in
      if not ok then st else discard_loop st expired

  -- One turn of the clock, given the sweep.
  unfoldable pub tick_once : (S → S) → Bool → ℤ → ℤ → S → S
  unfolding discard
  tick_once sweep fire retain now st =
      let swept = if fire then sweep st else st in
      if ltb_ℤ (pos 0) retain then discard swept now retain else swept

-- What internal/api/datasets.go uses of `filepath`, and the directory of the data.
pub record Paths : Type 0 where
  pub dir : Str → Str
  pub join : Str → Str → Str
  pub separator : Str
  pub data_dir : Str

-- A path at which the server would not have put a database: none, or outside its directory of runs.
unfoldable pub is_foreign : Paths → Str → Bool
is_foreign paths path =
    str_eq path []
    || not
        (has_prefix (paths.dir path) (paths.join paths.data_dir (codes "runs") ++ paths.separator))

-- `removeRunFiles`, for the path of the run's database, over `os.RemoveAll`.
unfoldable pub remove_run_files : {F : Type 0} → Paths → (F → Str → Bool × F) → F → Str → Bool × F
unfolding is_foreign
remove_run_files paths remove_all files path =
    if is_foreign paths path then (true, files) else remove_all files (paths.dir path)
