-- ===== src/Store/Discarded.antt =====
-- internal/api/scheduler.go, internal/api/datasets.go and internal/store/runs.go: what `discard`
-- records as gone is gone. The files are a parameter, with what `os.RemoveAll` promises.
use veritix.Base.{
  ◌≡◌, refl, ap, sym, ◌∙◌, subst, arith, Bool, true, false, not, ◌&&◌, ◌||◌, Option, none, some,
  List, [], ◌∷◌, Str, str_eq, str_eq_iff, str_lt, any_of, keep, Bool-cases, inl, inr, All, All-keep,
  All-map,
}
use veritix.Base.Sort.{sort_by, sort_by-All}
use veritix.Base.Int.{ℤ, ◌-ℤ◌, ltb_ℤ}
use veritix.Base.Walk.{find_by}
use veritix.Store.Model.{Run, Tables, Clock, Database, read}
use veritix.Store.Write.{set_row, update, clear_run_database}
use veritix.Store.Read.{holds_database, is_discardable, discardable_run_databases}
use veritix.Store.Consistent.{Consistent}
use veritix.Store.Keeps.{run_store, found_each}
use veritix.Scheduler.Discard.{
  Paths, is_foreign, remove_run_files, discard_one, discard_loop, discard,
}

-- A run is still recorded as holding its data.
abbrev pub is_recorded : Str → Tables → Bool
is_recorded id t = any_of (λ r. str_eq r.id id && holds_database r) t.runs

-- `os.RemoveAll` of a directory leaves it absent where it succeeds, and neither it nor what else
-- happens meanwhile brings a removed directory back.
pub record Removes {F : Type 0} (is_there : F → Str → Bool) (remove_all : F → Str → Bool × F)
    (next : F → F) : Type 0 where
  pub removed :
      (files : F) (dir : Str)
      → (remove_all files dir).0 ≡ true
      → is_there (remove_all files dir).1 dir ≡ false
  pub stays_gone :
      (files : F) (dir other : Str)
      → is_there files other ≡ false
      → is_there (remove_all files dir).1 other ≡ false
  pub never_back :
      (files : F) (other : Str) → is_there files other ≡ false → is_there (next files) other ≡ false

recorded-clear :
    (id gone : Str) (rs : List Run)
    → str_eq gone id ≡ false
    → any_of (λ r. str_eq r.id id && holds_database r) rs ≡ true
    → any_of
        (λ r. str_eq r.id id && holds_database r)
        (set_row gone (λ r. record r { database_path = [] }) rs)
      ≡ true
recorded-clear id gone [] n h = h
recorded-clear id gone (r ∷ rs) n h = ground (
  arith,
  n,
  h,
  recorded-clear id gone rs n,
  str_eq_iff r.id gone,
  str_eq_iff r.id id,
  str_eq_iff gone id,
)

found_recorded :
    (r : Run) (rs : List Run)
    → find_by (λ x. x.id) r.id rs ≡ some r
    → holds_database r ≡ true
    → any_of (λ x. str_eq x.id r.id && holds_database x) rs ≡ true
found_recorded r [] e h = absurd (ground (arith, e))
found_recorded r (x ∷ rs) e h = elim (Bool-cases (str_eq x.id r.id)) [
  | inr n ↦ ground (arith, n, found_recorded r rs (ground (arith, e, n)) h)
  | inl y ↦
      let same : x ≡ r = ground (arith, e, y) in
      let held : holds_database x ≡ true = ap (λ z. holds_database z) same ∙ h in
      ground (arith, y, held)
]

module _ {F : Type 0} (db : F → Database) (clock : Clock) (paths : Paths)
    (is_there : F → Str → Bool) (remove_all : F → Str → Bool × F) (next : F → F)
    (law : Removes is_there remove_all next) where
  -- The data of a run is recorded, or was never where the server puts it, or is gone.
  abbrev pub is_accounted : Run → Tables × F → Bool
  is_accounted r st =
      is_recorded r.id st.0
      || (is_foreign paths r.database_path || not (is_there st.1 (paths.dir r.database_path)))

  removal_keeps :
      (files : F) (path other : Str)
      → is_there files other ≡ false
      → is_there (remove_run_files paths remove_all files path).1 other ≡ false
  unfolding remove_run_files
  removal_keeps files path other h = ground (arith, h, law.stays_gone files (paths.dir path) other)

  removal_gone :
      (files : F) (path : Str)
      → (remove_run_files paths remove_all files path).0 ≡ true
      → (is_foreign paths path
          || not (is_there (remove_run_files paths remove_all files path).1 (paths.dir path)))
        ≡ true
  unfolding remove_run_files
  removal_gone files path h = ground (arith, h, law.removed files (paths.dir path))

  one-other :
      (r run : Run) (st : Tables × F)
      → str_eq run.id r.id ≡ false
      → is_accounted r st ≡ true
      → is_accounted r (discard_one (run_store db clock paths remove_all next) st run) ≡ true
  unfolding discard_one clear_run_database update
  one-other r run st n h =
      let files = (remove_run_files paths remove_all st.1 run.database_path).1 in
      let d = paths.dir r.database_path in
      ground (
        arith,
        h,
        recorded-clear r.id run.id st.0.runs n,
        removal_keeps st.1 run.database_path d,
        law.never_back files d,
      )

  one-same :
      (run : Run) (st : Tables × F)
      → is_accounted run st ≡ true
      → is_accounted run (discard_one (run_store db clock paths remove_all next) st run) ≡ true
  unfolding discard_one clear_run_database update
  one-same run st h =
      let files = (remove_run_files paths remove_all st.1 run.database_path).1 in
      let d = paths.dir run.database_path in
      ground (
        arith,
        h,
        removal_keeps st.1 run.database_path d,
        removal_gone st.1 run.database_path,
        law.never_back files d,
      )

  module _ (r : Run) where
    -- A run with the id of `r` is `r`.
    abbrev IsOwn : Run → Type 0
    IsOwn run = str_eq run.id r.id ≡ true → run ≡ r

    loop-accounted :
        (st : Tables × F) (runs : List Run)
        → All IsOwn runs
        → is_accounted r st ≡ true
        → is_accounted r (discard_loop (run_store db clock paths remove_all next) st runs) ≡ true
    unfolding discard_loop
    loop-accounted st [] own h = h
    loop-accounted st (run ∷ runs) own h =
        loop-accounted (discard_one (run_store db clock paths remove_all next) st run) runs own.1
          (elim (Bool-cases (str_eq run.id r.id)) [
            | inr n ↦ one-other r run st n h
            | inl e ↦
                let same : r ≡ run = sym (own.0 e) in
                subst
                  (λ x.
                    is_accounted x (discard_one (run_store db clock paths remove_all next) st run)
                    ≡ true)
                  (sym same) (one-same run st (subst (λ x. is_accounted x st ≡ true) same h))
          ])

    expired-IsOwn :
        (t : Tables) (world : Database) (before : ℤ) (runs : List Run)
        → All IsOwn t.runs
        → discardable_run_databases world clock before t ≡ some runs
        → All IsOwn runs
    unfolding discardable_run_databases
    expired-IsOwn t world before runs own k =
        let in_time : Run → Bool = λ x. ltb_ℤ (clock.parse_time x.finished_at) before in
        let by_time : Run → Run → Bool = λ a b. str_lt a.finished_at b.finished_at in
        let found = keep (is_discardable clock before t) t.runs in
        elim (Bool-cases (world read)) [
          | inl up ↦ subst (All IsOwn) (ground (arith, k, up)) (
              All-keep IsOwn in_time (sort_by by_time found) (
                sort_by-All by_time IsOwn found
                  (All-keep IsOwn (is_discardable clock before t) t.runs own)))
          | inr down ↦ absurd (ground (arith, k, down))
        ]

  all-IsOwn :
      (t : Tables) (r : Run)
      → Consistent t
      → find_by (λ x. x.id) r.id t.runs ≡ some r
      → All (IsOwn r) t.runs
  all-IsOwn t r c f =
      All-map
        (λ x g e.
          let both : some x ≡ some r =
            sym g ∙ (ap (λ i. find_by (λ y. y.id) i t.runs) ((str_eq_iff x.id r.id).0 e) ∙ f) in
          ground (arith, both))
        t.runs (found_each t.runs c.run_ids)

  at_first :
      (st : Tables × F) (r : Run)
      → find_by (λ x. x.id) r.id st.0.runs ≡ some r
      → is_accounted r st ≡ true
  unfolding is_foreign
  at_first st r f = ground (arith, found_recorded r st.0.runs f)

  after_query :
      (st : Tables × F) (before : ℤ) (r : Run) (o : Option (List Run))
      → Consistent st.0
      → find_by (λ x. x.id) r.id st.0.runs ≡ some r
      → discardable_run_databases (db st.1) clock before st.0 ≡ o
      → is_accounted r (elim o as (λ x. Tables × F) [
        | none ↦ st
        | some rs ↦ discard_loop (run_store db clock paths remove_all next) st rs
      ])
        ≡ true
  after_query st before r none c f e = at_first st r f
  after_query st before r (some rs) c f e =
      loop-accounted r st rs (expired-IsOwn r st.0 (db st.1) before rs (all-IsOwn st.0 r c f) e)
        (at_first st r f)

  -- After a discard on consistent tables every run of the tables either is still recorded as
  -- holding its data, or had no database path in the server's directory of runs, or has no
  -- directory left on the disk, whichever statements and removals fail, if `RemoveAll` leaves a
  -- directory absent where it succeeds and nothing brings a removed directory back.
  pub discard-accounts :
      (st : Tables × F) (now retain : ℤ)
      → Consistent st.0
      → All
          (λ r.
            is_accounted r (discard (run_store db clock paths remove_all next) st now retain)
            ≡ true)
          st.0.runs
  unfolding discard
  discard-accounts st now retain c =
      All-map
        (λ r f. ground (
          arith,
          at_first st r f,
          after_query st (now -ℤ retain) r
              (discardable_run_databases (db st.1) clock (now -ℤ retain) st.0) c f refl,
        ))
        st.0.runs (found_each st.0.runs c.run_ids)
