-- ===== src/Store/Keeps.antt =====
-- internal/store/runs.go and internal/api/scheduler.go: discarding never takes the newest data of a
-- dataset. The files of a run are a parameter.
use veritix.Base.{
  ◌≡◌, refl, ap, sym, ◌∙◌, subst, arith, Bool, true, false, ◌&&◌, Option, none, some, List, [], ◌∷◌,
  Str, str_eq, str_eq_iff, str_eq_refl, str_lt, any_of, keep, any_of-Perm, Bool-cases, inl, inr,
  Option-cases, All, All-keep,
}
use veritix.Base.Sort.{sort_by, sort_by-All, sort_by-perm}
use veritix.Base.Int.{ℤ, ◌-ℤ◌, ltb_ℤ}
use veritix.Base.Walk.{find_by, DistinctBy}
use veritix.Store.Model.{Run, Tables, Clock, Database, read}
use veritix.Store.Rows.{All-kept, All-both, absent_differs}
use veritix.Store.Write.{set_row, update, clear_run_database}
use veritix.Store.Read.{
  later, head_of, holds_for, holder, is_discardable, discardable_run_databases,
}
use veritix.Store.Consistent.{Consistent}
use veritix.Scheduler.Discard.{
  Paths, remove_run_files, DataStore, discard_one, discard_loop, discard,
}

-- A row with an id that holds the data of a dataset.
abbrev is_kept : Str → Str → Run → Bool
is_kept id dataset r = str_eq r.id id && holds_for dataset r

any_of-clear :
    (id dataset gone : Str) (rs : List Run)
    → str_eq gone id ≡ false
    → any_of (is_kept id dataset) rs ≡ true
    → any_of (is_kept id dataset) (set_row gone (λ r. record r { database_path = [] }) rs) ≡ true
any_of-clear id dataset gone [] n h = h
any_of-clear id dataset gone (r ∷ rs) n h = ground (
  arith,
  n,
  h,
  any_of-clear id dataset gone rs n,
  str_eq_iff r.id gone,
  str_eq_iff r.id id,
  str_eq_iff gone id,
)

-- Of rows with distinct ids, each is what its id finds.
pub found_each :
    (rs : List Run) → DistinctBy (λ r. r.id) rs → All (λ r. find_by (λ x. x.id) r.id rs ≡ some r) rs
found_each [] d = tt
found_each (r ∷ rs) d = (
  ground (arith, str_eq_refl r.id),
  All-both (λ x h k. ground (arith, h, k)) rs (absent_differs (λ x. x.id) r.id rs d.0)
      (found_each rs d.1),
)

any_of-head :
    (p : Run → Bool) (rs : List Run) (h : Run)
    → head_of rs ≡ some h
    → p h ≡ true
    → any_of p rs ≡ true
any_of-head p [] h e k = absurd (ground arith)
any_of-head p (r ∷ rs) h e k = ground (arith, k, e)

head_All : (P : Run → Type 0) (rs : List Run) (h : Run) → head_of rs ≡ some h → All P rs → P h
head_All P [] h e a = absurd (ground arith)
head_All P (r ∷ rs) h e a = subst P (ground (arith, e)) a.0

any_of-kept : (p q : Run → Bool) (rs : List Run) → any_of p (keep q rs) ≡ true → any_of p rs ≡ true
any_of-kept p q [] h = h
any_of-kept p q (r ∷ rs) h = ground (arith, h, any_of-kept p q rs)

module _ (t : Tables) (dataset : Str) (h : Run) (e : holder t dataset ≡ some h) where
  holder-All : (P : Run → Type 0) → All P (keep (holds_for dataset) t.runs) → P h
  unfolding holder
  holder-All P a =
      head_All P (sort_by later (keep (holds_for dataset) t.runs)) h e
        (sort_by-All later P (keep (holds_for dataset) t.runs) a)

  holder-holds : holds_for dataset h ≡ true
  holder-holds = holder-All (λ r. holds_for dataset r ≡ true) (All-kept (holds_for dataset) t.runs)

  holder-kept : any_of (is_kept h.id dataset) t.runs ≡ true
  unfolding holder
  holder-kept = any_of-kept (is_kept h.id dataset) (holds_for dataset) t.runs (
      sym
        (any_of-Perm (is_kept h.id dataset) (sort_by-perm later (keep (holds_for dataset) t.runs)))
      ∙ any_of-head (is_kept h.id dataset) (sort_by later (keep (holds_for dataset) t.runs)) h e
          (ground (arith, str_eq_refl h.id, holder-holds)))

  -- The holder itself is not discardable.
  holder_spared : (clock : Clock) (before : ℤ) → is_discardable clock before t h ≡ false
  unfolding is_discardable
  holder_spared clock before =
      let same : h.dataset_id ≡ dataset =
        (str_eq_iff h.dataset_id dataset).0 (ground (arith, holder-holds)) in
      let k : holder t h.dataset_id ≡ some h = ap (holder t) same ∙ e in
      ground (arith, k, str_eq_refl h.id)

  spared :
      (clock : Clock) (before : ℤ) (c : Consistent t) (r : Run)
      → find_by (λ x. x.id) r.id t.runs ≡ some r
      → is_discardable clock before t r ≡ true
      → str_eq r.id h.id ≡ false
  spared clock before c r f d = elim (Bool-cases (str_eq r.id h.id)) [
    | inr k ↦ k
    | inl k ↦
        let own : find_by (λ x. x.id) h.id t.runs ≡ some h =
          holder-All (λ x. find_by (λ y. y.id) x.id t.runs ≡ some x)
            (All-keep (λ x. find_by (λ y. y.id) x.id t.runs ≡ some x) (holds_for dataset) t.runs
              (found_each t.runs c.run_ids)) in
        let ids : r.id ≡ h.id = (str_eq_iff r.id h.id).0 k in
        let both : some r ≡ some h = sym f ∙ (ap (λ i. find_by (λ x. x.id) i t.runs) ids ∙ own) in
        let same : r ≡ h = ground (arith, both) in
        absurd
          (ground (arith, holder_spared clock before, ap (is_discardable clock before t) same, d))
  ]

  discardable_spares :
      (db : Database) (clock : Clock) (before : ℤ) (c : Consistent t) (rs : List Run)
      → discardable_run_databases db clock before t ≡ some rs
      → All (λ r. str_eq r.id h.id ≡ false) rs
  unfolding discardable_run_databases
  discardable_spares db clock before c rs k = elim (Bool-cases (db read)) [
    | inl up ↦
        let found = keep (is_discardable clock before t) t.runs in
        let by_time : Run → Run → Bool = λ a b. str_lt a.finished_at b.finished_at in
        let in_time : Run → Bool = λ r. ltb_ℤ (clock.parse_time r.finished_at) before in
        let each : All (λ r. str_eq r.id h.id ≡ false) found =
          All-both (λ r f d. spared clock before c r f d) found
            (All-keep (λ r. find_by (λ x. x.id) r.id t.runs ≡ some r)
              (is_discardable clock before t) t.runs (found_each t.runs c.run_ids))
            (All-kept (is_discardable clock before t) t.runs) in
        subst (All (λ r. str_eq r.id h.id ≡ false)) (ground (arith, k, up)) (
          All-keep (λ r. str_eq r.id h.id ≡ false) in_time (sort_by by_time found)
            (sort_by-All by_time (λ r. str_eq r.id h.id ≡ false) found each))
    | inr down ↦ absurd (ground (arith, k, down))
  ]

head_none : (p : Run → Bool) (rs : List Run) → head_of rs ≡ none → any_of p rs ≡ false
head_none p [] h = refl
head_none p (r ∷ rs) h = absurd (ground (arith, h))

any_of-keep_own : (p : Run → Bool) (rs : List Run) → any_of p (keep p rs) ≡ any_of p rs
any_of-keep_own p [] = refl
any_of-keep_own p (r ∷ rs) = ground (arith, any_of-keep_own p rs)

-- A dataset with data has a newest run with data.
no_holder :
    (t : Tables) (dataset : Str)
    → holder t dataset ≡ none
    → any_of (holds_for dataset) t.runs ≡ false
unfolding holder
no_holder t dataset e =
    let held = keep (holds_for dataset) t.runs in
    sym (any_of-keep_own (holds_for dataset) t.runs)
    ∙ (sym (any_of-Perm (holds_for dataset) (sort_by-perm later held))
        ∙ head_none (holds_for dataset) (sort_by later held) e)

-- The store as the scheduler sees it. `F` is the rest of the world: whether the database answers, and
-- the files.
module _ {F : Type 0} (db : F → Database) (clock : Clock) (paths : Paths)
    (remove_all : F → Str → Bool × F) (next : F → F) where
  abbrev pub run_store : DataStore (Tables × F) Run
  run_store = record {
    discardable = λ st before. elim (discardable_run_databases (db st.1) clock before st.0) [
      | none ↦ (false, [])
      | some rs ↦ (true, rs)
    ];
    remove_run_files = λ st run.
        let (done, files) = remove_run_files paths remove_all st.1 run.database_path in
        (done, (st.0, files));
    clear_run_database = λ st run.
        let (t', e) = clear_run_database (db st.1) run.id st.0 in
        (elim e [ none ↦ true | some x ↦ false ], (t', next st.1));
  }

  module _ (id dataset : Str) where
    Held : Tables × F → Type 0
    Held st = any_of (is_kept id dataset) st.0.runs ≡ true

    discard_one-Held :
        (st : Tables × F) (run : Run)
        → str_eq run.id id ≡ false
        → Held st
        → Held (discard_one run_store st run)
    unfolding discard_one clear_run_database update Held
    discard_one-Held st run n h = ground (arith, any_of-clear id dataset run.id st.0.runs n h, h)

    discard_loop-Held :
        (st : Tables × F) (rs : List Run)
        → All (λ r. str_eq r.id id ≡ false) rs
        → Held st
        → Held (discard_loop run_store st rs)
    unfolding discard_loop
    discard_loop-Held st [] a h = h
    discard_loop-Held st (r ∷ rs) a h =
        discard_loop-Held (discard_one run_store st r) rs a.1 (discard_one-Held st r a.0 h)

  any_of-weaken :
      (id dataset : Str) (rs : List Run)
      → any_of (is_kept id dataset) rs ≡ true
      → any_of (holds_for dataset) rs ≡ true
  any_of-weaken id dataset [] h = h
  any_of-weaken id dataset (r ∷ rs) h = ground (arith, h, any_of-weaken id dataset rs)

  discarded :
      (st : Tables × F) (dataset : Str) (before : ℤ) (o : Option (List Run))
      → Consistent st.0
      → any_of (holds_for dataset) st.0.runs ≡ true
      → discardable_run_databases (db st.1) clock before st.0 ≡ o
      → any_of
          (holds_for dataset)
          (elim o as (λ x. Tables × F) [
            | none ↦ st
            | some rs ↦ discard_loop run_store st rs
          ]).0.runs
        ≡ true
  unfolding Held
  discarded st dataset before none c h k = h
  discarded st dataset before (some rs) c h k = elim (Option-cases (holder st.0 dataset)) [
    | inl e ↦ absurd (ground (arith, no_holder st.0 dataset e, h))
    | inr (r, e) ↦ any_of-weaken r.id dataset (discard_loop run_store st rs).0.runs (
        discard_loop-Held r.id dataset st rs
          (discardable_spares st.0 dataset r e (db st.1) clock before c rs k)
          (holder-kept st.0 dataset r e))
  ]

  -- Discarding on consistent tables never takes the last data of a dataset: a dataset that has a
  -- run holding its data still has one, whichever statements and removals fail.
  pub discard-keeps :
      (st : Tables × F) (dataset : Str) (now retain : ℤ)
      → Consistent st.0
      → any_of (holds_for dataset) st.0.runs ≡ true
      → any_of (holds_for dataset) (discard run_store st now retain).0.runs ≡ true
  unfolding discard
  discard-keeps st dataset now retain c h = ground (
    arith,
    h,
    discarded st dataset (now -ℤ retain)
        (discardable_run_databases (db st.1) clock (now -ℤ retain) st.0) c h refl,
  )
