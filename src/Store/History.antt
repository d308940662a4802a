-- ===== src/Store/History.antt =====
-- internal/store/runs.go: which run `PreviousRun` finds, and what a restart leaves in flight.
use veritix.Base.{
  ◌≡◌, refl, ap, sym, ◌∙◌, subst, arith, Bool, true, false, ◌&&◌, none, some, List, [], ◌∷◌, Str,
  str_eq, str_eq_iff, str_lt, any_of, keep, map, any_of-Perm, All, Option-cases, inl, inr,
  str_lt_asym, str_lt_trans, str_lt_total,
}
use veritix.Base.Sort.{sort_by, sort_by-All, sort_by-perm, sort_by-InOrder, InOrder, IsWeakOrder}
use veritix.Base.Walk.{find_by}
use veritix.Store.Model.{
  Status, succeeded, canceled, terminal, same_status, Run, Tables, Database, write,
}
use veritix.Store.Write.{interrupt_row, mark_interrupted}
use veritix.Store.Rows.{All-kept}
use veritix.Store.Read.{
  later, head_of, newest, in_flight, is_earlier_success, previous_run, active_run,
}

later-IsWeakOrder : IsWeakOrder (λ (r : Run). Unit) later
later-IsWeakOrder = record {
  asym = λ a b _ _ h. str_lt_asym b.created_at a.created_at h;
  neg_trans = λ a b c _ _ _ h k. ground (
    arith,
    h,
    k,
    str_lt_total a.created_at b.created_at,
    str_lt_total b.created_at c.created_at,
    str_lt_trans c.created_at a.created_at b.created_at,
    str_lt_trans b.created_at c.created_at a.created_at,
    str_lt_trans a.created_at b.created_at c.created_at,
    str_lt_asym c.created_at a.created_at,
    str_lt_asym a.created_at b.created_at,
    str_lt_asym b.created_at c.created_at,
  );
}

all_unit : (rs : List Run) → All {0, 0} (λ (r : Run). Unit) rs
all_unit [] = tt
all_unit (r ∷ rs) = (tt, all_unit rs)

none_of : (p : Run → Bool) (rs : List Run) → All (λ r. p r ≡ false) rs → any_of p rs ≡ false
none_of p [] h = refl
none_of p (r ∷ rs) h = ground (arith, h.0, none_of p rs h.1)

head_greatest :
    (rs : List Run) (p : Run)
    → head_of rs ≡ some p
    → InOrder later rs
    → any_of (λ r. later r p) rs ≡ false
head_greatest [] p e h = refl
head_greatest (r ∷ rs) p e h =
    let same : r ≡ p = ground (arith, e) in
    subst (λ x. any_of (λ y. later y x) (r ∷ rs) ≡ false) same
      (ground (arith, none_of (λ y. later y r) rs h.0, str_lt_asym r.created_at r.created_at))

-- No row is later than the newest.
newest_lem : (rs : List Run) (p : Run) → newest rs ≡ some p → any_of (λ r. later r p) rs ≡ false
newest_lem rs p e =
    sym (any_of-Perm (λ r. later r p) (sort_by-perm later rs))
    ∙ head_greatest (sort_by later rs) p e
        (sort_by-InOrder (λ (r : Run). Unit) later later-IsWeakOrder rs (all_unit rs))

any_of-kept_both :
    (p q : Run → Bool) (rs : List Run) → any_of q (keep p rs) ≡ any_of (λ r. p r && q r) rs
any_of-kept_both p q [] = refl
any_of-kept_both p q (r ∷ rs) = ground (arith, any_of-kept_both p q rs)

head_of-All : (P : Run → Type 0) (rs : List Run) (p : Run) → head_of rs ≡ some p → All P rs → P p
head_of-All P [] p e a = absurd (ground arith)
head_of-All P (r ∷ rs) p e a = subst P (ground (arith, e)) a.0

-- The text of a stored time is earlier than another's.
abbrev Before : Str → Str → Type 0
Before a b = str_lt a b ≡ true

-- Nothing that succeeded on the dataset before the run `cur` is stored with a later time than `p`.
abbrev pub NotLater : Run → Run → Run → Type 0
NotLater cur p r =
    r.status ≡ succeeded
    → r.dataset_id ≡ cur.dataset_id
    → Before r.created_at cur.created_at
    → ¬ Before p.created_at r.created_at

-- A run is the latest of the successful ones before another of its dataset.
pub record IsPrevious (t : Tables) (id : Str) (p : Run) : Type 0 where
  pub current : Run
  pub is_current : find_by (λ r. r.id) id t.runs ≡ some current
  pub good : p.status ≡ succeeded
  pub same_dataset : p.dataset_id ≡ current.dataset_id
  pub before : str_lt p.created_at current.created_at ≡ true
  pub none_later : All (NotLater current p) t.runs

same_status_lem : (a b : Status) → same_status a b ≡ true → a ≡ b
same_status_lem a b h = ground (arith, h)

succeeded_lem : same_status succeeded succeeded ≡ true
succeeded_lem = refl

chosen_parts :
    (cur p : Run)
    → is_earlier_success cur p ≡ true
    → (p.status ≡ succeeded) × (p.dataset_id ≡ cur.dataset_id) × Before p.created_at cur.created_at
unfolding is_earlier_success
chosen_parts cur p h = (
  same_status_lem p.status succeeded (ground (arith, h)),
  (str_eq_iff p.dataset_id cur.dataset_id).0 (ground (arith, h)),
  ground (arith, h),
)

each-NotLater :
    (cur p : Run) (rs : List Run)
    → any_of (λ r. is_earlier_success cur r && later r p) rs ≡ false
    → All (NotLater cur p) rs
unfolding is_earlier_success
each-NotLater cur p [] h = tt
each-NotLater cur p (r ∷ rs) h = (
  λ s d b k. absurd (
      ground (
        arith,
        h,
        b,
        k,
        ap (λ x. same_status x succeeded) s ∙ succeeded_lem,
        (str_eq_iff r.dataset_id cur.dataset_id).1 d,
      )),
  each-NotLater cur p rs (ground (arith, h)),
)

-- A run that PreviousRun returns has succeeded, is of the dataset of the given run, and is stored
-- with a time whose text is less than the given run's; and no run of the table that has all three
-- is stored with a greater text than it.
pub previous_run-IsPrevious :
    (db : Database) (id : Str) (t : Tables) (p : Run)
    → previous_run db id t ≡ some p
    → IsPrevious t id p
unfolding previous_run
previous_run-IsPrevious db id t p h = elim (Option-cases (find_by (λ r. r.id) id t.runs)) [
  | inl e ↦ absurd (ground (arith, h, e))
  | inr (cur, e) ↦
      let good = keep (is_earlier_success cur) t.runs in
      let found : newest good ≡ some p = ground (arith, h, e) in
      let chosen : is_earlier_success cur p ≡ true =
        head_of-All (λ r. is_earlier_success cur r ≡ true) (sort_by later good) p found
          (sort_by-All later (λ r. is_earlier_success cur r ≡ true) good
            (All-kept (is_earlier_success cur) t.runs)) in
      let parts = chosen_parts cur p chosen in
      record {
        current = cur;
        is_current = e;
        good = parts.0;
        same_dataset = parts.1;
        before = parts.2;
        none_later = each-NotLater cur p t.runs (
            sym (any_of-kept_both (is_earlier_success cur) (λ r. later r p) t.runs)
            ∙ newest_lem good p found);
      }
]

-- After a restart every run has ended, no dataset has a run in flight, and the runs that had
-- succeeded or were canceled are as they were.
pub record Restarted (db : Database) (t t' : Tables) : Type 0 where
  pub all_ended : All (λ r. terminal r.status ≡ true) t'.runs
  pub none_active : (dataset : Str) → active_run db dataset t' ≡ none
  pub good_same :
      keep (λ r. same_status r.status succeeded) t'.runs
      ≡ keep (λ r. same_status r.status succeeded) t.runs
  pub canceled_same :
      keep (λ r. same_status r.status canceled) t'.runs
      ≡ keep (λ r. same_status r.status canceled) t.runs

interrupt_row-terminal : (now : Str) (r : Run) → terminal (interrupt_row now r).status ≡ true
unfolding terminal
interrupt_row-terminal now r = ground arith

all_interrupted :
    (now : Str) (rs : List Run) → All (λ r. terminal r.status ≡ true) (map (interrupt_row now) rs)
all_interrupted now [] = tt
all_interrupted now (r ∷ rs) = (interrupt_row-terminal now r, all_interrupted now rs)

no_flight :
    (dataset now : Str) (rs : List Run)
    → keep (λ r. str_eq r.dataset_id dataset && in_flight r) (map (interrupt_row now) rs) ≡ []
no_flight dataset now [] = refl
no_flight dataset now (r ∷ rs) = ground (arith, no_flight dataset now rs)

same_good :
    (now : Str) (rs : List Run)
    → keep (λ r. same_status r.status succeeded) (map (interrupt_row now) rs)
      ≡ keep (λ r. same_status r.status succeeded) rs
same_good now [] = refl
same_good now (r ∷ rs) = ground (arith, same_good now rs)

same_canceled :
    (now : Str) (rs : List Run)
    → keep (λ r. same_status r.status canceled) (map (interrupt_row now) rs)
      ≡ keep (λ r. same_status r.status canceled) rs
same_canceled now [] = refl
same_canceled now (r ∷ rs) = ground (arith, same_canceled now rs)

inactive :
    (db : Database) (dataset : Str) (t : Tables)
    → keep (λ r. str_eq r.dataset_id dataset && in_flight r) t.runs ≡ []
    → active_run db dataset t ≡ none
unfolding active_run sort_by
inactive db dataset t h = ground (arith, ap newest h)

-- If the database carries out MarkInterrupted, every run has ended afterwards, no dataset has
-- an active run, and the runs that had succeeded or were canceled are as they were.
pub mark_interrupted-Restarted :
    (db later_db : Database) (now : Str) (t : Tables)
    → db write ≡ true
    → Restarted later_db t (mark_interrupted db now t).0
unfolding mark_interrupted
mark_interrupted-Restarted db later_db now t up =
    let after : Tables = record t { runs = map (interrupt_row now) t.runs } in
    let done : mark_interrupted db now t ≡ (after, none) = ground (arith, up) in
    subst (λ o. Restarted later_db t o.0) (sym done)
      (record {
        all_ended = all_interrupted now t.runs;
        none_active = λ dataset. inactive later_db dataset after (no_flight dataset now t.runs);
        good_same = same_good now t.runs;
        canceled_same = same_canceled now t.runs;
      })
