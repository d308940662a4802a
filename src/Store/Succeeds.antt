-- ===== src/Store/Succeeds.antt =====
-- internal/store/runs.go: where the database answers, `FinishRun` succeeds.
use veritix.Base.{
  ℕ, suc, ◌≡◌, refl, arith, Bool, true, false, not, ◌&&◌, none, List, [], ◌∷◌, ◌++◌, Str, str_eq,
  any_of, any_of-append, keep, All,
}
use veritix.Base.Int.{ℤ}
use veritix.Base.Walk.{DistinctBy, find_by, is_some}
use veritix.Store.Model.{
  Finding, Counts, Tables, Clock, Statement, insert, begin, read_started, update_row, delete_old,
  prepare, commit, Database,
}
use veritix.Store.Rows.{All-both, absent_differs}
use veritix.Store.Write.{insert_findings, finish_steps, finish_run}
use veritix.Store.Replaced.{of_run}

-- A row that would collide with a finding of a run.
abbrev collides : Str → Finding → Str × Finding → Bool
collides id f e = str_eq e.0 id && str_eq e.1.id f.id

free_snoc :
    (id : Str) (f : Finding) (fs : List Finding) (rows : List (Str × Finding))
    → All (λ g. any_of (collides id g) rows ≡ false) fs
    → All (λ g. str_eq f.id g.id ≡ false) fs
    → All (λ g. any_of (collides id g) (rows ++ (id, f) ∷ []) ≡ false) fs
free_snoc id f fs rows =
    All-both (λ g h k. ground (arith, any_of-append (collides id g) rows ((id, f) ∷ []), h, k)) fs

insert_findings-succeeds :
    (db : Database) (id : Str) (i : ℕ) (fs : List Finding) (rows : List (Str × Finding))
    → ((n : ℕ) → db (insert n) ≡ true)
    → DistinctBy (λ f. f.id) fs
    → All (λ f. any_of (collides id f) rows ≡ false) fs
    → is_some (insert_findings db id i fs rows) ≡ true
unfolding insert_findings
insert_findings-succeeds db id i [] rows up d a = refl
insert_findings-succeeds db id i (f ∷ fs) rows up d a = ground (
  arith,
  up i,
  a.0,
  insert_findings-succeeds db id (suc i) fs (rows ++ (id, f) ∷ []) up d.1
      (free_snoc id f fs rows a.1 (absent_differs (λ g. g.id) f.id fs d.0)),
)

none_collide :
    (id : Str) (f : Finding) (rows : List (Str × Finding))
    → any_of (collides id f) (keep (λ e. not (of_run id e)) rows) ≡ false
none_collide id f [] = refl
none_collide id f (e ∷ rows) = ground (arith, none_collide id f rows)

all_free :
    (id : Str) (fs : List Finding) (rows : List (Str × Finding))
    → All (λ f. any_of (collides id f) (keep (λ e. not (of_run id e)) rows) ≡ false) fs
all_free id [] rows = tt
all_free id (f ∷ fs) rows = (none_collide id f rows, all_free id fs rows)

-- If the database carries out every statement, the run is in the table and no two of the
-- findings have one id, FinishRun succeeds, whatever the table of findings held before.
pub finish_run-succeeds :
    (db : Database) (clock : Clock) (now : ℤ) (id document : Str) (counts : Counts)
    (findings : List Finding) (t : Tables)
    → ((s : Statement) → db s ≡ true)
    → is_some (find_by (λ r. r.id) id t.runs) ≡ true
    → DistinctBy (λ f. f.id) findings
    → (finish_run db clock now id document counts findings t).1 ≡ none
unfolding finish_run finish_steps
finish_run-succeeds db clock now id document counts findings t up h d =
    let cleared = keep (λ e. not (of_run id e)) t.findings in
    let inserted =
      insert_findings-succeeds db id 0 findings cleared (λ n. up (insert n)) d
        (all_free id findings t.findings) in
    ground (
      arith,
      up begin,
      up read_started,
      up update_row,
      up delete_old,
      up prepare,
      up commit,
      h,
      inserted,
    )
