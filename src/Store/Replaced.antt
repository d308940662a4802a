-- ===== src/Store/Replaced.antt =====
-- internal/store/runs.go: the rows of a run and of the others, as `FinishRun` rewrites them.
use veritix.Base.{
  ℕ, suc, ◌≡◌, refl, ap, sym, subst, arith, Bool, true, false, not, ◌&&◌, ◌||◌, Option, none, some,
  List, [], ◌∷◌, ◌++◌, Str, str_eq, str_eq_refl, if◌then◌else◌, any_of, keep, map,
}
use veritix.Base.Int.{ℤ}
use veritix.Base.Walk.{find_by}
use veritix.Store.Model.{
  succeeded, Run, Finding, Counts, Tables, Clock, duration_of, insert, Database,
}
use veritix.Store.Write.{set_row, insert_findings}

-- The row of a run that finished.
abbrev pub finished_row : Clock → ℤ → Str → Counts → Run → Run → Run
finished_row clock now document counts old r = record r {
  status = succeeded;
  finished_at = clock.format_time now;
  duration_ms = duration_of clock old.started_at now;
  errors = counts.errors;
  warnings = counts.warnings;
  infos = counts.infos;
  document = document;
}

abbrev pub of_run : {A : Type 0} → Str → Str × A → Bool
of_run id e = str_eq e.0 id

abbrev pub tagged : Str → List Finding → List (Str × Finding)
tagged id = map (λ f. (id, f))

-- The tables with the results of a run.
abbrev pub finished_tables : Clock → ℤ → Str → Str → Counts → List Finding → Run → Tables → Tables
finished_tables clock now id document counts findings old t = record t {
  runs = set_row id (finished_row clock now document counts old) t.runs;
  findings = keep (λ e. not (of_run id e)) t.findings ++ tagged id findings;
}

abbrev pub InsertedAs : List (Str × Finding) → Option (List (Str × Finding)) → Type 0
InsertedAs rows none = Unit
InsertedAs rows (some out) = out ≡ rows

inserted_if :
    (skip : Bool) (rows : List (Str × Finding)) (o : Option (List (Str × Finding)))
    → InsertedAs rows o
    → InsertedAs rows (if skip then none else o)
inserted_if true rows o h = tt
inserted_if false rows o h = h

pub ap2 : {A : Type 0} {a b c d : List A} → a ≡ b → c ≡ d → a ++ c ≡ b ++ d
ap2 p q = cc

append_snoc : {A : Type 0} (xs : List A) (y : A) (ys : List A) → (xs ++ y ∷ []) ++ ys ≡ xs ++ y ∷ ys
append_snoc [] y ys = refl
append_snoc (x ∷ xs) y ys = ap (λ zs. x ∷ zs) (append_snoc xs y ys)

pub append_nil : {A : Type 0} (xs : List A) → xs ++ [] ≡ xs
append_nil [] = refl
append_nil (x ∷ xs) = ap (λ zs. x ∷ zs) (append_nil xs)

pub insert_findings_lem :
    (db : Database) (id : Str) (i : ℕ) (fs : List Finding) (rows : List (Str × Finding))
    → InsertedAs (rows ++ tagged id fs) (insert_findings db id i fs rows)
unfolding insert_findings
insert_findings_lem db id i [] rows = sym (append_nil rows)
insert_findings_lem db id i (f ∷ fs) rows =
    inserted_if (not (db (insert i)) || any_of (λ e. str_eq e.0 id && str_eq e.1.id f.id) rows)
      (rows ++ (id, f) ∷ tagged id fs) (insert_findings db id (suc i) fs (rows ++ (id, f) ∷ []))
      (subst (λ zs. InsertedAs zs (insert_findings db id (suc i) fs (rows ++ (id, f) ∷ [])))
        (append_snoc rows (id, f) (tagged id fs))
        (insert_findings_lem db id (suc i) fs (rows ++ (id, f) ∷ [])))

-- What the rows of one run and of the others are after the transaction.
pub find_by-set_row :
    (id : Str) (f : Run → Run) (old : Run) (rs : List Run)
    → ((r : Run) → (f r).id ≡ r.id)
    → find_by (λ r. r.id) id rs ≡ some old
    → find_by (λ r. r.id) id (set_row id f rs) ≡ some (f old)
find_by-set_row id f old [] keeps h = absurd (ground arith)
find_by-set_row id f old (r ∷ rs) keeps h =
    ground (arith, h, keeps r, find_by-set_row id f old rs keeps)

pub others-set_row :
    (id : Str) (f : Run → Run) (rs : List Run)
    → ((r : Run) → (f r).id ≡ r.id)
    → keep (λ r. not (str_eq r.id id)) (set_row id f rs) ≡ keep (λ r. not (str_eq r.id id)) rs
others-set_row id f [] keeps = refl
others-set_row id f (r ∷ rs) keeps = ground (arith, others-set_row id f rs keeps, keeps r)

pub own-cleared :
    (id : Str) (es : List (Str × Finding))
    → keep (of_run id) (keep (λ e. not (of_run id e)) es) ≡ []
own-cleared id [] = refl
own-cleared id (e ∷ es) = ground (arith, own-cleared id es)

pub others-cleared :
    (id : Str) (es : List (Str × Finding))
    → keep (λ e. not (of_run id e)) (keep (λ e. not (of_run id e)) es)
      ≡ keep (λ e. not (of_run id e)) es
others-cleared id [] = refl
others-cleared id (e ∷ es) = ground (arith, others-cleared id es)

pub own-tagged : (id : Str) (fs : List Finding) → keep (of_run id) (tagged id fs) ≡ tagged id fs
own-tagged id [] = refl
own-tagged id (f ∷ fs) = ground (arith, own-tagged id fs, str_eq_refl id)

pub others-tagged :
    (id : Str) (fs : List Finding) → keep (λ e. not (of_run id e)) (tagged id fs) ≡ []
others-tagged id [] = refl
others-tagged id (f ∷ fs) = ground (arith, others-tagged id fs, str_eq_refl id)
