-- ===== src/Compare/Whole.antt =====
-- internal/report/compare.go: `Compare`.
use veritix.Base.{Bool, not, ◌&&◌, ◌||◌, [], ◌∷◌, ◌++◌, str_eq, if◌then◌else◌, length, ltb, any_of}
use veritix.Compare.Model.{
  DeltaSummary, Delta, Document, different_roots, different_schemas, gone_from_export, TableChange,
  removed, TableDelta, Ranges,
}
use veritix.Compare.Findings.{compare_findings}
use veritix.Compare.Tables.{compare_tables}

abbrev is_removed : TableChange → Bool
is_removed removed = Bool.true
is_removed _ = Bool.false

-- A table that is gone, or that lost a column.
unfoldable pub lost_something : TableDelta → Bool
lost_something t = is_removed t.change || ltb 0 (length t.columns_removed)

abbrev pub no_summary : DeltaSummary
no_summary = record {
  news = 0;
  worse = 0;
  gone = 0;
  better = 0;
  same = 0;
  new_errors = 0;
  new_warnings = 0;
}

unfoldable pub compare : Ranges → Document → Document → Delta
unfolding lost_something
compare ranges before after =
    let compared = compare_findings ranges.of_findings before.findings after.findings no_summary in
    let tables = compare_tables ranges before.tables after.tables in
    record {
      baseline = record {
        started_at = before.started_at;
        version = before.version;
        root = before.root;
      };
      summary = compared.summary;
      findings = compared.listed;
      tables = tables;
      notes =
          (if not (str_eq before.root after.root) && not (str_eq before.root [])
            then different_roots before.root after.root ∷ []
            else [])
          ++ ((if not (str_eq before.schema after.schema) && not (str_eq before.schema [])
                then different_schemas before.schema after.schema ∷ []
                else [])
              ++ (if any_of lost_something tables then gone_from_export ∷ [] else []));
    }
