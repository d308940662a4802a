-- ===== src/Notify/Tests.antt =====
-- A sink for regressions: runs of the operations, and the theorems at them.
use veritix.Base.{
  ◌≡◌, refl, true, false, none, some, [], ◌∷◌, codes, str_eq, ◌==◌, if◌then◌else◌, ℕ, List, any_of,
  Str,
}
use veritix.Base.Int.{pos}
use veritix.Base.Walk.{DistinctBy, find_by}
use veritix.Config.Settings.{Notify}
use veritix.Compare.Model.{FindingInfo, severity_rank}
use veritix.Compare.Findings.{compare_findings}
use veritix.Compare.Whole.{no_summary}
use veritix.Notify.Sink.{regression, wanted, Web, send, run_url}
use veritix.Notify.Sending.{DeliveredBy, send-Delivered}
use veritix.Notify.Regressed.{is_worse, wanted-compare_findings}

abbrev chat : Notify
chat = record {
  webhook_url = codes "https://chat";
  on_event = codes "regression";
  min_severity = codes "error";
  detail = codes "findings";
  base_url = codes "http://audit//";
  timeout = pos 1;
}

-- The first post fails.
abbrev web : Web
web = record { post = λ n. if n == 0 then some (codes "refused") else none; ended = λ n. false }

send-Delivered_example : DeliveredBy web (send (some chat) web)
send-Delivered_example = send-Delivered chat web

links : run_url (some chat) (codes "r1") ≡ codes "http://audit/runs/r1"
unfolding run_url str_eq
links = refl

abbrev info_of : Str → ℕ → FindingInfo
info_of id n = record {
  id = id;
  rule = codes "orphan";
  severity = codes "error";
  title = [];
  table = codes "orders";
  source = [];
  column = [];
  count = pos n;
}

abbrev baseline : List FindingInfo
baseline = info_of (codes "f1") 3 ∷ info_of (codes "f2") 4 ∷ []

abbrev this_run : List FindingInfo
this_run = info_of (codes "f2") 5 ∷ []

baseline-Distinct : DistinctBy (λ f. f.id) baseline
unfolding str_eq
baseline-Distinct = (refl, (refl, tt))

wanted-compare_findings_example :
    wanted
      (some chat)
      (codes "succeeded")
      (some (compare_findings (λ m. m) baseline this_run no_summary).listed)
      (codes "error")
    ≡ (if any_of (λ f. is_worse (codes "error") (find_by (λ g. g.id) f.id baseline) f) this_run
        then some regression
        else none)
wanted-compare_findings_example =
    wanted-compare_findings chat (λ m. m) baseline this_run no_summary refl baseline-Distinct
      (refl, tt)

-- The count of the second finding rose.
this_run-is_worse :
    any_of (λ f. is_worse (codes "error") (find_by (λ g. g.id) f.id baseline) f) this_run ≡ true
unfolding severity_rank str_eq
this_run-is_worse = refl
