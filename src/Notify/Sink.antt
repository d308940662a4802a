-- ===== src/Notify/Sink.antt =====
-- internal/notify/notify.go: `New`, `Wanted`, `Detail`, `MinSeverity`, `RunURL` and `Send`, with the
-- choice of the findings of a message in internal/api/notify.go. A sink that is nil is none. The
-- encoding, the posts and the waits are parameters.
use veritix.Base.{
  ℕ, zero, suc, Bool, not, ◌&&◌, Option, none, some, List, [], ◌∷◌, ◌++◌, Str, codes, str_eq,
  if◌then◌else◌, ltb, ◌==◌,
}
use veritix.Config.Settings.{Notify, is_empty}
use veritix.Compare.Model.{FindingDelta}
use veritix.Compare.Findings.{regressed, regressions}

unfoldable pub new_sink : Notify → Option Notify
new_sink n = if is_empty n.webhook_url then none else some n

pub data Event : Type 0 where
  regression failure audit : Event

-- The regressions of a document: none where there is no document or no comparison.
unfoldable pub count_regressions : Option (List FindingDelta) → Str → ℕ
count_regressions none min_severity = 0
count_regressions (some listed) min_severity = regressions min_severity listed

unfoldable pub wanted : Option Notify → Str → Option (List FindingDelta) → Str → Option Event
unfolding count_regressions
wanted none status doc min_severity = none
wanted (some n) status doc min_severity =
    if str_eq status (codes "canceled")
    then none
    else if str_eq status (codes "failed")
    then some failure
    else if ltb 0 (count_regressions doc min_severity) && not (str_eq n.on_event (codes "failure"))
    then some regression
    else if str_eq n.on_event (codes "any")
    then some audit
    else none

unfoldable pub detail_of : Option Notify → Str
detail_of none = codes "summary"
detail_of (some n) = n.detail

unfoldable pub min_severity_of : Option Notify → Str
min_severity_of none = codes "error"
min_severity_of (some n) = n.min_severity

-- The findings that a message carries.
unfoldable pub told : Option Notify → Option (List FindingDelta) → List FindingDelta
unfolding detail_of min_severity_of
told sink none = []
told sink (some listed) =
    if str_eq (detail_of sink) (codes "findings")
    then regressed (min_severity_of sink) listed
    else []

unfoldable pub trim_slash : Str → Str
trim_slash [] = []
trim_slash (c ∷ s) = let rest = trim_slash s in if c == 47 && is_empty rest then [] else c ∷ rest

unfoldable pub run_url : Option Notify → Str → Str
unfolding trim_slash
run_url none run = []
run_url (some n) run =
    if is_empty n.base_url then [] else trim_slash n.base_url ++ (codes "/runs/" ++ run)

-- How a delivery ends, and how many posts it took.
pub data Delivery : Type 0 where
  sent interrupted : Delivery
  gave_up : Str → Delivery

-- The error of each post, if it had one, and whether the context ended in the wait before it.
pub record Web : Type 0 where
  pub post : ℕ → Option Str
  pub ended : ℕ → Bool

-- The attempt `n`, with how many may follow.
unfoldable pub attempt : Web → ℕ → ℕ → Delivery × ℕ
attempt web zero n = elim (web.post n) [ none ↦ (sent, 1) | some e ↦ (gave_up e, 1) ]
attempt web (suc more) n =
    let (d, k) = attempt web more (suc n) in
    elim (web.post n) [
      | none ↦ (sent, 1)
      | some e ↦ if web.ended (suc n) then (interrupted, 1) else (d, suc k)
    ]

-- `Send`, for a message that was encoded: one delivery and two retries.
unfoldable pub send : Option Notify → Web → Option (Delivery × ℕ)
unfolding attempt
send none web = none
send (some n) web = some (attempt web 2 0)
