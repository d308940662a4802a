-- ===== src/Config/Usable.antt =====
-- internal/config/config.go: what settings promise that pass their validation.
use veritix.Base.{
  ℕ, suc, ◌≡◌, refl, arith, false, not, ◌&&◌, ◌||◌, Option, none, some, List, [], ◌∷◌, Str, codes,
  str_eq, str_eq_iff, any_of, All,
}
use veritix.Base.Int.{pos, ltb_ℤ}
use veritix.Base.Find.{contains}
use veritix.Base.Walk.{DistinctBy, has_key}
use veritix.Config.Settings.{
  Config, ContextServer, Notify, Refusal, one_of, is_http, is_empty, below_one, then_check,
  validate_notify, server_fault, check_servers, duplicate_names, validate, early_checks,
  notify_checks, tick_checks, name_checks, late_checks,
}

-- A context server that can be started and told from the others by its name.
pub record Startable (s : ContextServer) : Type 0 where
  pub named : is_empty s.name ≡ false
  pub has_command : is_empty s.command ≡ false
  pub pairs : any_of (λ e. not (contains e (codes "="))) s.env ≡ false

-- A webhook that messages can be sent to, or none.
pub record Sendable (n : Notify) : Type 0 where
  pub is_web : (not (is_empty n.webhook_url) && not (is_http n.webhook_url)) ≡ false
  pub known_event :
      (not (is_empty n.webhook_url)
        && not (one_of (codes "regression" ∷ codes "failure" ∷ codes "any" ∷ []) n.on_event))
      ≡ false
  pub waits : (not (is_empty n.webhook_url) && not (ltb_ℤ (pos 0) n.timeout)) ≡ false

both_none : (a b : Option Refusal) → then_check a b ≡ none → (a ≡ none) × (b ≡ none)
both_none none b h = (refl, h)
both_none (some r) b h = absurd (ground arith)

server-Startable : (i : ℕ) (s : ContextServer) → server_fault i s ≡ none → Startable s
unfolding server_fault
server-Startable i s h = record {
  named = ground (arith, h);
  has_command = ground (arith, h);
  pairs = ground (arith, h);
}

servers-Startable : (i : ℕ) (ss : List ContextServer) → check_servers i ss ≡ none → All Startable ss
unfolding check_servers
servers-Startable i [] h = tt
servers-Startable i (s ∷ ss) h =
    let parts = both_none (server_fault i s) (check_servers (suc i) ss) h in
    (server-Startable i s parts.0, servers-Startable (suc i) ss parts.1)

abbrev Unseen : List Str → ContextServer → Type 0
Unseen seen s = any_of (λ n. str_eq n s.name) seen ≡ false

new_names :
    (k : Str) (seen : List Str) (ss : List ContextServer)
    → All (Unseen (k ∷ seen)) ss
    → (has_key (λ s. s.name) k ss ≡ false) × All (Unseen seen) ss
new_names k seen [] a = (refl, tt)
new_names k seen (s ∷ ss) a =
    let rest = new_names k seen ss a.1 in
    (
      ground (arith, a.0, rest.0, str_eq_iff k s.name, str_eq_iff s.name k),
      (ground (arith, a.0), rest.1),
    )

names_differ :
    (seen : List Str) (ss : List ContextServer)
    → duplicate_names seen ss ≡ none
    → All (Unseen seen) ss × DistinctBy (λ s. s.name) ss
unfolding duplicate_names
names_differ seen [] h = (tt, tt)
names_differ seen (s ∷ ss) h =
    let rest = names_differ (s.name ∷ seen) ss (ground (arith, h)) in
    let new = new_names s.name seen ss rest.0 in ((ground (arith, h), new.1), (new.0, rest.1))

-- Settings that do not fail later for what they hold.
pub record IsUsable (c : Config) : Type 0 where
  pub startable : All Startable c.context_servers
  pub distinct : DistinctBy (λ s. s.name) c.context_servers
  pub sendable : Sendable c.notify
  pub ticks :
      (c.schedule_enabled
        && (ltb_ℤ c.schedule_tick (pos 1000000000) || ltb_ℤ (pos 600000000000) c.schedule_tick))
      ≡ false
  pub limits :
      (below_one c.server_max_upload_bytes
        || (below_one c.engine_max_result_rows || below_one c.llm_max_steps))
      ≡ false
  pub links : (not (is_empty c.server_source_url) && not (is_http c.server_source_url)) ≡ false

notify-Sendable : (c : Config) → notify_checks c ≡ none → Sendable c.notify
unfolding notify_checks validate_notify
notify-Sendable c h = record {
  is_web = ground (arith, h);
  known_event = ground (arith, h);
  waits = ground (arith, h);
}

one_name_each : (c : Config) → name_checks c ≡ none → duplicate_names [] c.context_servers ≡ none
unfolding name_checks
one_name_each c h = ground (arith, h)

tick_lem :
    (c : Config)
    → tick_checks c ≡ none
    → ((c.schedule_enabled
          && (ltb_ℤ c.schedule_tick (pos 1000000000) || ltb_ℤ (pos 600000000000) c.schedule_tick))
        ≡ false)
      × (below_one c.engine_max_result_rows ≡ false)
unfolding tick_checks
tick_lem c h = (ground (arith, h), ground (arith, h))

early_lem :
    (c : Config)
    → early_checks c ≡ none
    → (below_one c.server_max_upload_bytes ≡ false)
      × ((not (is_empty c.server_source_url) && not (is_http c.server_source_url)) ≡ false)
unfolding early_checks
early_lem c h = (ground (arith, h), ground (arith, h))

late_lem : (c : Config) → late_checks c ≡ none → below_one c.llm_max_steps ≡ false
unfolding late_checks
late_lem c h = ground (arith, h)

-- Settings that pass their validation name a command for every context server, with names that
-- are all different, have positive limits for uploads, result rows and steps, a tick between a
-- second and ten minutes where schedules are enabled, an http link or none to the source, and a
-- webhook that is an http link with a known event and a timeout, or none.
pub validate-IsUsable : (c : Config) → validate c ≡ none → IsUsable c
unfolding validate
validate-IsUsable c h =
    let r5 = then_check (name_checks c) (late_checks c) in
    let r4 = then_check (check_servers 0 c.context_servers) r5 in
    let r3 = then_check (tick_checks c) r4 in
    let r2 = then_check (notify_checks c) r3 in
    let a = both_none (early_checks c) r2 h in
    let b = both_none (notify_checks c) r3 a.1 in
    let d = both_none (tick_checks c) r4 b.1 in
    let e = both_none (check_servers 0 c.context_servers) r5 d.1 in
    let f = both_none (name_checks c) (late_checks c) e.1 in
    record {
      startable = servers-Startable 0 c.context_servers e.0;
      distinct = (names_differ [] c.context_servers (one_name_each c f.0)).1;
      sendable = notify-Sendable c b.0;
      ticks = (tick_lem c d.0).0;
      limits = ground (arith, (early_lem c a.0).0, (tick_lem c d.0).1, late_lem c f.1);
      links = (early_lem c a.0).1;
    }
