-- ===== src/Config/Settings.antt =====
-- internal/config/config.go: `Validate` of the settings and of a webhook, and `duplicateNames`.
-- Durations are nanoseconds. The sample ratio is a float: of it the settings hold whether it is a
-- fraction between 0 and 1.
use veritix.Base.{
  ℕ, suc, Bool, not, ◌&&◌, ◌||◌, Option, none, some, List, [], ◌∷◌, Str, codes, str_eq, has_prefix,
  if◌then◌else◌, any_of,
}
use veritix.Base.Int.{ℤ, pos, ltb_ℤ}
use veritix.Base.Find.{contains}

pub record Notify : Type 0 where
  pub webhook_url : Str
  pub on_event : Str
  pub min_severity : Str
  pub detail : Str
  pub base_url : Str
  pub timeout : ℤ

pub record ContextServer : Type 0 where
  pub name : Str
  pub command : Str
  pub env : List Str

-- The settings that `Validate` reads, each under the name of its key.
pub record Config : Type 0 where
  pub log_level : Str
  pub log_format : Str
  pub llm_provider : Str
  pub llm_max_steps : ℤ
  pub server_max_upload_bytes : ℤ
  pub server_source_url : Str
  pub server_retain_databases : ℤ
  pub notify : Notify
  pub schedule_enabled : Bool
  pub schedule_tick : ℤ
  pub engine_max_result_rows : ℤ
  pub context_servers : List ContextServer
  pub context_max_document_bytes : ℤ
  pub otel_endpoint : Str
  pub otel_ratio_in_range : Bool

-- The key of the setting that is refused.
pub data Refusal : Type 0 where
  log_level log_format llm_provider max_upload_bytes source_url retain_databases webhook_url
        on_event min_severity detail base_url timeout tick max_result_rows max_document_bytes
        max_steps endpoint sample_ratio :
      Refusal
  server_name server_command server_env : ℕ → Refusal
  duplicate_server : Str → Refusal

abbrev pub one_of : List Str → Str → Bool
one_of names s = any_of (λ n. str_eq s n) names

unfoldable pub is_http : Str → Bool
is_http u = has_prefix u (codes "https://") || has_prefix u (codes "http://")

abbrev pub is_empty : Str → Bool
is_empty s = str_eq s []

abbrev pub below_one : ℤ → Bool
below_one n = ltb_ℤ n (pos 1)

-- The checks of a list in order: the first that refuses.
abbrev pub first_refusal : List (Bool × Refusal) → Option Refusal
first_refusal [] = none
first_refusal ((refused, r) ∷ rest) = if refused then some r else first_refusal rest

abbrev pub then_check : Option Refusal → Option Refusal → Option Refusal
then_check (some r) next = some r
then_check none next = next

unfoldable pub validate_notify : Notify → Option Refusal
unfolding is_http
validate_notify n = first_refusal (
    (not (is_http n.webhook_url), webhook_url)
    ∷ (not (one_of (codes "regression" ∷ codes "failure" ∷ codes "any" ∷ []) n.on_event), on_event)
    ∷ (
      not (one_of (codes "info" ∷ codes "warning" ∷ codes "error" ∷ []) n.min_severity),
      min_severity,
    )
    ∷ (not (one_of (codes "findings" ∷ codes "summary" ∷ []) n.detail), detail)
    ∷ (not (is_empty n.base_url) && not (is_http n.base_url), base_url)
    ∷ (not (ltb_ℤ (pos 0) n.timeout), timeout)
    ∷ [])

unfoldable pub server_fault : ℕ → ContextServer → Option Refusal
server_fault i s = first_refusal (
    (is_empty s.name, server_name i)
    ∷ (is_empty s.command, server_command i)
    ∷ (any_of (λ e. not (contains e (codes "="))) s.env, server_env i)
    ∷ [])

unfoldable pub check_servers : ℕ → List ContextServer → Option Refusal
check_servers i [] = none
check_servers i (s ∷ ss) = then_check (server_fault i s) (check_servers (suc i) ss)

-- The first name that was seen before.
unfoldable pub duplicate_names : List Str → List ContextServer → Option Str
duplicate_names seen [] = none
duplicate_names seen (s ∷ ss) =
    let rest = duplicate_names (s.name ∷ seen) ss in
    if any_of (λ n. str_eq n s.name) seen then some s.name else rest

-- The checks of `Validate`, in order and by where they stand.
unfoldable pub early_checks : Config → Option Refusal
unfolding is_http
early_checks c = first_refusal (
    (
      not (one_of (codes "debug" ∷ codes "info" ∷ codes "warn" ∷ codes "error" ∷ []) c.log_level),
      log_level,
    )
    ∷ (not (one_of (codes "text" ∷ codes "json" ∷ []) c.log_format), log_format)
    ∷ (
      not (
          one_of (codes "none" ∷ codes "anthropic" ∷ codes "openai-compatible" ∷ [])
            c.llm_provider),
      llm_provider,
    )
    ∷ (below_one c.server_max_upload_bytes, max_upload_bytes)
    ∷ (not (is_empty c.server_source_url) && not (is_http c.server_source_url), source_url)
    ∷ (ltb_ℤ c.server_retain_databases (pos 0), retain_databases)
    ∷ [])

unfoldable pub notify_checks : Config → Option Refusal
unfolding validate_notify
notify_checks c = if not (is_empty c.notify.webhook_url) then validate_notify c.notify else none

unfoldable pub tick_checks : Config → Option Refusal
tick_checks c = first_refusal (
    (
      c.schedule_enabled
          && (ltb_ℤ c.schedule_tick (pos 1000000000) || ltb_ℤ (pos 600000000000) c.schedule_tick),
      tick,
    )
    ∷ (below_one c.engine_max_result_rows, max_result_rows)
    ∷ [])

unfoldable pub name_checks : Config → Option Refusal
unfolding duplicate_names
name_checks c = elim (duplicate_names [] c.context_servers) [
  | none ↦ none
  | some n ↦ some (duplicate_server n)
]

unfoldable pub late_checks : Config → Option Refusal
unfolding is_http
late_checks c = first_refusal (
    (ltb_ℤ c.context_max_document_bytes (pos 0), max_document_bytes)
    ∷ (below_one c.llm_max_steps, max_steps)
    ∷ (not (is_empty c.otel_endpoint) && not (is_http c.otel_endpoint), endpoint)
    ∷ (not c.otel_ratio_in_range, sample_ratio)
    ∷ [])

unfoldable pub validate : Config → Option Refusal
unfolding early_checks notify_checks tick_checks check_servers name_checks late_checks
validate c = then_check (early_checks c) (
    then_check (notify_checks c) (
      then_check (tick_checks c) (
        then_check (check_servers 0 c.context_servers)
          (then_check (name_checks c) (late_checks c)))))
