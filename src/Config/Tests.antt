-- ===== src/Config/Tests.antt =====
-- The default settings with one context server: runs of the checks, and the theorems at them.
use veritix.Base.{◌≡◌, refl, true, false, none, [], ◌∷◌, codes, str_eq, has_prefix}
use veritix.Base.Int.{pos}
use veritix.Base.Find.{contains, index_of}
use veritix.Config.Settings.{Config, Notify, ContextServer, validate, server_fault}
use veritix.Config.Usable.{IsUsable, validate-IsUsable}
use veritix.Config.Address.{serve_refuses, serve_refuses-port_only}

abbrev no_webhook : Notify
no_webhook = record {
  webhook_url = [];
  on_event = [];
  min_severity = [];
  detail = [];
  base_url = [];
  timeout = pos 0;
}

abbrev notes : ContextServer
notes = record { name = codes "notes"; command = codes "serve-notes"; env = codes "A=1" ∷ [] }

abbrev settings : Config
settings = record {
  log_level = codes "info";
  log_format = codes "text";
  llm_provider = codes "none";
  llm_max_steps = pos 40;
  server_max_upload_bytes = pos 1;
  server_source_url = [];
  server_retain_databases = pos 0;
  notify = no_webhook;
  schedule_enabled = true;
  schedule_tick = pos 30000000000;
  engine_max_result_rows = pos 100;
  context_servers = notes ∷ [];
  context_max_document_bytes = pos 0;
  otel_endpoint = [];
  otel_ratio_in_range = true;
}

settings_pass : validate settings ≡ none
unfolding validate server_fault str_eq contains index_of has_prefix
settings_pass = refl

validate-IsUsable_example : IsUsable settings
validate-IsUsable_example = validate-IsUsable settings settings_pass

-- Every interface, and no token.
serve_refuses-port_only_example : serve_refuses (codes ":8080") [] ≡ false
serve_refuses-port_only_example = serve_refuses-port_only (codes "8080") [] refl
