-- ===== src/Tests/ConfigRuns.antt =====
-- A configuration of a few lines that loads: an instance of the theorem of Config.
use xui_agent.Prelude.{arith, ◌≡◌, refl, true, false, some, [], ◌∷◌, ok}
use xui_agent.Config.{
  pos, unset_mode, https, Config, Platform, with_defaults, load, validate, validate_telemetry,
  validate_url, validate_xray, normalize_telemetry, telemetry_enabled,
}
use xui_agent.Config.Loading.{IsUsable, load-IsUsable}

abbrev platform : Platform
platform = record {
  parse_url = λ _.
      some (record {
        has_host = true;
        has_query_or_fragment = false;
        has_user = false;
        scheme = https;
      });
  is_abs = λ _. true;
  join = λ _ b. b;
  loads_location = λ _. true;
  is_loopback = λ _. true;
  default_state_directory = b'/' ∷ [];
  default_assets_path = b'/' ∷ [];
  default_access_name = b'a' ∷ [];
  default_spool_name = b's' ∷ [];
  default_route_listen = b'r' ∷ [];
  default_xray_api = b'x' ∷ [];
  local_timezone = b'L' ∷ [];
}

-- Telemetry is on, with every default.
abbrev short_config : Config
short_config = record {
  server_url = b'h' ∷ [];
  state_directory = [];
  allow_insecure = false;
  xray = record { mode = unset_mode; binary_path = []; config_path = []; pid_file = [] };
  runtime_assets_path = [];
  telemetry = record {
    enabled = some true;
    access_path = [];
    spool_path = [];
    route_listen = [];
    xray_api_address = [];
    log_timezone = [];
    poll_interval = pos 0;
    sample_interval = pos 60;
    heartbeat_interval = pos 0;
    queue_max_bytes = 0;
    queue_max_events = 500;
  };
}

loads : load platform (some short_config) ≡ ok (with_defaults platform short_config)
unfolding load validate validate_telemetry validate_url validate_xray normalize_telemetry
    telemetry_enabled with_defaults
loads = refl

load-IsUsable_example : IsUsable platform 7 (with_defaults platform short_config)
load-IsUsable_example =
    load-IsUsable platform (some short_config) (with_defaults platform short_config) 7 (omega arith)
      loads
