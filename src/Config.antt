-- ===== src/Config.antt =====
-- The agent's configuration, internal/config/config.go: its defaults and its checks.
pub mod Loading
use xui_agent.Prelude.{
  ℕ, ◌*◌, ◌^◌, Bool, true, false, ◌&&◌, ◌||◌, not, Option, none, some, [], ◌∷◌, length, leb, ltb,
  ◌==◌, if◌then◌else◌, Outcome, ok, err,
}
use xui_agent.Spool.Bytes.{Bytes}

-- A Go int.
pub data ℤ : Type 0 where
  pos negsuc : ℕ → ℤ

pub data Mode : Type 0 where
  unset_mode observe_mode managed_mode other_mode : Mode

pub data ConfigError : Type 0 where
  undecodable bad_server_url url_query url_credentials plain_http bad_scheme : ConfigError
  relative_state bad_mode relative_path managed_without_binary managed_with_paths : ConfigError
  relative_assets relative_telemetry bad_timezone bad_loopback bad_poll bad_sample : ConfigError
  bad_heartbeat bad_queue_bytes bad_queue_events : ConfigError

pub record XrayConfig : Type 0 where
  pub mode : Mode
  pub binary_path : Bytes
  pub config_path : Bytes
  pub pid_file : Bytes

pub record TelemetryConfig : Type 0 where
  pub enabled : Option Bool
  pub access_path : Bytes
  pub spool_path : Bytes
  pub route_listen : Bytes
  pub xray_api_address : Bytes
  pub log_timezone : Bytes
  pub poll_interval : ℤ
  pub sample_interval : ℤ
  pub heartbeat_interval : ℤ
  pub queue_max_bytes : ℕ
  pub queue_max_events : ℕ

pub record Config : Type 0 where
  pub server_url : Bytes
  pub state_directory : Bytes
  pub allow_insecure : Bool
  pub xray : XrayConfig
  pub runtime_assets_path : Bytes
  pub telemetry : TelemetryConfig

pub data Scheme : Type 0 where
  https http other_scheme : Scheme

pub record ServerUrl : Type 0 where
  pub has_host : Bool
  pub has_query_or_fragment : Bool
  pub has_user : Bool
  pub scheme : Scheme

-- What the packages url, filepath, time and net say; the constants are those of the file that are text.
pub record Platform : Type 0 where
  pub parse_url : Bytes → Option ServerUrl
  pub is_abs : Bytes → Bool
  pub join : Bytes → Bytes → Bytes
  pub loads_location : Bytes → Bool
  -- A host and a port, of which the host is a loopback address.
  pub is_loopback : Bytes → Bool
  pub default_state_directory : Bytes
  pub default_assets_path : Bytes
  pub default_access_name : Bytes
  pub default_spool_name : Bytes
  pub default_route_listen : Bytes
  pub default_xray_api : Bytes
  pub local_timezone : Bytes

abbrev pub or_default : Bytes → Bytes → Bytes
or_default value default = if length value == 0 then default else value

abbrev pub or_seconds : ℤ → ℕ → ℤ
or_seconds (pos n) default = if n == 0 then pos default else pos n
or_seconds (negsuc n) default = negsuc n

abbrev pub or_number : ℕ → ℕ → ℕ
or_number n default = if n == 0 then default else n

abbrev pub between : ℕ → ℕ → ℤ → Bool
between low high (pos n) = leb low n && leb n high
between low high (negsuc n) = false

abbrev is_managed : Mode → Bool
is_managed managed_mode = true
is_managed unset_mode = false
is_managed observe_mode = false
is_managed other_mode = false

abbrev is_known : Mode → Bool
is_known other_mode = false
is_known managed_mode = true
is_known unset_mode = true
is_known observe_mode = true

-- TelemetryEnabled
unfoldable pub telemetry_enabled : Config → Bool
telemetry_enabled c = elim c.telemetry.enabled [ some b ↦ b | none ↦ is_managed c.xray.mode ]

module _ (platform : Platform) where
  open platform use {
    parse_url, is_abs, join, loads_location, is_loopback, default_state_directory,
    default_assets_path, default_access_name, default_spool_name, default_route_listen,
    default_xray_api, local_timezone,
  }

  -- normalizeTelemetry
  unfoldable pub normalize_telemetry : Bytes → TelemetryConfig → TelemetryConfig
  normalize_telemetry directory t = record {
    enabled = t.enabled;
    access_path = or_default t.access_path (join directory default_access_name);
    spool_path = or_default t.spool_path (join directory default_spool_name);
    route_listen = or_default t.route_listen default_route_listen;
    xray_api_address = or_default t.xray_api_address default_xray_api;
    log_timezone = or_default t.log_timezone local_timezone;
    poll_interval = or_seconds t.poll_interval 1;
    sample_interval = or_seconds t.sample_interval 300;
    heartbeat_interval = or_seconds t.heartbeat_interval 300;
    queue_max_bytes = or_number t.queue_max_bytes (256 * 2 ^ 20);
    queue_max_events = or_number t.queue_max_events 100000;
  }

  -- The checks of enabled telemetry, once it is normalised.
  unfoldable pub validate_telemetry : TelemetryConfig → Outcome ConfigError (Unit {0})
  validate_telemetry t =
      if not (is_abs t.access_path) || not (is_abs t.spool_path)
      then err relative_telemetry
      else if not (loads_location t.log_timezone)
      then err bad_timezone
      else if not (is_loopback t.route_listen) || not (is_loopback t.xray_api_address)
      then err bad_loopback
      else if not (between 1 60 t.poll_interval)
      then err bad_poll
      else if not (between 30 3600 t.sample_interval)
      then err bad_sample
      else if not (between 30 3600 t.heartbeat_interval)
      then err bad_heartbeat
      else if ltb t.queue_max_bytes (2 ^ 20) || ltb (4 * 2 ^ 30) t.queue_max_bytes
      then err bad_queue_bytes
      else if ltb t.queue_max_events 100 || ltb 10000000 t.queue_max_events
      then err bad_queue_events
      else ok tt

  abbrev scheme_allowed : Scheme → Bool → Outcome ConfigError (Unit {0})
  scheme_allowed https insecure = ok tt
  scheme_allowed http insecure = if insecure then ok tt else err plain_http
  scheme_allowed other_scheme insecure = err bad_scheme

  unfoldable pub validate_url : Option ServerUrl → Bool → Outcome ConfigError (Unit {0})
  validate_url none insecure = err bad_server_url
  validate_url (some u) insecure =
      if not u.has_host
      then err bad_server_url
      else if u.has_query_or_fragment
      then err url_query
      else if u.has_user
      then err url_credentials
      else scheme_allowed u.scheme insecure

  abbrev absolute_or_empty : Bytes → Bool
  absolute_or_empty path = length path == 0 || is_abs path

  unfoldable pub validate_xray : XrayConfig → Outcome ConfigError (Unit {0})
  validate_xray x =
      if not (is_known x.mode)
      then err bad_mode
      else if not (
          absolute_or_empty x.binary_path
          && absolute_or_empty x.config_path
          && absolute_or_empty x.pid_file)
      then err relative_path
      else if is_managed x.mode && length x.binary_path == 0
      then err managed_without_binary
      else if is_managed x.mode && not (length x.config_path == 0 && length x.pid_file == 0)
      then err managed_with_paths
      else ok tt

  abbrev pub and_then :
      Outcome ConfigError (Unit {0})
      → Outcome ConfigError (Unit {0})
      → Outcome ConfigError (Unit {0})
  and_then (ok _) next = next
  and_then (err e) next = err e

  -- `Validate`; the order of the checks of three paths, which a map gives, makes no difference to
  -- whether there is an error.
  unfoldable pub validate : Config → Outcome ConfigError (Unit {0})
  unfolding normalize_telemetry validate_telemetry validate_url validate_xray telemetry_enabled
  validate c = and_then (validate_url (parse_url c.server_url) c.allow_insecure) (
      if not (is_abs c.state_directory)
      then err relative_state
      else and_then (validate_xray c.xray) (
          if not (absolute_or_empty c.runtime_assets_path)
          then err relative_assets
          else if telemetry_enabled c
          then validate_telemetry (normalize_telemetry c.state_directory c.telemetry)
          else ok tt))

  abbrev default_mode : Mode → Mode
  default_mode unset_mode = observe_mode
  default_mode observe_mode = observe_mode
  default_mode managed_mode = managed_mode
  default_mode other_mode = other_mode

  -- The defaults that `Load` fills in.
  unfoldable pub with_defaults : Config → Config
  with_defaults c =
      let directory = or_default c.state_directory default_state_directory in
      record {
        server_url = c.server_url;
        state_directory = directory;
        allow_insecure = c.allow_insecure;
        xray = record c.xray { mode = default_mode c.xray.mode };
        runtime_assets_path = or_default c.runtime_assets_path default_assets_path;
        telemetry = normalize_telemetry directory c.telemetry;
      }

  abbrev pub checked : Config → Outcome ConfigError (Unit {0}) → Outcome ConfigError Config
  checked c (ok _) = ok c
  checked c (err e) = err e

  -- `Load`, behind the strict decoder.
  unfoldable pub load : Option Config → Outcome ConfigError Config
  unfolding with_defaults validate
  load none = err undecodable
  load (some c) = checked (with_defaults c) (validate (with_defaults c))
