-- ===== src/Config/Loading.antt =====
-- What a configuration that loads is good for.
use xui_agent.Prelude.{
  ℕ, ◌*◌, ◌^◌, ◌≤◌, ◌<◌, ◌≡◌, ◌⊎◌, refl, subst, arith, Bool, true, false, not, ◌||◌, ◌==◌, Option,
  none, some, length, inl, inr, if◌then◌else◌, Outcome, ok, err, Bool-cases,
}
use xui_agent.Spool.Bytes.{Bytes}
use xui_agent.Spool.Store.{Limits}
use xui_agent.Spool.Records.{open_limits}
use xui_agent.Spool.Invariant.{FitsWord}
use xui_agent.Config.{
  ℤ, pos, negsuc, TelemetryConfig, Config, ConfigError, Platform, or_default, or_seconds, or_number,
  between, telemetry_enabled, normalize_telemetry, validate_telemetry, validate, validate_url,
  validate_xray, relative_assets, relative_state, with_defaults, load, and_then, checked,
}

or_default-or_default : (v d : Bytes) → or_default (or_default v d) d ≡ or_default v d
or_default-or_default v d = ground arith

or_seconds-or_seconds : (z : ℤ) (d : ℕ) → or_seconds (or_seconds z d) d ≡ or_seconds z d
or_seconds-or_seconds (pos n) d = elim (Bool-cases (n == 0)) [
  | inl e ↦ rw e (ground arith)
  | inr ne ↦ rw (ne, ne) refl
]
or_seconds-or_seconds (negsuc n) d = refl

or_number-or_number : (n d : ℕ) → or_number (or_number n d) d ≡ or_number n d
or_number-or_number n d = ground arith

-- The limits that the queue is opened with.
abbrev pub queue_limits : ℕ → TelemetryConfig → Limits
queue_limits node t = record {
  node_id = node;
  max_bytes = t.queue_max_bytes;
  max_events = t.queue_max_events;
}

-- Telemetry that can run on a node: its intervals are in their ranges, and the queue opens with its
-- limits, of which the bytes and those of a further event fit 64 bits.
pub record Runs (platform : Platform) (node : ℕ) (t : TelemetryConfig) : Type 0 where
  pub poll : between 1 60 t.poll_interval ≡ true
  pub sample : between 30 3600 t.sample_interval ≡ true
  pub heartbeat : between 30 3600 t.heartbeat_interval ≡ true
  pub opens :
      open_limits node (platform.is_abs t.spool_path) t.queue_max_bytes t.queue_max_events
      ≡ ok (queue_limits node t)
  pub fits : FitsWord (queue_limits node t)
  pub events : (100 ≤ t.queue_max_events) × (t.queue_max_events ≤ 10000000)

-- A configuration that passes its own checks again, has nothing left to fill in, and whose telemetry is
-- off or can run.
pub record IsUsable (platform : Platform) (node : ℕ) (c : Config) : Type 0 where
  pub accepted : validate platform c ≡ ok tt
  pub normal : normalize_telemetry platform c.state_directory c.telemetry ≡ c.telemetry
  pub telemetry : (telemetry_enabled c ≡ false) ⊎ Runs platform node c.telemetry

-- Where a chain of checks succeeds, so does what follows each of them.
module _ (platform : Platform) where
  and_then-ok :
      (r next : Outcome ConfigError (Unit {0})) → and_then platform r next ≡ ok tt → next ≡ ok tt
  and_then-ok (ok u) next h = h
  and_then-ok (err e) next h = absurd (ground (arith, h))

passed-ok :
    (b : Bool) (e : ConfigError) (next : Outcome ConfigError (Unit {0}))
    → (if b then err e else next) ≡ ok tt
    → next ≡ ok tt
passed-ok true e next h = absurd (ground (arith, h))
passed-ok false e next h = h

taken-ok :
    (b : Bool) (x y : Outcome ConfigError (Unit {0}))
    → b ≡ true
    → (if b then x else y) ≡ ok tt
    → x ≡ ok tt
taken-ok true x y e h = h
taken-ok false x y e h = absurd (ground (arith, e))

module _ (platform : Platform) where
  pub normalize_telemetry-idempotent :
      (directory : Bytes) (t : TelemetryConfig)
      → normalize_telemetry platform directory (normalize_telemetry platform directory t)
        ≡ normalize_telemetry platform directory t
  unfolding normalize_telemetry
  normalize_telemetry-idempotent directory t =
      rw
        (
          or_default-or_default t.access_path
              (platform.join directory platform.default_access_name),
          or_default-or_default t.spool_path (platform.join directory platform.default_spool_name),
          or_default-or_default t.route_listen platform.default_route_listen,
          or_default-or_default t.xray_api_address platform.default_xray_api,
          or_default-or_default t.log_timezone platform.local_timezone,
          or_seconds-or_seconds t.poll_interval 1,
          or_seconds-or_seconds t.sample_interval 300,
          or_seconds-or_seconds t.heartbeat_interval 300,
          or_number-or_number t.queue_max_bytes (256 * 2 ^ 20),
          or_number-or_number t.queue_max_events 100000,
        )
        refl

  -- The checks that are left, from behind.
  abbrev telemetry_checks : Config → Outcome ConfigError (Unit {0})
  telemetry_checks c =
      validate_telemetry platform (normalize_telemetry platform c.state_directory c.telemetry)

  abbrev enabled_checks : Config → Outcome ConfigError (Unit {0})
  enabled_checks c = if telemetry_enabled c then telemetry_checks c else ok tt

  abbrev asset_checks : Config → Outcome ConfigError (Unit {0})
  asset_checks c =
      if not (length c.runtime_assets_path == 0 || platform.is_abs c.runtime_assets_path)
      then err relative_assets
      else enabled_checks c

  abbrev xray_checks : Config → Outcome ConfigError (Unit {0})
  xray_checks c = and_then platform (validate_xray platform c.xray) (asset_checks c)

  abbrev state_checks : Config → Outcome ConfigError (Unit {0})
  state_checks c =
      if not (platform.is_abs c.state_directory) then err relative_state else xray_checks c

  module _ (node : ℕ) (positive : 0 < node) where
    validate_telemetry-Runs :
        (t : TelemetryConfig) → validate_telemetry platform t ≡ ok tt → Runs platform node t
    unfolding validate_telemetry open_limits
    validate_telemetry-Runs t h = record {
      poll = ground (arith, h);
      sample = ground (arith, h);
      heartbeat = ground (arith, h);
      opens = ground (arith, h, positive);
      fits = ground (arith, h);
      events = (ground (arith, h), ground (arith, h));
    }

    validated :
        (c : Config)
        → validate platform c ≡ ok tt
        → normalize_telemetry platform c.state_directory c.telemetry ≡ c.telemetry
        → (telemetry_enabled c ≡ false) ⊎ Runs platform node c.telemetry
    unfolding validate
    validated c h normal = elim (Bool-cases (telemetry_enabled c)) [
      | inr off ↦ inl off
      | inl on ↦ inr (validate_telemetry-Runs c.telemetry (rw (← normal) (last c h on)))
    ]
      where
        last :
            (c : Config)
            → validate platform c ≡ ok tt
            → telemetry_enabled c ≡ true
            → validate_telemetry platform
                (normalize_telemetry platform c.state_directory c.telemetry)
              ≡ ok tt
        last c h on = taken-ok (telemetry_enabled c) (telemetry_checks c) (ok tt) on (
            passed-ok _ relative_assets (enabled_checks c) (
              and_then-ok platform (validate_xray platform c.xray) (asset_checks c) (
                passed-ok _ relative_state (xray_checks c) (
                  and_then-ok platform
                    (validate_url (platform) (platform.parse_url c.server_url) c.allow_insecure)
                    (state_checks c) h))))

    usable :
        (c : Config) (r : Outcome ConfigError (Unit {0})) (d : Config)
        → validate platform c ≡ r
        → normalize_telemetry platform c.state_directory c.telemetry ≡ c.telemetry
        → checked platform c r ≡ ok d
        → IsUsable platform node d
    usable c (err e) d h normal k = absurd (ground (arith, k))
    usable c (ok u) d h normal k =
        let same : c ≡ d = (ground (arith, k)) in
        subst (IsUsable platform node) same
          (record { accepted = h; normal = normal; telemetry = validated c h normal })

-- A configuration that `Load` returns, for an agent whose node has a positive number, passes `Validate`
-- again, as `Write` asks it to; normalising its telemetry changes nothing; and unless telemetry is off
-- its intervals are in their ranges and the event queue opens with exactly its limits, which fit 64 bits
-- with a further event.
pub load-IsUsable :
    (platform : Platform) (raw : Option Config) (c : Config) (node : ℕ)
    → 0 < node
    → load platform raw ≡ ok c
    → IsUsable platform node c
unfolding load with_defaults
load-IsUsable platform none c node positive h = absurd (ground (arith, h))
load-IsUsable platform (some raw) c node positive h =
    usable platform node positive (with_defaults platform raw)
      (validate platform (with_defaults platform raw)) c refl
      (normalize_telemetry-idempotent platform _ raw.telemetry) h
