-- ===== src/Domain/Settings.antt =====
-- `GlobalSettings`, `NodeSettings` and their checks (domain.rs). Time zones are parsed by chrono_tz
-- and URLs by the url crate: both are parameters.
use task_scheduler.Prelude.{
  ℕ, ◌*◌, ◌^◌, ◌-◌, ◌≤◌, min, String, ◌≡◌, Bool, true, not, ◌&&◌, ◌||◌, Option, none, some, List,
  [], arith, ltb, ◌==◌, str_eq, Result, ok, ◌>>=◌, ◌>>◌, guard, or_fail,
}

pub record GlobalSettings : Type 0 where
  pub revision : ℕ
  pub default_timezone : String
  pub default_max_attempts : ℕ
  pub default_timeout_seconds : ℕ
  pub lease_seconds : ℕ
  pub heartbeat_seconds : ℕ
  pub audit_retention_days : ℕ
  pub otlp_endpoint : Option String

-- GlobalSettings::default
abbrev pub default_global_settings : GlobalSettings
default_global_settings = record {
  revision = 1;
  default_timezone = "UTC";
  default_max_attempts = 3;
  default_timeout_seconds = 3600;
  lease_seconds = 60;
  heartbeat_seconds = 10;
  audit_retention_days = 90;
  otlp_endpoint = none;
}

pub record NodeSettings : Type 0 where
  pub revision : ℕ
  pub enabled : Bool
  pub labels : List (String × String)
  pub max_parallel : ℕ
  pub excel_max_parallel : ℕ
  pub allowed_command_roots : List String
  pub allowed_workbook_roots : List String
  pub otlp_endpoint : Option String

-- NodeSettings::default
abbrev pub default_node_settings : NodeSettings
default_node_settings = record {
  revision = 1;
  enabled = true;
  labels = [];
  max_parallel = 2;
  excel_max_parallel = 1;
  allowed_command_roots = [];
  allowed_workbook_roots = [];
  otlp_endpoint = none;
}

-- The parts of a parsed URL that the check reads.
pub record Url : Type 0 where
  pub scheme : String
  pub has_host : Bool

pub data SettingsError : Type 0 where
  bad_timezone no_attempts no_timeout short_heartbeat short_lease no_retention : SettingsError
  bad_endpoint relative_endpoint : SettingsError

abbrev pub u64_max : ℕ
u64_max = 2 ^ 64 - 1

-- u64::saturating_mul
abbrev pub saturating_mul : ℕ → ℕ → ℕ
saturating_mul a b = min (a * b) u64_max

module _ (parse_timezone : String → Bool) (parse_url : String → Option Url) where
  validate_endpoint : Option String → Result SettingsError (Unit {0})
  validate_endpoint none = ok tt
  validate_endpoint (some endpoint) = do
    url ← or_fail (parse_url endpoint) bad_endpoint
    guard ((str_eq url.scheme "http" || str_eq url.scheme "https") && url.has_host)
        relative_endpoint

  -- GlobalSettings::validate
  unfoldable pub validate : GlobalSettings → Result SettingsError (Unit {0})
  unfolding validate_endpoint
  validate s = do
    guard (parse_timezone s.default_timezone) bad_timezone
    guard (not (s.default_max_attempts == 0)) no_attempts
    guard (not (s.default_timeout_seconds == 0)) no_timeout
    guard (not (ltb s.heartbeat_seconds 5)) short_heartbeat
    guard (not (ltb s.lease_seconds (saturating_mul s.heartbeat_seconds 3))) short_lease
    guard (not (s.audit_retention_days == 0)) no_retention
    validate_endpoint s.otlp_endpoint

  -- Settings that pass the check leave room for two lost heartbeats: the lease is at least three
  -- heartbeats and at least fifteen seconds, and there is an attempt and a retention day.
  -- The lease is taken below the greatest `u64`, where the product saturates.
  pub validate_lease :
      (s : GlobalSettings)
      → s.lease_seconds ≤ u64_max - 1
      → validate s ≡ ok tt
      → (s.heartbeat_seconds * 3 ≤ s.lease_seconds)
        × (15 ≤ s.lease_seconds)
        × (1 ≤ s.default_max_attempts)
        × (1 ≤ s.audit_retention_days)
  unfolding validate
  validate_lease s b h = ground arith
