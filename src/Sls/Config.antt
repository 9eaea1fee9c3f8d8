-- ===== src/Sls/Config.antt =====
-- crates/neon-log/src/sls/sink.rs: the constants, `SlsConfig` with its setters, `normalized`, and
-- the credentials. A duration is its number of nanoseconds. The credentials provider is the
-- caller's code: the configuration holds its answer to the k-th call.
pub mod Normal
use neon_rs.Base.{
  ℕ, ◌*◌, Bool, Option, none, some, List, [], ◌∷◌, min, max, if◌then◌else◌, is_empty,
}
use neon_rs.Base.Text.{Text}
use neon_rs.Base.Result.{Result}

abbrev pub millis : ℕ → ℕ
millis n = n * 1_000_000

abbrev pub secs : ℕ → ℕ
secs n = n * 1_000_000_000

abbrev pub default_max_batch_size : ℕ
default_max_batch_size = 4096

abbrev pub default_max_batch_bytes : ℕ
default_max_batch_bytes = 512 * 1024

abbrev pub min_batch_bytes : ℕ
min_batch_bytes = 1024

abbrev pub max_batch_bytes_limit : ℕ
max_batch_bytes_limit = 4 * 1024 * 1024

abbrev pub min_credentials_refresh_interval : ℕ
min_credentials_refresh_interval = secs 60

abbrev pub urgent_credentials_refresh_interval : ℕ
urgent_credentials_refresh_interval = secs 1

abbrev pub default_credentials_refresh_ahead : ℕ
default_credentials_refresh_ahead = secs (5 * 60)

abbrev pub default_no_retry_status : List ℕ
default_no_retry_status = 400 ∷ 404 ∷ []

abbrev pub min_duration : ℕ
min_duration = millis 1

pub data OverflowPolicy : Type 0 where
  drop_newest drop_oldest : OverflowPolicy

pub record SlsCredentials : Type 0 where
  pub access_key_id : Text
  pub access_key_secret : Text
  pub security_token : Text
  -- The instant of expiry, in nanoseconds since the epoch.
  pub expire_time : Option ℕ

pub record SlsConfig : Type 0 where
  pub endpoint : Text
  pub project : Text
  pub logstore : Text
  pub topic : Option Text
  pub source : Option Text
  pub max_batch_size : ℕ
  pub max_batch_bytes : ℕ
  pub flush_interval : ℕ
  pub queue_capacity : ℕ
  pub max_inflight : ℕ
  pub max_retries : ℕ
  pub retry_base : ℕ
  pub retry_max : ℕ
  pub no_retry_status : List ℕ
  pub request_timeout : ℕ
  pub shutdown_timeout : ℕ
  pub credentials_provider : ℕ → Result Text SlsCredentials
  pub credentials_refresh_interval : Option ℕ
  pub credentials_refresh_ahead : ℕ
  pub overflow_policy : OverflowPolicy

-- `SlsConfig::new`.
unfoldable pub new : Text → Text → Text → (ℕ → Result Text SlsCredentials) → SlsConfig
new endpoint project logstore provider = record {
  endpoint = endpoint;
  project = project;
  logstore = logstore;
  topic = none;
  source = none;
  max_batch_size = default_max_batch_size;
  max_batch_bytes = default_max_batch_bytes;
  flush_interval = secs 2;
  queue_capacity = 65_536;
  max_inflight = 4;
  max_retries = 5;
  retry_base = millis 200;
  retry_max = secs 10;
  no_retry_status = default_no_retry_status;
  request_timeout = secs 30;
  shutdown_timeout = secs 15;
  credentials_provider = provider;
  credentials_refresh_interval = none;
  credentials_refresh_ahead = default_credentials_refresh_ahead;
  overflow_policy = drop_newest;
}

-- The chained setters: one call of `set c s` for each method of the builder.
pub data Setter : Type 0 where
  topic source : Text → Setter
  max_batch_size max_batch_bytes flush_interval queue_capacity max_inflight : ℕ → Setter
  max_retries retry_base retry_max request_timeout shutdown_timeout : ℕ → Setter
  no_retry_status : List ℕ → Setter
  credentials_refresh_interval credentials_refresh_ahead : ℕ → Setter
  overflow_policy : OverflowPolicy → Setter

unfoldable pub set : SlsConfig → Setter → SlsConfig
set c (Setter.topic s) = record c { topic = some s }
set c (Setter.source s) = record c { source = some s }
set c (Setter.max_batch_size n) = record c { max_batch_size = n }
set c (Setter.max_batch_bytes n) = record c { max_batch_bytes = n }
set c (Setter.flush_interval d) = record c { flush_interval = d }
set c (Setter.queue_capacity n) = record c { queue_capacity = n }
set c (Setter.max_inflight n) = record c { max_inflight = n }
set c (Setter.max_retries n) = record c { max_retries = n }
set c (Setter.retry_base d) = record c { retry_base = d }
set c (Setter.retry_max d) = record c { retry_max = d }
set c (Setter.request_timeout d) = record c { request_timeout = d }
set c (Setter.shutdown_timeout d) = record c { shutdown_timeout = d }
set c (Setter.no_retry_status codes) = record c { no_retry_status = codes }
set c (Setter.credentials_refresh_interval d) = record c { credentials_refresh_interval = some d }
set c (Setter.credentials_refresh_ahead d) = record c { credentials_refresh_ahead = d }
set c (Setter.overflow_policy p) = record c { overflow_policy = p }

unfoldable pub set_all : SlsConfig → List Setter → SlsConfig
unfolding set
set_all c [] = c
set_all c (s ∷ ss) = set_all (set c s) ss

abbrev pub at_least_refresh : Option ℕ → Option ℕ
at_least_refresh none = none
at_least_refresh (some d) = some (max d min_credentials_refresh_interval)

-- `Option::filter(|s| !s.is_empty())`.
abbrev pub non_empty : Option Text → Option Text
non_empty none = none
non_empty (some s) = if is_empty s then none else some s

-- `usize::clamp`.
abbrev pub clamp : ℕ → ℕ → ℕ → ℕ
clamp n lo hi = min (max n lo) hi

unfoldable pub normalized : SlsConfig → SlsConfig
normalized c = record c {
  max_batch_size = max c.max_batch_size 1;
  queue_capacity = max c.queue_capacity 1;
  max_inflight = max c.max_inflight 1;
  flush_interval = max c.flush_interval min_duration;
  retry_base = max c.retry_base min_duration;
  retry_max = max c.retry_max (max c.retry_base min_duration);
  request_timeout = max c.request_timeout min_duration;
  shutdown_timeout = max c.shutdown_timeout min_duration;
  max_batch_bytes = clamp c.max_batch_bytes min_batch_bytes max_batch_bytes_limit;
  credentials_refresh_interval = at_least_refresh c.credentials_refresh_interval;
  topic = non_empty c.topic;
  source = non_empty c.source;
}
