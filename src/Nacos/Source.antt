-- ===== src/Nacos/Source.antt =====
-- crates/neon-config/src/nacos: `Env` of env.rs, `ConfigError` of error.rs, and `NacosSource` of
-- config.rs with its setters and `validate`. The reasons that messages give are constructors.
pub mod Valid
use neon_rs.Base.{
  ℕ, suc, ◌*◌, ◌≡◌, refl, Bool, true, false, not, Option, none, some, List, [], ◌∷◌, ◌&&◌, ◌||◌,
  ◌==◌, if◌then◌else◌, is_empty, any, length,
}
use neon_rs.Base.Assoc.{get, insert}
use neon_rs.Base.Eq.{contains}
use neon_rs.Base.Text.{Text, text, text_eq, trim, to_ascii_lowercase}
use neon_rs.Base.Result.{Result, ok, err, ◌>>=◌, ◌>>◌, ensure}
use neon_rs.Nacos.Format.{Format, or_else}

pub data Env : Type 0 where
  local : Env
  remote : Text → Env

unfoldable pub from_name : Text → Env
from_name name =
    let name' = trim name in
    if is_empty name' || text_eq.beq (to_ascii_lowercase name') (text "local")
    then local
    else remote name'

-- `std::env::var` is the caller's: the variable's value, or none.
unfoldable pub from_var : Option Text → Env
unfolding from_name
from_var none = local
from_var (some value) = from_name value

abbrev pub is_local : Env → Bool
is_local local = true
is_local (remote name) = false

unfoldable pub name : Env → Text
name local = text "local"
name (remote n) = n

pub data Reason : Type 0 where
  blank_data_id repeated_data_id blank_group no_address blank_server_addr zero_timeout : Reason
  mixed_auth incomplete_login lone_region_id incomplete_access_key nothing_to_merge : Reason

pub data Operation : Type 0 where
  build_service get_config add_listener : Operation

-- `X` is the error of the `config` crate, of the file system or of the nacos client.
pub data ConfigError (X : Type 0) : Type 0 where
  read_file : Text → X → ConfigError X
  unknown_format : Text → ConfigError X
  parse : X → ConfigError X
  missing_nacos_source : Text → ConfigError X
  missing_local_source : ConfigError X
  invalid_nacos_source : Reason → ConfigError X
  missing_data_id_entry : Text → ConfigError X
  nacos : X → ConfigError X
  nacos_startup_timeout : Operation → ℕ → ConfigError X

pub record NacosSource : Type 0 where
  pub server_addr : List Text
  pub namespace : Text
  pub group : Text
  pub data_id : List Text
  pub app_name : Option Text
  pub username : Option Text
  pub password : Option Text
  pub endpoint : Option Text
  pub region_id : Option Text
  pub access_key : Option Text
  pub secret_key : Option Text
  pub format : Option Format
  pub data_id_formats : List (Text × Format)
  pub load_cache_at_start : Option Bool
  pub grpc_port : Option ℕ
  -- In nanoseconds.
  pub startup_timeout : ℕ

abbrev pub default_group : Text
default_group = text "DEFAULT_GROUP"

abbrev pub default_startup_timeout : ℕ
default_startup_timeout = 30 * 1_000_000_000

unfoldable pub new : List Text → Text → NacosSource
new addresses space = record {
  server_addr = addresses;
  namespace = space;
  group = default_group;
  data_id = [];
  app_name = none;
  username = none;
  password = none;
  endpoint = none;
  region_id = none;
  access_key = none;
  secret_key = none;
  format = none;
  data_id_formats = [];
  load_cache_at_start = none;
  grpc_port = none;
  startup_timeout = default_startup_timeout;
}

unfoldable pub from_endpoint : Text → Text → NacosSource
unfolding new
from_endpoint point space = record (new [] space) { endpoint = some point }

-- The chained setters: one call of `set s c` for each method of the builder.
pub data Setter : Type 0 where
  group app_name region_id access_key secret_key : Text → Setter
  data_id : List Text → Setter
  auth : Text → Text → Setter
  format : Format → Setter
  format_for : Text → Format → Setter
  load_cache_at_start : Bool → Setter
  grpc_port startup_timeout : ℕ → Setter

unfoldable pub set : NacosSource → Setter → NacosSource
set s (Setter.group t) = record s { group = t }
set s (Setter.app_name t) = record s { app_name = some t }
set s (Setter.region_id t) = record s { region_id = some t }
set s (Setter.access_key t) = record s { access_key = some t }
set s (Setter.secret_key t) = record s { secret_key = some t }
set s (Setter.data_id ids) = record s { data_id = ids }
set s (Setter.auth user secret) = record s { username = some user; password = some secret }
set s (Setter.format f) = record s { format = some f }
set s (Setter.format_for id f) = record s { data_id_formats = insert id f s.data_id_formats }
set s (Setter.load_cache_at_start b) = record s { load_cache_at_start = some b }
set s (Setter.grpc_port p) = record s { grpc_port = some p }
set s (Setter.startup_timeout d) = record s { startup_timeout = d }

unfoldable pub explicit_format_for : NacosSource → Text → Option Format
explicit_format_for s id = or_else (get id s.data_id_formats) s.format

abbrev pub is_blank : Text → Bool
is_blank t = is_empty (trim t)

-- `as_deref().is_some_and(|v| !v.trim().is_empty())`.
abbrev pub is_given : Option Text → Bool
is_given none = false
is_given (some t) = not (is_blank t)

abbrev pub is_some : Option Text → Bool
is_some none = false
is_some (some t) = true

-- The size of the `HashSet` of these texts.
abbrev pub distinct_count : List Text → ℕ
distinct_count [] = 0
distinct_count (t ∷ ts) = let rest = distinct_count ts in if contains ts t then rest else suc rest

module _ {X : Type 0} where
  refuse : Reason → ConfigError X
  refuse r = invalid_nacos_source r

  validate_data_id_list : List Text → Result (ConfigError X) (Unit {0})
  unfolding refuse
  validate_data_id_list ids = do
    ensure (not (is_empty ids || any is_blank ids)) (refuse blank_data_id)
    ensure (distinct_count ids == length ids) (refuse repeated_data_id)

  validate_login :
      Option Text
      → Option Text
      → Result (ConfigError X) (Unit {0})
      → Result (ConfigError X) (Unit {0})
  unfolding refuse
  validate_login (some user) (some secret) rest =
      ensure (not (is_blank user) && not (is_blank secret)) (refuse incomplete_login)
  validate_login none none rest = rest
  validate_login _ _ rest = err (refuse incomplete_login)

  validate_keys : Bool → Bool → Bool → Result (ConfigError X) (Unit {0})
  unfolding refuse
  validate_keys access secret region = do
    ensure (not (region && not access && not secret)) (refuse lone_region_id)
    ensure (access && secret || not access && not secret) (refuse incomplete_access_key)

  validate_auth : NacosSource → Result (ConfigError X) (Unit {0})
  unfolding refuse validate_login validate_keys
  validate_auth s = do
    let access = is_given s.access_key
    let secret = is_given s.secret_key
    let region = is_given s.region_id
    let http = is_some s.username || is_some s.password
    ensure (not (http && (access || secret || region))) (refuse mixed_auth)
    validate_login s.username s.password (validate_keys access secret region)

  unfoldable pub validate : NacosSource → Result (ConfigError X) (Unit {0})
  unfolding refuse validate_data_id_list validate_auth
  validate s = do
    ensure (not (is_empty s.data_id)) (refuse blank_data_id)
    validate_data_id_list s.data_id
    ensure (not (is_blank s.group)) (refuse blank_group)
    let reachable = any (λ a. not (is_blank a)) s.server_addr
    ensure (is_given s.endpoint || reachable) (refuse no_address)
    ensure (not (any is_blank s.server_addr)) (refuse blank_server_addr)
    ensure (not (s.startup_timeout == 0)) (refuse zero_timeout)
    validate_auth s
