-- ===== src/Nacos/Build.antt =====
-- crates/neon-config/src/nacos/config.rs: `ConfigBuilder`, `build_local`, `build_remote` and
-- `NacosConfig` with `shutdown`. What the nacos client, the file system and the clock answer is a
-- `World`. A backend is what outlives a build: the registered listeners, by data id, and the number
-- of reload workers that run.
pub mod Outcome
pub mod Serving
pub mod Shutdown
use neon_rs.Base.{
  ℕ, zero, suc, ◌+◌, ◌-◌, ◌≡◌, Bool, true, false, Option, none, some, List, [], ◌∷◌, ◌++◌,
  if◌then◌else◌,
}
use neon_rs.Base.Assoc.{get, insert}
use neon_rs.Base.Text.{Text, text_eq}
use neon_rs.Base.Result.{Result, ok, err, ◌>>=◌, ok_or}
use neon_rs.Nacos.Format.{Format, or_else, from_path, resolve_format_for_entry}
use neon_rs.Nacos.Source.{
  Env, is_local, name, NacosSource, validate, explicit_format_for, ConfigError, read_file,
  unknown_format, missing_nacos_source, missing_local_source, nacos, nacos_startup_timeout,
  Operation, build_service, get_config, add_listener,
}
use neon_rs.Nacos.Client.{ClientBuilder, client}
use neon_rs.Nacos.Reload.{
  ConfigEntry, Entries, ConfigResponse, Settings, Shared, Watch, parsed, merge_configs, new_shared,
}

pub data LocalSource : Type 0 where
  -- A path, and the format if it is given.
  file : Text → Option Format → LocalSource
  inline : Text → Format → LocalSource

pub record ConfigBuilder : Type 0 where
  pub local : Option LocalSource
  pub nacos : Option NacosSource

abbrev pub new_builder : ConfigBuilder
new_builder = record { local = none; nacos = none }

abbrev pub local_file : ConfigBuilder → Text → ConfigBuilder
local_file c path = record c { local = some (file path none) }

abbrev pub local_file_with_format : ConfigBuilder → Text → Format → ConfigBuilder
local_file_with_format c path format = record c { local = some (file path (some format)) }

abbrev pub local_inline : ConfigBuilder → Text → Format → ConfigBuilder
local_inline c content format = record c { local = some (inline content format) }

abbrev pub with_nacos : ConfigBuilder → NacosSource → ConfigBuilder
with_nacos c s = record c { nacos = some s }

pub data Answer (X A : Type 0) : Type 0 where
  answered : A → Answer X A
  failed : X → Answer X A
  timed_out : Answer X A

pub record World (X : Type 0) : Type 0 where
  pub read_to_string : Text → Result X Text
  pub built : ClientBuilder → Answer X (Unit {0})
  pub got : Text → Answer X ConfigResponse
  pub added : Text → Answer X (Unit {0})
  -- Whether a call of `add_listener` that is not answered takes effect all the same.
  pub added_anyway : Text → Bool
  -- The error of a call of `remove_listener`, if it fails.
  pub removed : Text → Option X

pub record Backend : Type 0 where
  pub listeners : List Text
  pub workers : ℕ

pub record RemoteHandle : Type 0 where
  pub group : Text
  pub data_ids : List Text

pub record NacosConfig (Config : Type 0) : Type 0 where
  -- `tx`, `data_id_txs`, and what the listener shares with its worker.
  pub shared : Shared Config
  pub settings : Settings
  pub data_id_order : List Text
  pub env : Env
  pub remote : Option RemoteHandle

without : Text → List Text → List Text
without id [] = []
without id (x ∷ xs) = let rest = without id xs in if text_eq.beq x id then rest else x ∷ rest

abbrev pub abort_reload_worker : Backend → Backend
abort_reload_worker b = record b { workers = b.workers - 1 }

abbrev pub listen : Backend → Text → Backend
listen b id = record b { listeners = b.listeners ++ id ∷ [] }

module _ {X : Type 0} where
  unfoldable pub with_startup_timeout :
      {A : Type 0} → ℕ → Operation → Answer X A → Result (ConfigError X) A
  with_startup_timeout timeout operation (answered a) = ok a
  with_startup_timeout timeout operation (failed x) = err (nacos x)
  with_startup_timeout timeout operation timed_out = err (nacos_startup_timeout operation timeout)

  unfoldable pub resolve_format :
      NacosSource → Text → ConfigResponse → Result (ConfigError X) Format
  resolve_format s id r =
      ok_or (resolve_format_for_entry (explicit_format_for s id) id (some r.content_type))
        (unknown_format id)

  -- The loop of `get_config`.
  unfoldable pub fetch :
      NacosSource → World X → List Text → Entries → Result (ConfigError X) Entries
  unfolding with_startup_timeout resolve_format
  fetch s w [] entries = ok entries
  fetch s w (id ∷ ids) entries =
      with_startup_timeout s.startup_timeout get_config (w.got id) >>= λ r.
      resolve_format s id r >>= λ f.
      fetch s w ids (insert id (record { content = r.content; format = f }) entries)

  remove_one : Backend → Text → Option X → Backend
  unfolding without
  remove_one b id none = record b { listeners = without id b.listeners }
  remove_one b id (some x) = b

  unfoldable pub cleanup_registered_listeners : World X → List Text → Backend → Backend
  unfolding remove_one
  cleanup_registered_listeners w [] b = b
  cleanup_registered_listeners w (id ∷ ids) b =
      cleanup_registered_listeners w ids (remove_one b id (w.removed id))

  -- After a call of `add_listener`: the rest of the loop, or the way back.
  after_add :
      World X
      → List Text
      → Text
      → Backend
      → Result (ConfigError X) (Unit {0})
      → Backend × Result (ConfigError X) (Unit {0})
      → Backend × Result (ConfigError X) (Unit {0})
  unfolding cleanup_registered_listeners
  after_add w registered id b (ok _) rest = rest
  after_add w registered id b (err e) rest =
      let b' = if w.added_anyway id then listen b id else b in
      (abort_reload_worker (cleanup_registered_listeners w registered b'), err e)

  -- The loop of `add_listener`, with the data ids registered so far.
  pub register :
      NacosSource
      → World X
      → List Text
      → List Text
      → Backend
      → Backend × Result (ConfigError X) (Unit {0})
  unfolding after_add with_startup_timeout
  register s w registered [] b = (b, ok tt)
  register s w registered (id ∷ ids) b =
      after_add w registered id b (with_startup_timeout s.startup_timeout add_listener (w.added id))
        (register s w (registered ++ id ∷ []) ids (listen b id))

module _ {Config X : Type 0} (build : List ConfigEntry → Result X Config) where
  unfoldable pub parse_content : Text → Format → Result (ConfigError X) Config
  unfolding parsed
  parse_content content format = parsed (build (record { content = content; format = format } ∷ []))

  read_or : Text → Result X Text → Result (ConfigError X) Text
  read_or path (ok content) = ok content
  read_or path (err x) = err (read_file path x)

  unfoldable pub parse_file : World X → Text → Option Format → Result (ConfigError X) Config
  unfolding read_or parse_content
  parse_file w path format = read_or path (w.read_to_string path) >>= λ content.
      ok_or (or_else format (from_path path)) (unknown_format path) >>= λ f. parse_content content f

  parse_source : World X → LocalSource → Result (ConfigError X) Config
  unfolding parse_file
  parse_source w (inline content format) = parse_content content format
  parse_source w (file path format) = parse_file w path format

  unfoldable pub build_local :
      ConfigBuilder → World X → Env → Result (ConfigError X) (NacosConfig Config)
  unfolding parse_source
  build_local c w env = ok_or c.local missing_local_source >>= parse_source w >>= λ config.
      ok (record {
        shared = new_shared [] [] config;
        settings = record { default_format = none; data_id_formats = []; data_id_order = [] };
        data_id_order = [];
        env = env;
        remote = none;
      })

  abbrev pub settings_of : NacosSource → Settings
  settings_of s = record {
    default_format = s.format;
    data_id_formats = s.data_id_formats;
    data_id_order = s.data_id;
  }

  -- `build_remote` up to the first configuration: the entries, and their merge.
  unfoldable pub load : NacosSource → World X → Result (ConfigError X) (Entries × Config)
  load s w = do
    _ ← validate s
    _ ← with_startup_timeout s.startup_timeout build_service (w.built (client s))
    entries ← fetch s w s.data_id []
    config ← merge_configs build s.data_id entries
    ok (entries, config)

  abbrev pub config_of : NacosSource → Env → Entries → Config → NacosConfig Config
  config_of s env entries config = record {
    shared = new_shared s.data_id entries config;
    settings = settings_of s;
    data_id_order = s.data_id;
    env = env;
    remote = some (record { group = s.group; data_ids = s.data_id });
  }

  -- The rest: the worker is spawned, and the listener is registered for each data id.
  serve :
      NacosSource
      → World X
      → Env
      → Backend
      → Result (ConfigError X) (Entries × Config)
      → Backend × Result (ConfigError X) (NacosConfig Config)
  unfolding register
  serve s w env b (err e) = (b, err e)
  serve s w env b (ok (entries, config)) =
      let (b', outcome) = register s w [] s.data_id (record b { workers = suc b.workers }) in
      (b', outcome >>= λ _. ok (config_of s env entries config))

  remote_from :
      Option NacosSource
      → World X
      → Env
      → Backend
      → Backend × Result (ConfigError X) (NacosConfig Config)
  unfolding serve load
  remote_from none w env b = (b, err (missing_nacos_source (name env)))
  remote_from (some s) w env b = serve s w env b (load s w)

  unfoldable pub build_remote :
      ConfigBuilder
      → World X
      → Env
      → Backend
      → Backend × Result (ConfigError X) (NacosConfig Config)
  unfolding remote_from
  build_remote c w env b = remote_from c.nacos w env b

  unfoldable pub build_config :
      ConfigBuilder
      → World X
      → Env
      → Backend
      → Backend × Result (ConfigError X) (NacosConfig Config)
  unfolding build_local build_remote
  build_config c w env b = if is_local env then (b, build_local c w env) else build_remote c w env b

module _ {X : Type 0} where
  -- The loop of `shutdown`, with the first error so far.
  pub remove_all : World X → List Text → Backend → Option X → Backend × Option X
  unfolding remove_one
  remove_all w [] b first = (b, first)
  remove_all w (id ∷ ids) b first =
      remove_all w ids (remove_one b id (w.removed id))
        (elim first [ some x ↦ some x | none ↦ w.removed id ])

  outcome_of : Option X → Result (ConfigError X) (Unit {0})
  outcome_of none = ok tt
  outcome_of (some x) = err (nacos x)

module _ {Config X : Type 0} where
  shut_remote :
      World X
      → NacosConfig Config
      → Backend
      → Option RemoteHandle
      → Backend × NacosConfig Config × Result (ConfigError X) (Unit {0})
  unfolding remove_all outcome_of
  shut_remote w n b none = (b, n, ok tt)
  shut_remote w n b (some handle) =
      let (b', first) = remove_all w handle.data_ids b none in
      (abort_reload_worker b', record n { remote = none }, outcome_of first)

  unfoldable pub shutdown :
      World X
      → NacosConfig Config
      → Backend
      → Backend × NacosConfig Config × Result (ConfigError X) (Unit {0})
  unfolding shut_remote
  shutdown w n b = shut_remote w n b n.remote

module _ {Config : Type 0} where
  abbrev pub get_config_snapshot : NacosConfig Config → Config
  get_config_snapshot n = n.shared.tx.value

  abbrev pub subscribe_data_id : NacosConfig Config → Text → Option (Watch Config)
  subscribe_data_id n id = get id n.shared.data_id_txs

  abbrev pub is_remote_active : NacosConfig Config → Bool
  is_remote_active n = elim n.remote [ none ↦ false | some _ ↦ true ]

  -- `RemoteHandle` is dropped without a shutdown: its worker is aborted.
  abbrev pub drop_config : NacosConfig Config → Backend → Backend
  drop_config n b = elim n.remote [ none ↦ b | some _ ↦ abort_reload_worker b ]
