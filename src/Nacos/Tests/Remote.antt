-- ===== src/Nacos/Tests/Remote.antt =====
-- Runs of `build_remote` and `shutdown`, and their theorems on them.
use neon_rs.Base.{◌≡◌, refl, false, none, some, List, [], ◌∷◌, if◌then◌else◌}
use neon_rs.Base.Assoc.{insert}
use neon_rs.Base.Text.{Text, text, text_eq}
use neon_rs.Base.Result.{ok, err}
use neon_rs.Nacos.Format.{toml, resolve_format_for_entry}
use neon_rs.Nacos.Source.{
  Env, remote, new, default_startup_timeout, nacos_startup_timeout, add_listener,
  explicit_format_for, validate,
}
use neon_rs.Nacos.Reload.{ConfigEntry, merge_configs, new_shared}
use neon_rs.Nacos.Worker.{System, arrive, here, arrives}
use neon_rs.Nacos.Build.{
  World, answered, timed_out, Backend, NacosConfig, ConfigBuilder, new_builder, local_file,
  with_nacos, drop_config, build_remote, fetch, resolve_format, with_startup_timeout, shutdown,
}
use neon_rs.Nacos.Build.Serving.{Outcome, build_remote-Outcome}
use neon_rs.Nacos.Build.Shutdown.{at_rest, shutdown-build_remote, build_remote_in_sync}
use neon_rs.Nacos.Tests.{app, shared_id, order, entry, settings, response, parser, source}

abbrev world : World Text
world = record {
  read_to_string = λ path. err (text "no file");
  built = λ c. answered tt;
  got = λ id. answered (record { data_id = id; content = text "a1"; content_type = [] });
  added = λ id. answered tt;
  added_anyway = λ id. false;
  removed = λ id. none;
}

abbrev builder : ConfigBuilder
builder = with_nacos (local_file new_builder (text "app.toml")) source

abbrev dev : Env
dev = remote (text "dev")

abbrev nobody : Backend
nobody = record { listeners = []; workers = 0 }

build_remote-Outcome_example :
    Outcome parser source world dev nobody (build_remote parser builder world dev nobody)
build_remote-Outcome_example =
    build_remote-Outcome parser builder source world dev nobody refl (λ id. refl) (λ id. refl)
      (refl, (refl, tt))

-- The second call of `add_listener` gets no answer.
late_listener :
    build_remote parser builder
      (record world { added = λ id. if text_eq.beq id app then answered tt else timed_out })
      dev
      nobody
    ≡ (nobody, err (nacos_startup_timeout add_listener default_startup_timeout))
unfolding build_remote new validate merge_configs fetch resolve_format resolve_format_for_entry
    insert with_startup_timeout explicit_format_for
late_listener = refl

abbrev served_toml : ConfigEntry
served_toml = record { content = text "a1"; format = toml }

abbrev served_config : NacosConfig (List ConfigEntry)
served_config = record {
  shared =
      new_shared order ((app, entry "a1") ∷ (shared_id, served_toml) ∷ [])
        (entry "a1" ∷ served_toml ∷ []);
  settings = settings;
  data_id_order = order;
  env = dev;
  remote = some (record { group = text "DEFAULT_GROUP"; data_ids = order });
}

built_remote :
    build_remote parser builder world dev nobody
    ≡ (record { listeners = order; workers = 1 }, ok served_config)
unfolding build_remote new validate merge_configs fetch resolve_format resolve_format_for_entry
    insert with_startup_timeout explicit_format_for
built_remote = refl

shutdown-build_remote_example :
    shutdown world served_config (record { listeners = order; workers = 1 })
    ≡ (nobody, record served_config { remote = none }, ok tt)
unfolding new
shutdown-build_remote_example =
    shutdown-build_remote parser builder source world dev nobody
      (record { listeners = order; workers = 1 }) served_config refl (λ id. refl) (λ id. refl)
      (refl, (refl, tt)) built_remote

abbrev one_response : System (List ConfigEntry)
one_response = arrive settings (at_rest served_config) (response "a2")

build_remote_in_sync_example :
    merge_configs parser order one_response.shared.entries ≡ ok one_response.shared.tx.value
unfolding new
build_remote_in_sync_example =
    build_remote_in_sync parser builder source world dev nobody
      (record { listeners = order; workers = 1 }) served_config (response "a2" ∷ []) one_response
      refl (λ id. refl) (λ id. refl) (refl, (refl, tt)) built_remote (arrives here (response "a2"))

dropped :
    drop_config served_config (record { listeners = order; workers = 1 })
    ≡ record { listeners = order; workers = 0 }
dropped = refl
