-- ===== src/Nacos/Build/Shutdown.antt =====
-- `NacosConfig` from `build_remote` to `shutdown`: what it holds while nacos pushes changes, and
-- what is left of it.
use neon_rs.Base.{ℕ, suc, ◌-◌, ◌≡◌, refl, ap, subst, false, Option, none, some, List, ◌++◌, arith}
use neon_rs.Base.Eq.{Distinct}
use neon_rs.Base.Text.{Text, text_eq}
use neon_rs.Base.Result.{Result, ok, err}
use neon_rs.Nacos.Source.{NacosSource, Env, ConfigError}
use neon_rs.Nacos.Reload.{ConfigEntry, ConfigResponse, Entries, merge_configs}
use neon_rs.Nacos.Worker.{System, start, waiting, Reach}
use neon_rs.Nacos.Worker.Converge.{reload_in_sync}
use neon_rs.Nacos.Build.{
  World, Backend, NacosConfig, ConfigBuilder, build_remote, config_of, shutdown,
}
use neon_rs.Nacos.Build.Outcome.{Absent, Removes, remove_all_lem}
use neon_rs.Nacos.Build.Serving.{Outcome, serving, refused, build_remote-Outcome}

value_of :
    {Config X : Type 0}
    → Backend × Result (ConfigError X) (NacosConfig Config)
    → Option (NacosConfig Config)
value_of (b, ok n) = some n
value_of (b, err e) = none

-- The worker of a configuration as it is built, before it runs.
abbrev pub at_rest : {Config : Type 0} → NacosConfig Config → System Config
at_rest n = record { shared = n.shared; phase = waiting; unannounced = 0 }

module _ {Config X : Type 0} (build : List ConfigEntry → Result X Config) where
  module _ (s : NacosSource) (w : World X) (env : Env) (b b' : Backend)
      (n : NacosConfig Config) where
    served :
        Outcome build s w env b (b', ok n)
        → (entries : Entries) × (c : Config) × Distinct s.data_id
          × (merge_configs build s.data_id entries ≡ ok c)
          × (b' ≡ record { listeners = b.listeners ++ s.data_id; workers = suc b.workers })
          × (n ≡ config_of build s env entries c)
    unfolding value_of
    served (serving entries c d fetched merged e) =
        (entries, c, d, merged, ap (λ r. r.0) e, cc (ap value_of e))
    served (refused x e) = cc (ap value_of e)

  shutdown_lem :
      (s : NacosSource) (w : World X) (env : Env) (entries : Entries) (c : Config)
      (base : List Text) (k : ℕ)
      → Removes w
      → Distinct s.data_id
      → Absent base s.data_id
      → shutdown w
          (config_of build s env entries c)
          (record { listeners = base ++ s.data_id; workers = suc k })
        ≡ (
          record { listeners = base; workers = k },
          record (config_of build s env entries c) { remote = none },
          ok tt,
        )
  unfolding shutdown
  shutdown_lem s w env entries c base k r d a =
      let before : suc k - 1 ≡ k = omega arith in
      rw (remove_all_lem w s.data_id base (suc k) r d a, before) refl

  module _ (c : ConfigBuilder) (s : NacosSource) (w : World X) (env : Env) (b b' : Backend)
      (n : NacosConfig Config) where
    -- After `build_remote` returns a configuration, under the same conditions on the calls of
    -- nacos, `shutdown` succeeds, the listeners and the workers are those before the build, and the
    -- configuration keeps its snapshot and has no connection.
    pub shutdown-build_remote :
        c.nacos ≡ some s
        → Removes w
        → ((id : Text) → w.added_anyway id ≡ false)
        → Absent b.listeners s.data_id
        → build_remote build c w env b ≡ (b', ok n)
        → shutdown w n b' ≡ (b, record n { remote = none }, ok tt)
    shutdown-build_remote e r f a h =
        let (entries, config, d, merged, eb, en) =
          served s w env b b' n
            (subst (Outcome build s w env b) h (build_remote-Outcome build c s w env b e r f a)) in
        rw (eb, en) (shutdown_lem s w env entries config b.listeners b.workers r d a)

    -- Under these conditions the configuration that `build_remote` returns is the merge of its
    -- entries in the order of the source's data ids, and stays so in every state that responses of
    -- nacos and the reload worker reach, in any interleaving, whether batches merge or not.
    pub build_remote_in_sync :
        (rs : List ConfigResponse) (t : System Config)
        → c.nacos ≡ some s
        → Removes w
        → ((id : Text) → w.added_anyway id ≡ false)
        → Absent b.listeners s.data_id
        → build_remote build c w env b ≡ (b', ok n)
        → Reach build n.settings (at_rest n) rs t
        → merge_configs build s.data_id t.shared.entries ≡ ok t.shared.tx.value
    unfolding start
    build_remote_in_sync rs t e r f a h run =
        let (entries, config, d, merged, eb, en) =
          served s w env b b' n
            (subst (Outcome build s w env b) h (build_remote-Outcome build c s w env b e r f a)) in
        let run' = subst (λ n. Reach build n.settings (at_rest n) rs t) en run in
        reload_in_sync build (config_of build s env entries config).settings entries config rs t d
          merged run'
