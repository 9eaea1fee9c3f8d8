-- ===== src/Nacos/Build/Serving.antt =====
-- What `build_remote` returns and leaves behind, and what `shutdown` undoes.
use neon_rs.Base.{
  ℕ, suc, ◌≡◌, refl, sym, ap, subst, ◌∙◌, false, some, List, [], ◌∷◌, ◌++◌, arith, All,
}
use mathlib.Core.List.{append-nil}
use neon_rs.Base.Assoc.{get, insert, get-insert}
use neon_rs.Base.Eq.{contains, Distinct}
use neon_rs.Base.Text.{Text, text_eq}
use neon_rs.Base.Result.{Result, ok, err, bind_ok}
use neon_rs.Nacos.Format.{Format}
use neon_rs.Nacos.Source.{
  NacosSource, Env, ConfigError, validate, get_config, build_service, Operation,
}
use neon_rs.Nacos.Source.Valid.{validate_iff}
use neon_rs.Nacos.Client.{client}
use neon_rs.Nacos.Reload.{ConfigEntry, ConfigResponse, Entries, merge_configs}
use neon_rs.Nacos.Build.{
  Answer, answered, failed, timed_out, World, Backend, NacosConfig, ConfigBuilder, register, load,
  fetch, serve, build_remote, config_of, with_startup_timeout, resolve_format,
}
use neon_rs.Nacos.Build.Outcome.{Absent, Removes, Registered, done, undone, register-Registered}

-- An entry is what nacos answered for its data id, under the format that the answer resolves to.
pub record Fetched {X : Type 0} (s : NacosSource) (w : World X) (entries : Entries) (id : Text)
    : Type 0 where
  pub response : ConfigResponse
  pub format : Format
  pub got : w.got id ≡ answered response
  pub resolved : resolve_format {X = X} s id response ≡ ok format
  pub held : get id entries ≡ some (record { content = response.content; format = format })

module _ {X : Type 0} where
  answered_ok :
      {A : Type 0} (timeout : ℕ) (o : Operation) (answer : Answer X A) (a : A)
      → with_startup_timeout timeout o answer ≡ ok a
      → answer ≡ answered a
  unfolding with_startup_timeout
  answered_ok timeout o (answered x) a h = ground arith
  answered_ok timeout o (failed x) a h = cc
  answered_ok timeout o timed_out a h = cc

  fetch_head :
      (s : NacosSource) (w : World X) (id : Text) (ids : List Text) (es fs : Entries)
      → fetch s w (id ∷ ids) es ≡ ok fs
      → (r : ConfigResponse) × (f : Format) × (w.got id ≡ answered r)
        × (resolve_format {X = X} s id r ≡ ok f)
        × (fetch s w ids (insert id (record { content = r.content; format = f }) es) ≡ ok fs)
  unfolding fetch
  fetch_head s w id ids es fs h =
      let (r, h1, got) =
        bind_ok (with_startup_timeout s.startup_timeout get_config (w.got id)) _ h in
      let (f, h2, resolved) = bind_ok (resolve_format {X = X} s id r) _ h1 in
      (r, f, answered_ok s.startup_timeout get_config (w.got id) r got, resolved, h2)

  fetch_other :
      (s : NacosSource) (w : World X) (ids : List Text) (es fs : Entries) (k : Text)
      → fetch s w ids es ≡ ok fs
      → contains ids k ≡ false
      → get k fs ≡ get k es
  fetch_other s w [] es fs k h n = unfold fetch in ground arith
  fetch_other s w (id ∷ ids) es fs k h n =
      let (r, f, _, _, rest) = fetch_head s w id ids es fs h in
      let entry : ConfigEntry = record { content = r.content; format = f } in
      fetch_other s w ids (insert id entry es) fs k rest (ground arith)
      ∙ ground (arith, get-insert id k entry es)

  fetch-Fetched :
      (s : NacosSource) (w : World X) (ids : List Text) (es fs : Entries)
      → Distinct ids
      → fetch s w ids es ≡ ok fs
      → All (Fetched s w fs) ids
  fetch-Fetched s w [] es fs d h = tt
  fetch-Fetched s w (id ∷ ids) es fs d h =
      let (r, f, got, resolved, rest) = fetch_head s w id ids es fs h in
      let entry : ConfigEntry = record { content = r.content; format = f } in
      (
        record {
          response = r;
          format = f;
          got = got;
          resolved = resolved;
          held =
              fetch_other s w ids (insert id entry es) fs id rest d.0
              ∙ get-insert id id entry es
              ∙ rw ((text_eq.beq_iff id id).1 refl) refl;
        },
        fetch-Fetched s w ids (insert id entry es) fs d.1 rest,
      )

module _ {Config X : Type 0} (build : List ConfigEntry → Result X Config) where
  load_ok :
      (s : NacosSource) (w : World X) (entries : Entries) (c : Config)
      → load build s w ≡ ok (entries, c)
      → Distinct s.data_id
        × All (Fetched s w entries) s.data_id
        × (merge_configs build s.data_id entries ≡ ok c)
  unfolding load
  load_ok s w entries c h =
      let (u, h1, valid) = bind_ok (validate {X = X} s) _ h in
      let (v, h2, built) =
        bind_ok (with_startup_timeout {X = X} s.startup_timeout build_service (w.built (client s)))
          _ h1 in
      let (es, h3, fetched) = bind_ok (fetch s w s.data_id []) _ h2 in
      let (d, h4, merged) = bind_ok (merge_configs build s.data_id es) _ h3 in
      let distinct = ((validate_iff X s).0 valid).distinct_data_ids in
      let same : es ≡ entries = ground arith in
      let same_config : d ≡ c = ground arith in
      (
        distinct,
        subst (λ es. All (Fetched s w es) s.data_id) same
            (fetch-Fetched s w s.data_id [] es distinct fetched),
        ap (merge_configs build s.data_id) (sym same) ∙ merged ∙ ap ok same_config,
      )

  module _ (s : NacosSource) (w : World X) (env : Env) (b : Backend) where
    -- Either the configuration serves: its entries are what nacos answered for each data id, it is
    -- their merge in order, the listener stands for each data id and one more worker runs; or the
    -- backend is as before.
    pub data Outcome (r : Backend × Result (ConfigError X) (NacosConfig Config)) : Type 0 where
      serving :
          (entries : Entries) (c : Config)
          → Distinct s.data_id
          → All (Fetched s w entries) s.data_id
          → merge_configs build s.data_id entries ≡ ok c
          → r ≡ (
            record { listeners = b.listeners ++ s.data_id; workers = suc b.workers },
            ok (config_of build s env entries c),
          )
          → Outcome r
      refused : (e : ConfigError X) → r ≡ (b, err e) → Outcome r

    serve-Outcome :
        (l : Result (ConfigError X) (Entries × Config))
        → Removes w
        → ((id : Text) → w.added_anyway id ≡ false)
        → Absent b.listeners s.data_id
        → load build s w ≡ l
        → Outcome (serve build s w env b l)
    unfolding serve
    serve-Outcome (err e) r f a h = refused e refl
    serve-Outcome (ok (entries, c)) r f a h =
        let (d, fetched, merged) = load_ok s w entries c h in
        elim (registered d) [
          | done e ↦ serving entries c d fetched merged (rw e refl)
          | undone x e ↦ refused x (rw e refl)
        ]
      where
        registered :
            Distinct s.data_id
            → Registered s w b.listeners b.workers s.data_id
                (register s w [] s.data_id (record b { workers = suc b.workers }))
        registered d =
            subst
              (λ l.
                Registered s w b.listeners b.workers s.data_id
                  (register s w [] s.data_id (record { listeners = l; workers = suc b.workers })))
              (append-nil b.listeners)
              (register-Registered s w b.listeners b.workers [] s.data_id r f d a)

  -- If calls of `remove_listener` succeed, calls of `add_listener` that fail have no effect and the
  -- listener stands for no data id of the source, then `build_remote` either returns a
  -- configuration that serves, or fails and leaves no listener and no worker behind.
  pub build_remote-Outcome :
      (c : ConfigBuilder) (s : NacosSource) (w : World X) (env : Env) (b : Backend)
      → c.nacos ≡ some s
      → Removes w
      → ((id : Text) → w.added_anyway id ≡ false)
      → Absent b.listeners s.data_id
      → Outcome s w env b (build_remote build c w env b)
  unfolding build_remote
  build_remote-Outcome c s w env b e r f a =
      rw e (serve-Outcome s w env b (load build s w) r f a refl)
