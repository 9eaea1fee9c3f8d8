-- ===== src/Sls/Config/Normal.antt =====
-- What `normalized` guarantees of every configuration, however it was set up.
use neon_rs.Base.{◌↔◌, ℕ, ◌≤◌, ◌≡◌, ◌≢◌, refl, Option, none, some, [], ◌∷◌, List, arith}
use neon_rs.Base.Text.{Text}
use neon_rs.Base.Result.{Result}
use neon_rs.Sls.Config.{
  SlsConfig, SlsCredentials, Setter, new, set_all, normalized, min_duration, min_batch_bytes,
  max_batch_bytes_limit, min_credentials_refresh_interval, at_least_refresh, non_empty,
}

abbrev pub RefreshFits : Option ℕ → Type 0
RefreshFits none = Unit
RefreshFits (some d) = min_credentials_refresh_interval ≤ d

abbrev pub IsNonEmpty : Option Text → Type 0
IsNonEmpty none = Unit
IsNonEmpty (some s) = s ≢ []

-- The ranges that the documentation of the setters promises.
pub record IsNormal (c : SlsConfig) : Type 0 where
  pub batch_size_pos : 1 ≤ c.max_batch_size
  pub capacity_pos : 1 ≤ c.queue_capacity
  pub inflight_pos : 1 ≤ c.max_inflight
  pub flush_pos : min_duration ≤ c.flush_interval
  pub base_pos : min_duration ≤ c.retry_base
  pub base_le_max : c.retry_base ≤ c.retry_max
  pub request_pos : min_duration ≤ c.request_timeout
  pub shutdown_pos : min_duration ≤ c.shutdown_timeout
  pub bytes_min : min_batch_bytes ≤ c.max_batch_bytes
  pub bytes_max : c.max_batch_bytes ≤ max_batch_bytes_limit
  pub refresh_fits : RefreshFits c.credentials_refresh_interval
  pub topic_set : IsNonEmpty c.topic
  pub source_set : IsNonEmpty c.source

at_least_refresh-RefreshFits : (o : Option ℕ) → RefreshFits (at_least_refresh o)
at_least_refresh-RefreshFits none = tt
at_least_refresh-RefreshFits (some d) = omega arith

non_empty-IsNonEmpty : (o : Option Text) → IsNonEmpty (non_empty o)
non_empty-IsNonEmpty none = tt
non_empty-IsNonEmpty (some []) = tt
non_empty-IsNonEmpty (some (x ∷ s)) = λ e. cc

pub normalized-IsNormal : (c : SlsConfig) → IsNormal (normalized c)
unfolding normalized
normalized-IsNormal c = record {
  batch_size_pos = omega arith;
  capacity_pos = omega arith;
  inflight_pos = omega arith;
  flush_pos = omega arith;
  base_pos = omega arith;
  base_le_max = omega arith;
  request_pos = omega arith;
  shutdown_pos = omega arith;
  bytes_min = omega arith;
  bytes_max = omega arith;
  refresh_fits = at_least_refresh-RefreshFits c.credentials_refresh_interval;
  topic_set = non_empty-IsNonEmpty c.topic;
  source_set = non_empty-IsNonEmpty c.source;
}

at_least_refresh_fixed : (o : Option ℕ) → RefreshFits o → at_least_refresh o ≡ o
at_least_refresh_fixed none h = refl
at_least_refresh_fixed (some d) h = ground arith

non_empty_fixed : (o : Option Text) → IsNonEmpty o → non_empty o ≡ o
non_empty_fixed none h = refl
non_empty_fixed (some []) h = absurd (h refl)
non_empty_fixed (some (x ∷ s)) h = refl

normalized_fixed : (c : SlsConfig) → IsNormal c → normalized c ≡ c
unfolding normalized
normalized_fixed c n = ground (
  arith,
  at_least_refresh_fixed c.credentials_refresh_interval n.refresh_fits,
  non_empty_fixed c.topic n.topic_set,
  non_empty_fixed c.source n.source_set,
)

-- Whatever the caller sets, in whatever order, `normalized` yields a configuration in the
-- documented ranges, and a configuration is in those ranges exactly when `normalized` keeps it.
pub normalized-set_all :
    (endpoint project logstore : Text) (provider : ℕ → Result Text SlsCredentials)
    (ss : List Setter)
    → let c = set_all (new endpoint project logstore provider) ss in
      IsNormal (normalized c)
      × (normalized (normalized c) ≡ normalized c)
      × (IsNormal c ↔ (normalized c ≡ c))
normalized-set_all endpoint project logstore provider ss =
    let c = set_all (new endpoint project logstore provider) ss in
    (
      normalized-IsNormal c,
      normalized_fixed (normalized c) (normalized-IsNormal c),
      (normalized_fixed c, λ e. rw e at (normalized-IsNormal c)),
    )
