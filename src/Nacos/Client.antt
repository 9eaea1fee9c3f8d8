-- ===== src/Nacos/Client.antt =====
-- crates/neon-config/src/nacos/config.rs: the client that `build_remote` asks for. `ClientProps` and
-- `ConfigServiceBuilder` of `nacos_sdk` are records of what their setters are given.
pub mod Plugins
use neon_rs.Base.{
  ℕ, ◌≡◌, refl, Bool, true, false, Option, none, some, List, [], ◌∷◌, ◌++◌, if◌then◌else◌, is_empty,
  map,
}
use neon_rs.Base.Text.{Text, text, trim}
use neon_rs.Nacos.Source.{NacosSource, is_blank, is_some}

pub record ClientProps : Type 0 where
  pub namespace : Text
  pub endpoint : Option Text
  pub server_addr : Option Text
  pub app_name : Option Text
  pub auth_username : Option Text
  pub auth_password : Option Text
  pub auth_access_key : Option Text
  pub auth_access_secret : Option Text
  pub auth_signature_region_id : Option Text
  pub load_cache_at_start : Option Bool
  pub remote_grpc_port : Option ℕ

pub record ClientBuilder : Type 0 where
  pub props : ClientProps
  pub auth_plugin_http : Bool
  pub auth_plugin_aliyun : Bool

-- `[T]::join`.
join : Text → List Text → Text
join sep [] = []
join sep (t ∷ []) = t
join sep (t ∷ u ∷ ts) = t ++ (sep ++ join sep (u ∷ ts))

-- A value that is set only beside another.
abbrev pub beside : Option Text → Option Text → Option Text
beside (some a) (some b) = some a
beside _ _ = none

abbrev endpoint_of : Option Text → Option Text
endpoint_of none = none
endpoint_of (some e) = if is_blank e then none else some (trim e)

unfoldable pub client : NacosSource → ClientBuilder
unfolding join
client s = record {
  props = record {
    namespace = s.namespace;
    endpoint = endpoint_of s.endpoint;
    server_addr =
        if is_empty s.server_addr then none else some (join (text ",") (map trim s.server_addr));
    app_name = s.app_name;
    auth_username = beside s.username s.password;
    auth_password = beside s.password s.username;
    auth_access_key = beside s.access_key s.secret_key;
    auth_access_secret = beside s.secret_key s.access_key;
    auth_signature_region_id = s.region_id;
    load_cache_at_start = s.load_cache_at_start;
    remote_grpc_port = s.grpc_port;
  };
  auth_plugin_http = is_some s.username;
  auth_plugin_aliyun = is_some s.access_key;
}

joined : join (text ",") (text "a" ∷ text "b" ∷ []) ≡ text "a,b"
unfolding join
joined = refl
