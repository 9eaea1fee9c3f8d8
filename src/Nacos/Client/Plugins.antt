-- ===== src/Nacos/Client/Plugins.antt =====
-- Which of the two kinds of authentication the client of a valid source uses.
use neon_rs.Base.{◌≡◌, refl, true, false, Option, none, some}
use neon_rs.Base.Text.{Text}
use neon_rs.Base.Result.{ok}
use neon_rs.Nacos.Source.{NacosSource, validate, is_blank, is_given, is_some}
use neon_rs.Nacos.Source.Valid.{login, keys, anonymous, validate_iff}
use neon_rs.Nacos.Client.{ClientBuilder, client, beside}

-- The plugins and the secrets of a client.
pub data SignsIn (s : NacosSource) (c : ClientBuilder) : Type 0 where
  by_password :
      c.auth_plugin_http ≡ true
      → c.auth_plugin_aliyun ≡ false
      → c.props.auth_username ≡ s.username
      → c.props.auth_password ≡ s.password
      → is_given s.username ≡ true
      → is_given s.password ≡ true
      → SignsIn s c
  by_keys :
      c.auth_plugin_http ≡ false
      → c.auth_plugin_aliyun ≡ true
      → c.props.auth_access_key ≡ s.access_key
      → c.props.auth_access_secret ≡ s.secret_key
      → is_given s.access_key ≡ true
      → is_given s.secret_key ≡ true
      → SignsIn s c
  by_nothing : c.auth_plugin_http ≡ false → c.auth_plugin_aliyun ≡ false → SignsIn s c

both_given : (a b : Option Text) → is_given a ≡ true → is_given b ≡ true → beside a b ≡ a
both_given none b h k = cc
both_given (some x) none h k = cc
both_given (some x) (some y) h k = refl

given_some : (a : Option Text) → is_given a ≡ true → is_some a ≡ true
given_some none h = cc
given_some (some x) h = refl

login_given : (a : Option Text) (x : Text) → a ≡ some x → is_blank x ≡ false → is_given a ≡ true
login_given a x e h = rw (e, h) refl

-- The client of a source that `validate` accepts, whose access key is not blank if there is one,
-- enables one plugin at most: with a user and a password, both not blank, that for passwords, with
-- these; with both keys, not blank, that for keys, with these.
pub client-SignsIn :
    (X : Type 0) (s : NacosSource)
    → validate {X = X} s ≡ ok tt
    → is_given s.access_key ≡ is_some s.access_key
    → SignsIn s (client s)
unfolding client
client-SignsIn X s valid whole = elim ((validate_iff X s).0 valid).auth [
  | login user password eu ep gu gp ea ek er ↦
      let u = login_given s.username user eu gu in
      let p = login_given s.password password ep gp in
      by_password (given_some _ u) (cc) (both_given _ _ u p) (both_given _ _ p u) u p
  | keys eu ep ea ek ↦ by_keys (rw eu refl) (cc) (both_given _ _ ea ek) (both_given _ _ ek ea) ea ek
  | anonymous eu ep ea ek er ↦ by_nothing (rw eu refl) (cc)
]
