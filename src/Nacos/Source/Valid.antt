-- ===== src/Nacos/Source/Valid.antt =====
-- What `validate` of config.rs accepts.
use neon_rs.Base.{
  ℕ, ◌≡◌, ◌≢◌, ◌<◌, ◌≤◌, ◌↔◌, ◌⊎◌, inl, inr, refl, Bool, true, false, not, Option, none, some, List,
  [], ◌∷◌, ◌&&◌, ◌||◌, ◌==◌, ==_iff, is_empty, any, length, All, arith,
}
use neon_rs.Base.Eq.{Distinct}
use neon_rs.Base.Text.{Text, text_eq}
use neon_rs.Base.Result.{Result, ok, err, ◌>>◌, ensure}
use neon_rs.Nacos.Source.{
  NacosSource, ConfigError, invalid_nacos_source, mixed_auth, validate, validate_auth,
  validate_login, validate_keys, validate_data_id_list, is_blank, is_given, is_some, distinct_count,
}

-- How a client shows who it is: the user, the password, and whether an access key, a secret key
-- and a region are given.
pub data Auth (u p : Option Text) (access secret region : Bool) : Type 0 where
  login :
      (user password : Text)
      → u ≡ some user
      → p ≡ some password
      → is_blank user ≡ false
      → is_blank password ≡ false
      → access ≡ false
      → secret ≡ false
      → region ≡ false
      → Auth u p access secret region
  keys : u ≡ none → p ≡ none → access ≡ true → secret ≡ true → Auth u p access secret region
  anonymous :
      u ≡ none
      → p ≡ none
      → access ≡ false
      → secret ≡ false
      → region ≡ false
      → Auth u p access secret region

abbrev pub Given : Text → Type 0
Given t = is_blank t ≡ false

pub record IsValid (s : NacosSource) : Type 0 where
  pub some_data_id : s.data_id ≢ []
  pub given_data_ids : All Given s.data_id
  pub distinct_data_ids : Distinct s.data_id
  pub given_group : Given s.group
  pub given_addresses : All Given s.server_addr
  pub reachable : (is_given s.endpoint ≡ true) ⊎ (s.server_addr ≢ [])
  pub some_timeout : 0 < s.startup_timeout
  pub auth :
      Auth s.username s.password
        (is_given s.access_key)
        (is_given s.secret_key)
        (is_given s.region_id)

not_zero : (n : ℕ) → 0 < n → (n == 0) ≡ false
not_zero n h = ground arith

is_empty_iff : (ts : List Text) → (is_empty ts ≡ false) ↔ (ts ≢ [])
is_empty_iff [] = (λ h. cc, λ n. absurd (n refl))
is_empty_iff (t ∷ ts) = (λ h e. cc, λ n. refl)

not_or : (a b : Bool) → not (a || b) ≡ true → (a ≡ false) × (b ≡ false)
not_or false false h = (refl, refl)
not_or false true h = cc
not_or true b h = cc

not-true : (b : Bool) → not b ≡ true → b ≡ false
not-true true h = cc
not-true false h = refl

positive : (n : ℕ) → not (n == 0) ≡ true → 0 < n
positive n h = ground arith

any_blank : (ts : List Text) → (any is_blank ts ≡ false) ↔ All Given ts
any_blank [] = (λ _. tt, λ _. refl)
any_blank (t ∷ ts) = (
  λ h. (ground arith, (any_blank ts).0 (ground arith)),
  λ h. ground (arith, (any_blank ts).1 h.1),
)

any-Given : (ts : List Text) → All Given ts → ts ≢ [] → any (λ a. not (is_blank a)) ts ≡ true
any-Given [] h n = absurd (n refl)
any-Given (t ∷ ts) h n = ground arith

or_given :
    (ts : List Text) (b : Bool)
    → (b || any (λ a. not (is_blank a)) ts) ≡ true
    → (b ≡ true) ⊎ (ts ≢ [])
or_given [] true h = inl refl
or_given [] false h = cc
or_given (t ∷ ts) b h = inr (λ e. cc)

Given-or :
    (ts : List Text) (b : Bool)
    → All Given ts
    → (b ≡ true) ⊎ (ts ≢ [])
    → (b || any (λ a. not (is_blank a)) ts) ≡ true
Given-or ts true all h = refl
Given-or ts false all (inl h) = cc
Given-or ts false all (inr n) = any-Given ts all n

distinct_count-le : (ts : List Text) → distinct_count ts ≤ length ts
distinct_count-le [] = omega arith
distinct_count-le (t ∷ ts) = ground (arith, distinct_count-le ts)

distinct_count_iff : (ts : List Text) → (distinct_count ts ≡ length ts) ↔ Distinct ts
distinct_count_iff [] = (λ _. tt, λ _. refl)
distinct_count_iff (t ∷ ts) = (
  λ h. (
    ground (arith, distinct_count-le ts),
    (distinct_count_iff ts).0 (ground (arith, distinct_count-le ts)),
  ),
  λ h. ground (arith, (distinct_count_iff ts).1 h.1),
)

module _ {X : Type 0} where
  both : (m k : Result X (Unit {0})) → (m >> k ≡ ok tt) ↔ ((m ≡ ok tt) × (k ≡ ok tt))
  both (ok u) k = ground arith
  both (err e) k = ground arith

  holds : (b : Bool) (e : X) → (ensure b e ≡ ok tt) ↔ (b ≡ true)
  holds true e = ground arith
  holds false e = ground arith

module _ {X : Type 0} where
  abbrev checked :
      Option Text → Option Text → Bool → Bool → Bool → Result (ConfigError X) (Unit {0})
  checked u p access secret region =
      ensure (not ((is_some u || is_some p) && (access || secret || region)))
        (invalid_nacos_source mixed_auth)
      >> validate_login u p (validate_keys access secret region)

  checked-Auth :
      (u p : Option Text) (access secret region : Bool)
      → checked u p access secret region ≡ ok tt
      → Auth u p access secret region
  unfolding validate_login validate_keys
  checked-Auth none none true true region h = keys refl refl refl refl
  checked-Auth none none true false true h = cc
  checked-Auth none none true false false h = cc
  checked-Auth none none false true true h = cc
  checked-Auth none none false true false h = cc
  checked-Auth none none false false true h = cc
  checked-Auth none none false false false h = anonymous refl refl refl refl refl
  checked-Auth (some u) (some p) false false false h =
      login u p refl refl (ground arith) (ground arith) refl refl refl
  checked-Auth (some u) (some p) false false true h = cc
  checked-Auth (some u) (some p) false true region h = cc
  checked-Auth (some u) (some p) true secret region h = cc
  checked-Auth (some u) none access secret region h = ground arith
  checked-Auth none (some p) access secret region h = ground arith

  Auth-checked :
      (u p : Option Text) (access secret region : Bool)
      → Auth u p access secret region
      → checked u p access secret region ≡ ok tt
  unfolding validate_login validate_keys
  Auth-checked u p a k r (login user password eu ep gu gp ea ek er) =
      rw (eu, ep, ea, ek, er, gu, gp) refl
  Auth-checked u p a k r (keys eu ep ea ek) = rw (eu, ep, ea, ek) (ground arith)
  Auth-checked u p a k r (anonymous eu ep ea ek er) = rw (eu, ep, ea, ek, er) refl

  validate_data_id_list-Distinct :
      (ids : List Text)
      → validate_data_id_list {X = X} ids ≡ ok tt
      → (ids ≢ []) × All Given ids × Distinct ids
  unfolding validate_data_id_list
  validate_data_id_list-Distinct ids h =
      let (h1, h2) = (both _ _).0 h in
      let (full, given) = not_or _ _ ((holds _ _).0 h1) in
      (
        (is_empty_iff ids).0 full,
        (any_blank ids).0 given,
        (distinct_count_iff ids).0 ((==_iff _ _).0 ((holds _ _).0 h2)),
      )

  validate-IsValid : (s : NacosSource) → validate {X = X} s ≡ ok tt → IsValid s
  unfolding validate validate_auth
  validate-IsValid s h =
      let (h0, h1) = (both _ _).0 h in
      let (ids, h2) = (both _ _).0 h1 in
      let (group, h3) = (both _ _).0 h2 in
      let (reach, h4) = (both _ _).0 h3 in
      let (addresses, h5) = (both _ _).0 h4 in
      let (timeout, auth) = (both _ _).0 h5 in
      let (some_ids, given_ids, distinct_ids) = validate_data_id_list-Distinct s.data_id ids in
      record {
        some_data_id = some_ids;
        given_data_ids = given_ids;
        distinct_data_ids = distinct_ids;
        given_group = not-true _ ((holds _ _).0 group);
        given_addresses = (any_blank _).0 (not-true _ ((holds _ _).0 addresses));
        reachable = or_given s.server_addr _ ((holds _ _).0 reach);
        some_timeout = positive _ ((holds _ _).0 timeout);
        auth = checked-Auth _ _ _ _ _ auth;
      }

  IsValid-validate : (s : NacosSource) → IsValid s → validate {X = X} s ≡ ok tt
  unfolding validate validate_auth
  IsValid-validate s v =
      let distinct = (==_iff _ _).1 ((distinct_count_iff s.data_id).1 v.distinct_data_ids) in
      rw
        (
          (is_empty_iff s.data_id).1 v.some_data_id,
          (any_blank s.data_id).1 v.given_data_ids,
          distinct,
          v.given_group,
          Given-or s.server_addr (is_given s.endpoint) v.given_addresses v.reachable,
          (any_blank s.server_addr).1 v.given_addresses,
          not_zero s.startup_timeout v.some_timeout,
        )
        (Auth-checked _ _ _ _ _ v.auth)

-- `validate` accepts a source exactly when it has data ids, none blank and none twice, a group that
-- is not blank, an endpoint that is not blank or some address, no blank address, a timeout that is
-- not 0, and either a user and a password that are not blank with no key and no region given, or
-- both keys given with no user and no password, blank ones included, or no user,
-- password, key or region. A key or a region is given if it is set and not blank.
pub validate_iff : (X : Type 0) (s : NacosSource) → (validate {X = X} s ≡ ok tt) ↔ IsValid s
validate_iff X s = (validate-IsValid s, IsValid-validate s)
