-- ===== src/Redis/Kit.antt =====
-- crates/neon-redis/src/redkit.rs: the cache-aside helpers. A connection is an interface: what each
-- command answers, and the state of the server after it; `serde_json` is the parameter of the
-- helpers that call it. The loader is the caller's code: what it returns.
pub mod Aside
pub mod Maps
use neon_rs.Base.{
  ℕ, ◌/◌, ◌%◌, ◌-◌, ◌^◌, ltb, ◌==◌, ◌≡◌, Bool, true, false, Option, none, some, List, [], ◌∷◌,
  if◌then◌else◌, is_empty,
}
use neon_rs.Base.Assoc.{insert}
use neon_rs.Base.Text.{Text, text_eq}
use neon_rs.Base.Result.{Result, ok, err, ◌>>=◌}

pub data ℤ : Type 0 where
  pos negsuc : ℕ → ℤ

-- `TTL` of a key: it is not there, it never expires, or it has some seconds left.
pub data Ttl : Type 0 where
  no_key no_expiry : Ttl
  left : ℕ → Ttl

pub record Commands (S X : Type 0) : Type 0 where
  pub get : S → Text → Result X (Option Text)
  pub set : S → Text → Text → S × Result X (Unit {0})
  -- With a number of seconds.
  pub set_ex : S → Text → Text → ℕ → S × Result X (Unit {0})
  pub hget : S → Text → Text → Result X (Option Text)
  pub hset : S → Text → Text → Text → S × Result X (Unit {0})
  pub ttl : S → Text → Ttl
  -- With a signed number of seconds.
  pub expire : S → Text → ℤ → S × Result X (Unit {0})
  pub mget : S → List Text → Result X (List (Option Text))
  pub hgetall : S → Text → Result X (List (Text × Text))
  pub hmget : S → Text → List Text → Result X (List (Option Text))

-- `serde_json::from_str` at `Option<T>` and at `T`, and `to_string`.
pub record Json (X T : Type 0) : Type 0 where
  pub from_str_option : Text → Result X (Option T)
  pub from_str : Text → Result X T
  pub to_string : T → Result X Text

-- `Duration::as_secs` of nanoseconds.
abbrev pub as_secs : ℕ → ℕ
as_secs d = d / 1_000_000_000

-- `d.as_secs() as i64`: two's complement.
abbrev pub as_i64 : ℕ → ℤ
as_i64 n = let m = n % 2 ^ 64 in if ltb m (2 ^ 63) then pos m else negsuc (2 ^ 64 - 1 - m)

module _ {S X : Type 0} (r : Commands S X) where
  -- The end of the script `HSET`; an error of one of its commands ends it.
  expire_unset : S → Text → ℤ → Ttl → S × Result X (Unit {0})
  expire_unset s key seconds no_expiry = r.expire s key seconds
  expire_unset s key seconds _ = (s, ok tt)

  after_hset : S → Text → ℤ → Result X (Unit {0}) → S × Result X (Unit {0})
  unfolding expire_unset
  after_hset s key seconds (err x) = (s, err x)
  after_hset s key seconds (ok u) = expire_unset s key seconds (r.ttl s key)

  -- The script `HSET`.
  hset_script : S → Text → Text → Text → ℤ → S × Result X (Unit {0})
  unfolding after_hset
  hset_script s key field value seconds =
      let (s', answer) = r.hset s key field value in after_hset s' key seconds answer

  unfoldable pub write : S → Text → Text → Option ℕ → S × Result X (Unit {0})
  write s key value none = r.set s key value
  write s key value (some d) = r.set_ex s key value (as_secs d)

  unfoldable pub hwrite : S → Text → Text → Text → Option ℕ → S × Result X (Unit {0})
  unfolding hset_script
  hwrite s key field value none = r.hset s key field value
  hwrite s key field value (some d) = hset_script s key field value (as_i64 (as_secs d))

module _ {S X T : Type 0} (j : Json X T) where
  -- A miss: what was loaded is returned, and written if it can be encoded.
  store_encoded : S → T → Result X Text → (Text → S × Result X (Unit {0})) → S × Result X (Option T)
  store_encoded s v (err x) put = (s, err x)
  store_encoded s v (ok text) put = ((put text).0, ok (some v))

  load_and_store :
      S → Result X (Option T) → (Text → S × Result X (Unit {0})) → S × Result X (Option T)
  unfolding store_encoded
  load_and_store s (err x) put = (s, err x)
  load_and_store s (ok none) put = (s, ok none)
  load_and_store s (ok (some v)) put = store_encoded s v (j.to_string v) put

  aside :
      S
      → Result X (Option Text)
      → Result X (Option T)
      → (Text → S × Result X (Unit {0}))
      → S × Result X (Option T)
  unfolding load_and_store
  aside s (err x) loaded put = (s, err x)
  aside s (ok (some text)) loaded put = (s, j.from_str_option text)
  aside s (ok none) loaded put = load_and_store s loaded put

module _ {S X T : Type 0} (r : Commands S X) (j : Json X T) where
  unfoldable pub get_or_set : S → Text → Result X (Option T) → Option ℕ → S × Result X (Option T)
  unfolding aside
  get_or_set s key loaded ttl = aside j s (r.get s key) loaded (λ text. write r s key text ttl)

  unfoldable pub hget_or_set :
      S → Text → Text → Result X (Option T) → Option ℕ → S × Result X (Option T)
  unfolding aside
  hget_or_set s key field loaded ttl =
      aside j s (r.hget s key field) loaded (λ text. hwrite r s key field text ttl)

module _ {X V : Type 0} (parse : Text → Result X V) where
  -- The loop over the keys and the answers of `MGET` or `HMGET`.
  collect : List Text → List (Option Text) → List (Text × V) → Result X (List (Text × V))
  collect [] raw m = ok m
  collect (k ∷ ks) [] m = ok m
  collect (k ∷ ks) (none ∷ raw) m = collect ks raw m
  collect (k ∷ ks) (some s ∷ raw) m = parse s >>= λ v. collect ks raw (insert k v m)

  -- The loop over the answer of `HGETALL`.
  collect_pairs : List (Text × Text) → List (Text × V) → Result X (List (Text × V))
  collect_pairs [] m = ok m
  collect_pairs ((k, s) ∷ raw) m = parse s >>= λ v. collect_pairs raw (insert k v m)

module _ {S X T : Type 0} (r : Commands S X) (j : Json X T) (s : S) where
  unfoldable pub mget_map : List Text → Result X (List (Text × T))
  unfolding collect
  mget_map keys =
      if is_empty keys then ok [] else (r.mget s keys >>= λ raw. collect j.from_str keys raw [])

  unfoldable pub hmget_map : Text → List Text → Result X (List (Text × T))
  unfolding collect
  hmget_map key fields =
      if is_empty fields
      then ok []
      else (r.hmget s key fields >>= λ raw. collect j.from_str fields raw [])

  unfoldable pub hgetall : Text → Result X (List (Text × T))
  unfolding collect_pairs
  hgetall key = r.hgetall s key >>= λ raw. collect_pairs j.from_str raw []

module _ {S X : Type 0} (r : Commands S X) (s : S) where
  unfoldable pub mget_str_map : List Text → Result X (List (Text × Text))
  unfolding collect
  mget_str_map keys =
      if is_empty keys then ok [] else (r.mget s keys >>= λ raw. collect ok keys raw [])

  unfoldable pub hmget_str_map : Text → List Text → Result X (List (Text × Text))
  unfolding collect
  hmget_str_map key fields =
      if is_empty fields then ok [] else (r.hmget s key fields >>= λ raw. collect ok fields raw [])
