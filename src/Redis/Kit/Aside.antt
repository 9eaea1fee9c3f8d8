-- ===== src/Redis/Kit/Aside.antt =====
-- What the cache-aside helpers return, and that a value that was written is found again.
use neon_rs.Base.{
  sym, subst, true, ltb, ◌^◌, ◌%◌, arith, ℕ, ◌≡◌, ◌<◌, refl, ◌∙◌, ◌⊎◌, inl, inr, Option, none, some,
}
use neon_rs.Base.Text.{Text}
use neon_rs.Base.Result.{Result, ok, err, Result-cases}
use neon_rs.Redis.Kit.{
  pos, as_i64, Ttl, no_key, no_expiry, left, Commands, Json, as_secs, expire_unset, after_hset,
  hset_script, write, hwrite, aside, get_or_set, hget_or_set,
}

-- What the documentation of the commands promises: a value that was set is read at once, and a
-- field too, also when its key was given some seconds to live.
pub record CommandsLaws {S X : Type 0} (r : Commands S X) : Type 0 where
  pub get_set :
      (s : S) (k v : Text) → (r.set s k v).1 ≡ ok tt → r.get (r.set s k v).0 k ≡ ok (some v)
  pub get_set_ex :
      (s : S) (k v : Text) (n : ℕ)
      → (r.set_ex s k v n).1 ≡ ok tt
      → r.get (r.set_ex s k v n).0 k ≡ ok (some v)
  pub hget_hset :
      (s : S) (k f v : Text)
      → (r.hset s k f v).1 ≡ ok tt
      → r.hget (r.hset s k f v).0 k f ≡ ok (some v)
  pub hget_expire :
      (s : S) (k f : Text) (n : ℕ) → 0 < n → r.hget (r.expire s k (pos n)).0 k f ≡ r.hget s k f

-- The seconds of a time to live, if there is one, are not 0 and fit an `i64`.
abbrev pub Lives : Option ℕ → Type 0
Lives none = Unit
Lives (some d) = (0 < as_secs d) × (as_secs d < 2 ^ 63)

as_i64-small : (n : ℕ) → n < 2 ^ 63 → as_i64 n ≡ pos n
as_i64-small n h =
    let whole : n % 2 ^ 64 ≡ n = omega (arith, h) in
    let below : ltb n (2 ^ 63) ≡ true = ground (arith, h) in rw (whole, below)

module _ {S X T : Type 0} (j : Json X T) where
  aside_miss :
      (s : S) (v : T) (text : Text) (put : Text → S × Result X (Unit {0}))
      → j.to_string v ≡ ok text
      → aside j s (ok none) (ok (some v)) put ≡ ((put text).0, ok (some v))
  unfolding aside
  aside_miss s v text put e = rw e refl

  aside_hit :
      (s : S) (found : Result X (Option Text)) (v : T) (text : Text) (loaded : Result X (Option T))
      (put : Text → S × Result X (Unit {0}))
      → found ≡ ok (some text)
      → j.from_str_option text ≡ ok (some v)
      → aside j s found loaded put ≡ (s, ok (some v))
  unfolding aside
  aside_hit s found v text loaded put e d = rw (e, d) refl

module _ {S X : Type 0} (r : Commands S X) (laws : CommandsLaws r) where
  get-write :
      (s : S) (k v : Text) (ttl : Option ℕ)
      → (write r s k v ttl).1 ≡ ok tt
      → r.get (write r s k v ttl).0 k ≡ ok (some v)
  unfolding write
  get-write s k v none h = laws.get_set s k v h
  get-write s k v (some d) h = laws.get_set_ex s k v (as_secs d) h

  hget-expire_unset :
      (s : S) (k f : Text) (n : ℕ) (t : Ttl)
      → 0 < n
      → r.hget (expire_unset r s k (pos n) t).0 k f ≡ r.hget s k f
  unfolding expire_unset
  hget-expire_unset s k f n no_key h = refl
  hget-expire_unset s k f n no_expiry h = laws.hget_expire s k f n h
  hget-expire_unset s k f n (left m) h = refl

  hget-after_hset :
      (s : S) (k f v : Text) (n : ℕ) (answer : Result X (Unit {0}))
      → 0 < n
      → (answer ≡ ok tt → r.hget s k f ≡ ok (some v))
      → (after_hset r s k (pos n) answer).1 ≡ ok tt
      → r.hget (after_hset r s k (pos n) answer).0 k f ≡ ok (some v)
  unfolding after_hset
  hget-after_hset s k f v n (ok u) pos_n set h =
      hget-expire_unset s k f n (r.ttl s k) pos_n ∙ set refl
  hget-after_hset s k f v n (err x) pos_n set h = cc

  hget-hwrite :
      (s : S) (k f v : Text) (ttl : Option ℕ)
      → Lives ttl
      → (hwrite r s k f v ttl).1 ≡ ok tt
      → r.hget (hwrite r s k f v ttl).0 k f ≡ ok (some v)
  unfolding hwrite hset_script
  hget-hwrite s k f v none l h = laws.hget_hset s k f v h
  hget-hwrite s k f v (some d) l h =
      let n = as_secs d in
      let same = as_i64-small n l.1 in
      subst
        (λ z.
          (hset_script r s k f v z).1 ≡ ok tt
          → r.hget (hset_script r s k f v z).0 k f ≡ ok (some v))
        (sym same)
        (hget-after_hset (r.hset s k f v).0 k f v n (r.hset s k f v).1 l.0 (laws.hget_hset s k f v))
        h

-- A call that filled the cache: what it returned, and what became of its write.
pub record Fills {S X T : Type 0}
    (again : S → Result X (Option T) → Option ℕ → S × Result X (Option T))
    (written : S × Result X (Unit {0})) (v : T) (first : S × Result X (Option T)) : Type 0 where
  pub returned : first.1 ≡ ok (some v)
  pub kept :
      ((x : X) × (written.1 ≡ err x))
      ⊎ ((loaded : Result X (Option T)) (ttl : Option ℕ)
          → again first.0 loaded ttl ≡ (first.0, ok (some v)))

module _ {S X T : Type 0} (r : Commands S X) (laws : CommandsLaws r) (j : Json X T) where
  -- On a miss, with a loader that returns a value which is encoded as a text that is read back as
  -- the value: `get_or_set` returns the value, and either the write fails, or the next call returns
  -- it too, whatever its loader and time to live, and changes nothing.
  pub get_or_set-Fills :
      (s : S) (key text : Text) (v : T) (ttl : Option ℕ)
      → r.get s key ≡ ok none
      → j.to_string v ≡ ok text
      → j.from_str_option text ≡ ok (some v)
      → Fills
          (λ s loaded ttl'. get_or_set r j s key loaded ttl')
          (write r s key text ttl)
          v
          (get_or_set r j s key (ok (some v)) ttl)
  unfolding get_or_set
  get_or_set-Fills s key text v ttl miss enc dec = record {
    returned = rw (miss, aside_miss j s v text (λ t. write r s key t ttl) enc) refl;
    kept = elim (Result-cases (write r s key text ttl).1) [
      | inr failed ↦ inl failed
      | inl (u, wrote) ↦ inr (λ loaded ttl'.
          rw (miss, aside_miss j s v text (λ t. write r s key t ttl) enc)
            (aside_hit j _ _ v text loaded _ (get-write r laws s key text ttl wrote) dec))
    ];
  }

  -- The same of `hget_or_set`, if its time to live, where there is one, is not below a second and
  -- its seconds fit an `i64`.
  pub hget_or_set-Fills :
      (s : S) (key field text : Text) (v : T) (ttl : Option ℕ)
      → Lives ttl
      → r.hget s key field ≡ ok none
      → j.to_string v ≡ ok text
      → j.from_str_option text ≡ ok (some v)
      → Fills
          (λ s loaded ttl'. hget_or_set r j s key field loaded ttl')
          (hwrite r s key field text ttl)
          v
          (hget_or_set r j s key field (ok (some v)) ttl)
  unfolding hget_or_set
  hget_or_set-Fills s key field text v ttl live miss enc dec = record {
    returned = rw (miss, aside_miss j s v text (λ t. hwrite r s key field t ttl) enc) refl;
    kept = elim (Result-cases (hwrite r s key field text ttl).1) [
      | inr failed ↦ inl failed
      | inl (u, wrote) ↦ inr (λ loaded ttl'.
          rw (miss, aside_miss j s v text (λ t. hwrite r s key field t ttl) enc)
            (aside_hit j _ _ v text loaded _ (hget-hwrite r laws s key field text ttl live wrote)
              dec))
    ];
  }
