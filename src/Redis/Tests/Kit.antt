-- ===== src/Redis/Tests/Kit.antt =====
-- A server of strings and hash fields, and the theorems on the cache-aside helpers on it.
use neon_rs.Base.{
  ◌^◌, ◌*◌, ◌+◌, ◌-◌, ℕ, zero, suc, ◌≡◌, ◌<◌, refl, ap, ◌∙◌, some, List, [], ◌∷◌, ◌++◌, arith, map,
}
use neon_rs.Base.Assoc.{get, insert, get-insert}
use neon_rs.Base.Text.{Text, text, text_eq}
use neon_rs.Base.Result.{ok, err}
use neon_rs.Redis.Kit.{
  ℤ, pos, negsuc, Commands, Json, no_expiry, get_or_set, hget_or_set, write, hwrite, mget_map,
}
use neon_rs.Redis.Kit.Aside.{CommandsLaws, Fills, hget_or_set-Fills}
use neon_rs.Redis.Kit.Maps.{Collected, mget_map-Collected}

-- Strings and fields stand in one list, a field under its key, a zero and its name.
abbrev Store : Type 0
Store = List (Text × Text)

abbrev at_field : Text → Text → Text
at_field k f = k ++ (0 ∷ f)

-- `EXPIRE`: a number of seconds that is not above 0 deletes.
abbrev live_for : ℤ → Store → Store
live_for (pos zero) s = []
live_for (pos (suc n)) s = s
live_for (negsuc n) s = []

abbrev commands : Commands Store Text
commands = record {
  get = λ s k. ok (get k s);
  set = λ s k v. (insert k v s, ok tt);
  set_ex =
      λ s k v n. elim n [ zero ↦ (s, err (text "invalid expire")) | suc m ↦ (insert k v s, ok tt) ];
  hget = λ s k f. ok (get (at_field k f) s);
  hset = λ s k f v. (insert (at_field k f) v s, ok tt);
  ttl = λ s k. no_expiry;
  expire = λ s k z. (live_for z s, ok tt);
  mget = λ s ks. ok (map (λ k. get k s) ks);
  hgetall = λ s k. ok [];
  hmget = λ s k fs. ok (map (λ f. get (at_field k f) s) fs);
}

stored : (s : Store) (k v : Text) → get k (insert k v s) ≡ some v
stored s k v = get-insert k k v s ∙ rw ((text_eq.beq_iff k k).1 refl) refl

live_for_pos : (n : ℕ) (s : Store) → 0 < n → live_for (pos n) s ≡ s
live_for_pos zero s h = absurd (omega arith)
live_for_pos (suc n) s h = refl

set_ex_stored :
    (s : Store) (k v : Text) (n : ℕ)
    → (commands.set_ex s k v n).1 ≡ ok tt
    → commands.get (commands.set_ex s k v n).0 k ≡ ok (some v)
set_ex_stored s k v zero h = cc
set_ex_stored s k v (suc n) h = ap ok (stored s k v)

commands-CommandsLaws : CommandsLaws commands
commands-CommandsLaws = record {
  get_set = λ s k v h. ap ok (stored s k v);
  get_set_ex = λ s k v n h. set_ex_stored s k v n h;
  hget_hset = λ s k f v h. ap ok (stored s (at_field k f) v);
  hget_expire = λ s k f n h. ap (λ m. ok (get (at_field k f) m)) (live_for_pos n s h);
}

-- A text stands for itself.
abbrev json : Json Text Text
json = record { from_str_option = λ t. ok (some t); from_str = λ t. ok t; to_string = λ t. ok t }

hget_or_set-Fills_example :
    Fills
      (λ s loaded ttl. hget_or_set commands json s (text "foo") (text "bar") loaded ttl)
      (hwrite commands [] (text "foo") (text "bar") (text "v") (some 60_000_000_000))
      (text "v")
      (hget_or_set commands json []
        (text "foo")
        (text "bar")
        (ok (some (text "v")))
        (some 60_000_000_000))
hget_or_set-Fills_example =
    hget_or_set-Fills commands commands-CommandsLaws json [] (text "foo") (text "bar") (text "v")
      (text "v") (some 60_000_000_000) (omega arith, omega arith) refl refl refl

-- With a time to live below a second the value is not kept: the string is not set, and the hash
-- expires at once.
below_a_second :
    ((get_or_set commands json [] (text "k") (ok (some (text "v"))) (some 500_000_000)).0 ≡ [])
    × ((hget_or_set commands json []
          (text "k")
          (text "f")
          (ok (some (text "v")))
          (some 500_000_000)).0
        ≡ [])
unfolding get_or_set hget_or_set write hwrite insert
below_a_second = (refl, refl)

-- As is one whose time to live is the longest there is, whose seconds are -1 as an `i64`.
longest :
    (hget_or_set commands json []
      (text "k")
      (text "f")
      (ok (some (text "v")))
      (some ((2 ^ 64 - 1) * 1_000_000_000 + 999_999_999))).0
    ≡ []
unfolding hget_or_set hwrite insert
longest = refl

abbrev two_keys : Store
two_keys = (text "a", text "1") ∷ (text "b", text "2") ∷ []

mget_map-Collected_example :
    Collected json.from_str
      (text "a" ∷ text "c" ∷ [])
      (λ k. get k two_keys)
      []
      (mget_map commands json two_keys (text "a" ∷ text "c" ∷ []))
mget_map-Collected_example =
    mget_map-Collected commands json two_keys (text "a" ∷ text "c" ∷ []) (λ k. get k two_keys) refl
