-- ===== src/Redis/Tests.antt =====
-- A server that keeps an association list with times of expiry, and the lock's theorems on it.
mod Kit
use neon_rs.Base.{
  ℕ, ◌+◌, ◌≡◌, ◌≢◌, ◌⊎◌, refl, ap, ◌∙◌, Bool, true, false, Option, none, some, List, [], ◌∷◌, arith,
  ltb, if◌then◌else◌, inl, inr, Bool-cases,
}
use neon_rs.Base.Assoc.{get, insert, remove, get-insert, get-remove}
use neon_rs.Base.Text.{Text, text, text_eq}
use neon_rs.Base.Result.{ok}
use neon_rs.Redis.Lock.{
  Server, ServerLaws, RedLock, new, replied, reply_lost, Try, acquire, set_nx, release,
}
use neon_rs.Redis.Lock.Backed.{acquire-Backed}
use neon_rs.Redis.Lock.Release.{release_once}
use neon_rs.Redis.Lock.Exclusion.{Action, locks, unlocks, acts, acquire_excludes}

abbrev Store : Type 0
Store = List (Text × (Text × ℕ))

abbrev live : ℕ → Option (Text × ℕ) → Option Text
live now none = none
live now (some (token, expiry)) = if ltb now expiry then some token else none

abbrev set_if : Store → ℕ → Text → Text → ℕ → Option Text → Store × Bool
set_if s now k token ttl none = (insert k (token, now + ttl) s, true)
set_if s now k token ttl (some v) = (s, false)

abbrev store : Server Store
store = record {
  get = λ s now k. live now (get k s);
  set_nx = λ s now k token ttl. set_if s now k token ttl (live now (get k s));
  del = λ s k. remove k s;
}

distinct-beq : (k j : Text) → k ≢ j → text_eq.beq k j ≡ false
distinct-beq k j n = elim (Bool-cases (text_eq.beq k j)) [
  | inl same ↦ absurd (n ((text_eq.beq_iff k j).0 same))
  | inr apart ↦ apart
]

set_if-other :
    (s : Store) (now t : ℕ) (k j token : Text) (ttl : ℕ) (o : Option Text)
    → k ≢ j
    → live t (get j (set_if s now k token ttl o).0) ≡ live t (get j s)
set_if-other s now t k j token ttl none n =
    ap (live t) (get-insert k j (token, now + ttl) s ∙ rw (distinct-beq k j n) refl)
set_if-other s now t k j token ttl (some v) n = refl

removed : (s : Store) (k : Text) → get k (remove k s) ≡ none
removed s k =
    let same : text_eq.beq k k ≡ true = (text_eq.beq_iff k k).1 refl in
    get-remove k k s ∙ ap (λ b. if b then none else get k s) same

store-ServerLaws : ServerLaws Store store
store-ServerLaws = record {
  set_taken = λ s now k token v ttl e. rw e refl;
  set_free = λ s now k token ttl e. rw e (
    refl,
    λ t a b.
        ap (live t) (get-insert k k (token, now + ttl) s)
        ∙ rw ((text_eq.beq_iff k k).1 refl) (ground arith),
  );
  set_other = λ s now t k j token ttl n. set_if-other s now t k j token ttl (live now (get k s)) n;
  del_self = λ s t k. ap (live t) (removed s k);
  del_other = λ s t k j n. ap (live t) (get-remove k j s ∙ rw (distinct-beq k j n) refl);
}

abbrev mine : Try
mine = record {
  new_token = text "mine";
  connected = true;
  now = 100;
  reply = replied;
  get_now = 100;
  get_replied = true;
}

abbrev theirs : Try
theirs = record mine { new_token = text "theirs"; now = 150; get_now = 151; reply = reply_lost }

abbrev key : Text
key = text "job"

abbrev mine_held : Store
mine_held = (key, (text "mine", 1100)) ∷ []

abbrev my_lock : RedLock
my_lock = record { key = key; ttl = 1_000_000_000; token = some (text "mine"); prevented = false }

acquires : acquire store [] (new key 1_000_000_000) mine ≡ (mine_held, ok (some my_lock))
unfolding acquire set_nx new insert
acquires = refl

acquire-Backed_example :
    (my_lock.token ≡ some (text "mine")) × (store.get mine_held 100 key ≡ some (text "mine"))
acquire-Backed_example =
    acquire-Backed store store-ServerLaws [] mine_held key 1_000_000_000 mine my_lock acquires

abbrev busy : List Action
busy = locks (new key 5_000_000_000) theirs ∷ unlocks 300 key (text "theirs") ∷ []

acquire_excludes_example :
    (store.get (acts store mine_held busy) 400 key ≡ some (text "mine"))
    × (acquire store (acts store mine_held busy) (new key 9_000_000) theirs
        ≢ (mine_held, ok (some my_lock)))
acquire_excludes_example =
    acquire_excludes store store-ServerLaws [] mine_held mine_held key 1_000_000_000 9_000_000 400
      mine theirs my_lock my_lock busy acquires refl
      (
        (λ e. cc, (omega arith, omega arith), (omega arith, omega arith)),
        ((λ e. cc, (omega arith, omega arith)), tt),
      )
      (omega arith, omega arith) (λ e. cc, (omega arith, omega arith), (omega arith, omega arith))

release_once_example :
    let (s', result) = release store mine_held my_lock 200 true replied in
    let freed = record my_lock { token = none } in
    (result ≡ ok freed)
    × (((text "mine" ≡ text "mine") × (store.get s' 250 key ≡ none))
        ⊎ ((text "mine" ≢ text "mine") × (s' ≡ mine_held)))
    × (release store s' freed 250 true replied ≡ (s', ok freed))
release_once_example =
    release_once store store-ServerLaws mine_held my_lock (text "mine") (text "mine") 200 250 true
      replied refl refl
