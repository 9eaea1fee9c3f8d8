-- ===== src/Redis/Lock.antt =====
-- crates/neon-redis/src/redlock.rs: `RedLock` and `AsyncRedLock`, which do the same over different
-- connections. The server is an interface: what the documentation of `GET`, `SET NX PX` and `DEL`
-- promises. Times are the server's, in milliseconds. Whether a connection is got and a reply
-- arrives is the environment's answer, as is the fresh token.
pub mod Backed
pub mod Exclusion
pub mod Release
use neon_rs.Base.{
  ℕ, zero, suc, ◌+◌, ◌-◌, ◌/◌, ◌^◌, ◌≤◌, ◌<◌, ◌≡◌, ◌≢◌, Bool, true, false, not, Option, none, some,
  min, max, if◌then◌else◌,
}
use neon_rs.Base.Text.{Text, text_eq}
use neon_rs.Base.Result.{Result, ok, err}

pub record Server (S : Type 0) : Type 0 where
  pub get : S → ℕ → Text → Option Text
  -- `SET key token NX PX ttl` at this time, and whether the key was set.
  pub set_nx : S → ℕ → Text → Text → ℕ → S × Bool
  pub del : S → Text → S

pub record ServerLaws (S : Type 0) (r : Server S) : Type 0 where
  pub set_taken :
      (s : S) (now : ℕ) (k token v : Text) (ttl : ℕ)
      → r.get s now k ≡ some v
      → r.set_nx s now k token ttl ≡ (s, false)
  pub set_free :
      (s : S) (now : ℕ) (k token : Text) (ttl : ℕ)
      → r.get s now k ≡ none
      → ((r.set_nx s now k token ttl).1 ≡ true)
        × ((t : ℕ)
            → now ≤ t
            → t < now + ttl
            → r.get (r.set_nx s now k token ttl).0 t k ≡ some token)
  pub set_other :
      (s : S) (now t : ℕ) (k j token : Text) (ttl : ℕ)
      → k ≢ j
      → r.get (r.set_nx s now k token ttl).0 t j ≡ r.get s t j
  pub del_self : (s : S) (t : ℕ) (k : Text) → r.get (r.del s k) t k ≡ none
  pub del_other : (s : S) (t : ℕ) (k j : Text) → k ≢ j → r.get (r.del s k) t j ≡ r.get s t j

pub record RedLock : Type 0 where
  pub key : Text
  -- In nanoseconds.
  pub ttl : ℕ
  pub token : Option Text
  pub prevented : Bool

unfoldable pub new : Text → ℕ → RedLock
new key ttl = record { key = key; ttl = ttl; token = none; prevented = false }

abbrev pub prevent : RedLock → RedLock
prevent l = record l { prevented = true }

abbrev pub ttl_millis : ℕ → ℕ
ttl_millis ttl = max (min (ttl / 1_000_000) (2 ^ 64 - 1)) 1

-- A command is answered, carried out without an answer, or never carried out.
pub data Reply : Type 0 where
  replied reply_lost not_sent : Reply

pub data LockError : Type 0 where
  no_connection set_failed get_failed script_failed : LockError

-- The environment of one `set_nx`: its fresh token, and what becomes of its commands.
pub record Try : Type 0 where
  pub new_token : Text
  pub connected : Bool
  pub now : ℕ
  pub reply : Reply
  pub get_now : ℕ
  pub get_replied : Bool

abbrev pub holding : RedLock → Text → Bool → RedLock
holding l token b = if b then record l { token = some token } else l

module _ {S : Type 0} (r : Server S) where
  found : RedLock → Text → Option Text → Result LockError RedLock
  found l token none = err set_failed
  found l token (some v) = ok (holding l token (text_eq.beq v token))

  -- After an error of `SET`: the key is read once.
  recheck : S → RedLock → Try → S × Result LockError RedLock
  unfolding found
  recheck s l t =
      (s, if t.get_replied then found l t.new_token (r.get s t.get_now l.key) else err get_failed)

  by_reply : S → RedLock → Try → Reply → S × Result LockError RedLock
  unfolding recheck
  by_reply s l t replied =
      let (s', set) = r.set_nx s t.now l.key t.new_token (ttl_millis l.ttl) in
      (s', ok (holding l t.new_token set))
  by_reply s l t reply_lost = recheck (r.set_nx s t.now l.key t.new_token (ttl_millis l.ttl)).0 l t
  by_reply s l t not_sent = recheck s l t

  unfoldable pub set_nx : S → RedLock → Try → S × Result LockError RedLock
  unfolding by_reply
  set_nx s l t = if t.connected then by_reply s l t t.reply else (s, err no_connection)

  abbrev pub held_lock : RedLock → Option RedLock
  held_lock l = elim l.token [ none ↦ none | some _ ↦ some l ]

  acquired : S × Result LockError RedLock → S × Result LockError (Option RedLock)
  acquired (s, err e) = (s, err e)
  acquired (s, ok l) = (s, ok (held_lock l))

  unfoldable pub acquire : S → RedLock → Try → S × Result LockError (Option RedLock)
  unfolding acquired
  acquire s l t = acquired (set_nx s l t)

  retried :
      (S → RedLock → S × Result LockError (Option RedLock))
      → S × Result LockError RedLock
      → S × Result LockError (Option RedLock)
  retried next (s, err e) = (s, err e)
  retried next (s, ok l) = elim l.token [ none ↦ next s l | some _ ↦ (s, ok (some l)) ]

  unfoldable pub try_acquire : S → RedLock → ℕ → (ℕ → Try) → S × Result LockError (Option RedLock)
  unfolding retried
  try_acquire s l zero tries = (s, ok none)
  try_acquire s l (suc attempts) tries =
      retried (λ s' l'. try_acquire s' l' attempts (λ k. tries (suc k))) (set_nx s l (tries 0))

  -- The script `DEL`: the key goes only while it holds this token.
  del_if : S → Text → Text → Option Text → S
  del_if s key token none = s
  del_if s key token (some v) = if text_eq.beq v token then r.del s key else s

  unfoldable pub del_script : S → ℕ → Text → Text → S
  unfolding del_if
  del_script s now key token = del_if s key token (r.get s now key)

  by_script : S → RedLock → ℕ → Text → Reply → S × Result LockError RedLock
  by_script s l now token replied = (del_script s now l.key token, ok l)
  by_script s l now token reply_lost = (del_script s now l.key token, err script_failed)
  by_script s l now token not_sent = (s, err script_failed)

  release_held : S → RedLock → ℕ → Bool → Reply → Option Text → S × Result LockError RedLock
  unfolding by_script
  release_held s l now connected reply none = (s, ok l)
  release_held s l now connected reply (some token) =
      if connected
      then by_script s (record l { token = none }) now token reply
      else (s, err no_connection)

  unfoldable pub release : S → RedLock → ℕ → Bool → Reply → S × Result LockError RedLock
  unfolding release_held
  release s l now connected reply = release_held s l now connected reply l.token
