-- ===== src/Redis/Lock/Backed.antt =====
-- Who gets the lock has its token on the server.
use neon_rs.Base.{
  ℕ, ◌+◌, ◌≤◌, ◌<◌, ◌≡◌, ◌≢◌, refl, ap, subst, ◌∙◌, true, Option, none, some, arith, inl, inr,
  Bool-cases,
}
use neon_rs.Base.Text.{Text, text_eq}
use neon_rs.Base.Result.{Result, ok, err}
use neon_rs.Redis.Lock.{
  Server, ServerLaws, RedLock, new, Reply, replied, reply_lost, not_sent, Try, LockError,
  ttl_millis, found, recheck, by_reply, set_nx, acquired, acquire, held_lock,
}

-- When the answer that gives the lock was read on the server.
abbrev pub answered_at : Try → Reply → ℕ
answered_at t replied = t.now
answered_at t _ = t.get_now

module _ {S : Type 0} (r : Server S) (laws : ServerLaws S r) where
  -- The token is on the server when the lock says that it holds it.
  abbrev pub Backed : RedLock → Try → ℕ → S × Result LockError RedLock → Type 0
  Backed l t time (s, err e) = Unit
  Backed l t time (s, ok l') =
      l'.token ≢ none → (l'.token ≡ some t.new_token) × (r.get s time l.key ≡ some t.new_token)

  found-Backed :
      (s : S) (l : RedLock) (t : Try) (o : Option Text)
      → l.token ≡ none
      → r.get s t.get_now l.key ≡ o
      → Backed l t t.get_now (s, found r l t.new_token o)
  unfolding found
  found-Backed s l t none fresh e = tt
  found-Backed s l t (some v) fresh e = elim (Bool-cases (text_eq.beq v t.new_token)) [
    | inl same ↦ rw same (λ h. (refl, e ∙ ap some ((text_eq.beq_iff v t.new_token).0 same)))
    | inr other ↦ rw other (λ h. absurd (h fresh))
  ]

  recheck-Backed :
      (s : S) (l : RedLock) (t : Try) → l.token ≡ none → Backed l t t.get_now (recheck r s l t)
  unfolding recheck
  recheck-Backed s l t fresh = elim (Bool-cases t.get_replied) [
    | inl heard ↦ simp heard (found-Backed s l t (r.get s t.get_now l.key) fresh refl)
    | inr lost ↦ simp lost tt
  ]

  -- A key that can be set is free, since a taken one is refused.
  set-free :
      (s : S) (now : ℕ) (k token : Text) (ttl : ℕ) (o : Option Text)
      → r.get s now k ≡ o
      → (r.set_nx s now k token ttl).1 ≡ true
      → r.get s now k ≡ none
  set-free s now k token ttl none e h = e
  set-free s now k token ttl (some v) e h =
      cc (ap (λ t. t.1) (laws.set_taken s now k token v ttl e), h)

  unfoldable pub Holds : S → Text → Text → ℕ → ℕ → Type 0
  Holds s key token from until = (t : ℕ) → from ≤ t → t < until → r.get s t key ≡ some token

  pub set-Holds :
      (s : S) (now : ℕ) (k token : Text) (ttl : ℕ)
      → (r.set_nx s now k token ttl).1 ≡ true
      → Holds (r.set_nx s now k token ttl).0 k token now (now + ttl)
  unfolding Holds
  set-Holds s now k token ttl h t a b =
      (laws.set_free s now k token ttl (set-free s now k token ttl (r.get s now k) refl h)).1 t a b

  by_reply-Backed :
      (s : S) (l : RedLock) (t : Try) (reply : Reply)
      → l.token ≡ none
      → Backed l t (answered_at t reply) (by_reply r s l t reply)
  unfolding by_reply Holds
  by_reply-Backed s l t replied fresh =
      elim (Bool-cases (r.set_nx s t.now l.key t.new_token (ttl_millis l.ttl)).1) [
        | inl set ↦ rw set (λ h. (
          refl,
          set-Holds s t.now l.key t.new_token (ttl_millis l.ttl) set t.now (omega arith)
              (omega arith),
        ))
        | inr not_set ↦ rw not_set (λ h. absurd (h fresh))
      ]
  by_reply-Backed s l t reply_lost fresh =
      recheck-Backed (r.set_nx s t.now l.key t.new_token (ttl_millis l.ttl)).0 l t fresh
  by_reply-Backed s l t not_sent fresh = recheck-Backed s l t fresh

  set_nx-Backed :
      (s : S) (l : RedLock) (t : Try)
      → l.token ≡ none
      → Backed l t (answered_at t t.reply) (set_nx r s l t)
  unfolding set_nx
  set_nx-Backed s l t fresh = elim (Bool-cases t.connected) [
    | inl on ↦ simp on (by_reply-Backed s l t t.reply fresh)
    | inr off ↦ simp off tt
  ]

  held-some :
      (m l' : RedLock) (o : Option Text)
      → m.token ≡ o
      → held_lock r m ≡ some l'
      → (m ≡ l') × (m.token ≢ none)
  held-some m l' none e h = cc
  held-some m l' (some token) e h = (cc (rw e at h), λ x. cc)

  acquired-Backed :
      (s' : S) (l l' : RedLock) (t : Try) (time : ℕ) (p : S × Result LockError RedLock)
      → Backed l t time p
      → acquired r p ≡ (s', ok (some l'))
      → (l'.token ≡ some t.new_token) × (r.get s' time l.key ≡ some t.new_token)
  unfolding acquired
  acquired-Backed s' l l' t time (s, err e) b h = cc
  acquired-Backed s' l l' t time (s, ok m) b h =
      let (same, has) = held-some m l' m.token refl (cc (ap (λ q. q.1) h)) in
      let (token, server) = b has in
      let state : s ≡ s' = ap (λ q. q.0) h in
      (
        subst (λ k. k.token ≡ some t.new_token) same token,
        subst (λ q. r.get q time l.key ≡ some t.new_token) state server,
      )

  -- A lock that `acquire` returns holds the fresh token, and so does the server, under the lock's
  -- key, at the time of the answer: also when the answer to `SET` was lost and the key read again.
  -- The lock is new, and the server keeps its laws.
  pub acquire-Backed :
      (s s' : S) (key : Text) (ttl : ℕ) (t : Try) (l : RedLock)
      → acquire r s (new key ttl) t ≡ (s', ok (some l))
      → (l.token ≡ some t.new_token) × (r.get s' (answered_at t t.reply) key ≡ some t.new_token)
  unfolding acquire new
  acquire-Backed s s' key ttl t l h =
      acquired-Backed s' (new key ttl) l t (answered_at t t.reply) (set_nx r s (new key ttl) t)
        (set_nx-Backed s (new key ttl) t refl) h
