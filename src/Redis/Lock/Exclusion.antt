-- ===== src/Redis/Lock/Exclusion.antt =====
-- Who gets the lock keeps it until it expires, whatever others do.
use neon_rs.Base.{
  ℕ, ◌+◌, ◌≤◌, ◌<◌, ◌≡◌, ◌≢◌, refl, sym, ap, subst, ◌∙◌, Option, none, some, List, [], ◌∷◌, All,
  inl, inr, Bool-cases,
}
use neon_rs.Base.Text.{Text, text_eq}
use neon_rs.Base.Result.{Result, ok, err}
use neon_rs.Redis.Lock.{
  Server, ServerLaws, RedLock, new, Reply, replied, reply_lost, not_sent, Try, LockError,
  ttl_millis, del_if, recheck, by_reply, set_nx, acquired, acquire, del_script,
}
use neon_rs.Redis.Lock.Backed.{answered_at, Holds, set-Holds, acquire-Backed}

-- What other clients do to the server: try to lock, or run the script that unlocks a key.
pub data Action : Type 0 where
  locks : RedLock → Try → Action
  unlocks : ℕ → Text → Text → Action

abbrev pub Within : ℕ → ℕ → ℕ → Type 0
Within from until t = (from ≤ t) × (t < until)

-- An action with another token, while the lock lasts.
abbrev pub Foreign : Text → ℕ → ℕ → Action → Type 0
Foreign token from until (locks l t) =
    (t.new_token ≢ token) × Within from until t.now × Within from until t.get_now
Foreign token from until (unlocks now key other) = (other ≢ token) × Within from until now

module _ {S : Type 0} (r : Server S) where
  abbrev pub act : S → Action → S
  act s (locks l t) = (set_nx r s l t).0
  act s (unlocks now key token) = del_script r s now key token

  abbrev pub acts : S → List Action → S
  acts s [] = s
  acts s (a ∷ rest) = acts (act s a) rest

module _ {S : Type 0} (r : Server S) (laws : ServerLaws S r) where
  some_injective : {a b : Text} → some a ≡ some b → a ≡ b
  some_injective e = cc

  set-keeps :
      (s : S) (key token : Text) (from until now : ℕ) (k other : Text) (ttl : ℕ)
      → Within from until now
      → Holds r laws s key token from until
      → Holds r laws (r.set_nx s now k other ttl).0 key token from until
  unfolding Holds
  set-keeps s key token from until now k other ttl w h t a b =
      elim (Bool-cases (text_eq.beq k key)) [
        | inl same ↦
            let taken : r.get s now k ≡ some token =
              ap (r.get s now) ((text_eq.beq_iff k key).0 same) ∙ h now w.0 w.1 in
            ap (λ p. r.get p.0 t key) (laws.set_taken s now k other token ttl taken) ∙ h t a b
        | inr apart ↦
            laws.set_other s now t k key other ttl (λ e. cc ((text_eq.beq_iff k key).1 e)) ∙ h t a b
      ]

  del_if-keeps :
      (s : S) (key token : Text) (now t : ℕ) (k other : Text) (o : Option Text)
      → other ≢ token
      → r.get s now k ≡ o
      → r.get s now key ≡ some token
      → r.get s t key ≡ some token
      → r.get (del_if r s k other o) t key ≡ some token
  unfolding del_if
  del_if-keeps s key token now t k other none n e g h = h
  del_if-keeps s key token now t k other (some v) n e g h =
      elim (Bool-cases (text_eq.beq v other)) [
        | inr differs ↦ rw differs h
        | inl match_ ↦ rw match_ (elim (Bool-cases (text_eq.beq k key)) [
          | inr apart ↦ laws.del_other s t k key (λ x. cc ((text_eq.beq_iff k key).1 x)) ∙ h
          | inl same ↦
              let ours : some v ≡ some token =
                sym e ∙ ap (r.get s now) ((text_eq.beq_iff k key).0 same) ∙ g in
              absurd (n (sym ((text_eq.beq_iff v other).0 match_) ∙ some_injective ours))
        ])
      ]

  script-keeps :
      (s : S) (key token : Text) (from until now : ℕ) (k other : Text)
      → other ≢ token
      → Within from until now
      → Holds r laws s key token from until
      → Holds r laws (del_script r s now k other) key token from until
  unfolding del_script Holds
  script-keeps s key token from until now k other n w h t a b =
      del_if-keeps s key token now t k other (r.get s now k) n refl (h now w.0 w.1) (h t a b)

  reply-keeps :
      (s : S) (key token : Text) (from until : ℕ) (l : RedLock) (t : Try) (reply : Reply)
      → Within from until t.now
      → Holds r laws s key token from until
      → Holds r laws (by_reply r s l t reply).0 key token from until
  unfolding by_reply recheck
  reply-keeps s key token from until l t replied w h =
      set-keeps s key token from until t.now l.key t.new_token (ttl_millis l.ttl) w h
  reply-keeps s key token from until l t reply_lost w h =
      set-keeps s key token from until t.now l.key t.new_token (ttl_millis l.ttl) w h
  reply-keeps s key token from until l t not_sent w h = h

  act-keeps :
      (s : S) (key token : Text) (from until : ℕ) (a : Action)
      → Foreign token from until a
      → Holds r laws s key token from until
      → Holds r laws (act r s a) key token from until
  unfolding set_nx
  act-keeps s key token from until (unlocks now k other) f h =
      script-keeps s key token from until now k other f.0 f.1 h
  act-keeps s key token from until (locks l t) f h = elim (Bool-cases t.connected) [
    | inl on ↦
        let e : (set_nx r s l t).0 ≡ (by_reply r s l t t.reply).0 = simp on refl in
        subst (λ q. Holds r laws q key token from until) (sym e)
          (reply-keeps s key token from until l t t.reply f.1 h)
    | inr off ↦
        let e : (set_nx r s l t).0 ≡ s = simp off refl in
        subst (λ q. Holds r laws q key token from until) (sym e) h
  ]

  acts-keep :
      (s : S) (key token : Text) (from until : ℕ) (rest : List Action)
      → All (Foreign token from until) rest
      → Holds r laws s key token from until
      → Holds r laws (acts r s rest) key token from until
  acts-keep s key token from until [] f h = h
  acts-keep s key token from until (a ∷ rest) f h =
      acts-keep (act r s a) key token from until rest f.1 (act-keeps s key token from until a f.0 h)

  acquired-state : (p : S × Result LockError RedLock) → (acquired r p).0 ≡ p.0
  unfolding acquired
  acquired-state (s, err e) = refl
  acquired-state (s, ok l) = refl

  answered-Within :
      (from until : ℕ) (t : Try) (reply : Reply)
      → Within from until t.now
      → Within from until t.get_now
      → Within from until (answered_at t reply)
  answered-Within from until t replied a b = a
  answered-Within from until t reply_lost a b = b
  answered-Within from until t not_sent a b = b

  refused :
      (s s' : S) (key token : Text) (from until ttl : ℕ) (t : Try) (m : RedLock)
      → Foreign token from until (locks (new key ttl) t)
      → Holds r laws s key token from until
      → acquire r s (new key ttl) t ≢ (s', ok (some m))
  unfolding Holds acquire
  refused s s' key token from until ttl t m f h e =
      let state : (set_nx r s (new key ttl) t).0 ≡ s' =
        sym (acquired-state (set_nx r s (new key ttl) t)) ∙ ap (λ p. p.0) e in
      let time = answered_at t t.reply in
      let w = answered-Within from until t t.reply f.1 f.2 in
      let theirs = (acquire-Backed r laws s s' key ttl t m e).1 in
      let ours = act-keeps s key token from until (locks (new key ttl) t) f h time w.0 w.1 in
      f.0 (some_injective (sym theirs ∙ sym (ap (λ q. r.get q time key) state) ∙ ours))

  answered-Holds :
      (s s' : S) (key : Text) (ttl : ℕ) (t : Try) (l : RedLock)
      → acquired r (by_reply r s (new key ttl) t replied) ≡ (s', ok (some l))
      → Holds r laws
          (by_reply r s (new key ttl) t replied).0
          key
          t.new_token
          t.now
          (t.now + ttl_millis ttl)
  unfolding by_reply acquired new
  answered-Holds s s' key ttl t l e =
      elim (Bool-cases (r.set_nx s t.now key t.new_token (ttl_millis ttl)).1) [
        | inl set ↦ set-Holds r laws s t.now key t.new_token (ttl_millis ttl) set
        | inr not_set ↦ cc (rw not_set at (ap (λ p. p.1) e))
      ]

  acquire-Holds :
      (s s' : S) (key : Text) (ttl : ℕ) (t : Try) (l : RedLock)
      → acquire r s (new key ttl) t ≡ (s', ok (some l))
      → t.reply ≡ replied
      → Holds r laws s' key t.new_token t.now (t.now + ttl_millis ttl)
  unfolding acquire set_nx acquired
  acquire-Holds s s' key ttl t l e answered = elim (Bool-cases t.connected) [
    | inr off ↦ cc (simp off at e)
    | inl on ↦
        let f : acquired r (by_reply r s (new key ttl) t replied) ≡ (s', ok (some l)) =
          simp (on, answered) at e in
        subst (λ q. Holds r laws q key t.new_token t.now (t.now + ttl_millis ttl))
          (sym (acquired-state (by_reply r s (new key ttl) t replied)) ∙ ap (λ p. p.0) f)
          (answered-Holds s s' key ttl t l f)
  ]

  -- A lock that was got by an answered `SET` excludes others until it expires: whatever they do
  -- meanwhile with tokens of their own, locking or unlocking this key or others, and whatever
  -- replies they lose, the key has the holder's token at any time before it expires, and another
  -- who asks for the key then does not get it. The server keeps its laws, and the holder does not
  -- unlock.
  pub acquire_excludes :
      (s held s' : S) (key : Text) (ttl other_ttl time : ℕ) (t u : Try) (l m : RedLock)
      (others : List Action)
      → acquire r s (new key ttl) t ≡ (held, ok (some l))
      → t.reply ≡ replied
      → All (Foreign t.new_token t.now (t.now + ttl_millis ttl)) others
      → Within t.now (t.now + ttl_millis ttl) time
      → Foreign t.new_token t.now (t.now + ttl_millis ttl) (locks (new key other_ttl) u)
      → let later = acts r held others in
        (r.get later time key ≡ some t.new_token)
        × (acquire r later (new key other_ttl) u ≢ (s', ok (some m)))
  unfolding Holds
  acquire_excludes s held s' key ttl other_ttl time t u l m others e answered f w g =
      let until = t.now + ttl_millis ttl in
      let kept =
        acts-keep held key t.new_token t.now until others f
          (acquire-Holds s held key ttl t l e answered) in
      (
        kept time w.0 w.1,
        refused (acts r held others) s' key t.new_token t.now until other_ttl u m g kept,
      )
