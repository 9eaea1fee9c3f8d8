-- ===== src/Redis/Lock/Release.antt =====
-- Unlocking: the holder's own token only, and once.
use neon_rs.Base.{
  ℕ, ◌≡◌, ◌≢◌, ◌⊎◌, refl, sym, ap, subst, ◌∙◌, Bool, true, Option, none, some, inl, inr, Bool-cases,
}
use neon_rs.Base.Text.{Text, text_eq}
use neon_rs.Base.Result.{ok}
use neon_rs.Redis.Lock.{
  Server, ServerLaws, RedLock, Reply, replied, del_if, del_script, release, release_held, by_script,
}

module _ {S : Type 0} (r : Server S) (laws : ServerLaws S r) where
  own-deleted :
      (s : S) (key token : Text) (o : Option Text)
      → o ≡ some token
      → (t : ℕ) → r.get (del_if r s key token o) t key ≡ none
  unfolding del_if
  own-deleted s key token none e t = cc
  own-deleted s key token (some v) e t =
      let same : text_eq.beq v token ≡ true = (text_eq.beq_iff v token).1 (cc e) in
      rw same (laws.del_self s t key)

  other-kept :
      (s : S) (key token v : Text) (o : Option Text)
      → o ≡ some v
      → v ≢ token
      → del_if r s key token o ≡ s
  unfolding del_if
  other-kept s key token v none e n = refl
  other-kept s key token v (some w) e n = elim (Bool-cases (text_eq.beq w token)) [
    | inl same ↦ absurd (n (sym (cc e) ∙ (text_eq.beq_iff w token).0 same))
    | inr apart ↦ rw apart refl
  ]

  released :
      (s : S) (l : RedLock) (token : Text) (now : ℕ) (o : Option Text)
      → o ≡ some token
      → release_held r s l now true replied o
        ≡ (del_script r s now l.key token, ok (record l { token = none }))
  unfolding release_held by_script
  released s l token now none e = cc
  released s l token now (some t) e =
      ap (λ k. (del_script r s now l.key k, ok (record l { token = none }))) (cc e)

  outcome :
      (s : S) (l : RedLock) (token v : Text) (now later : ℕ)
      → r.get s now l.key ≡ some v
      → ((v ≡ token) × (r.get (del_if r s l.key token (r.get s now l.key)) later l.key ≡ none))
        ⊎ ((v ≢ token) × (del_if r s l.key token (r.get s now l.key) ≡ s))
  outcome s l token v now later h = elim (Bool-cases (text_eq.beq v token)) [
    | inl same ↦
        let ours = (text_eq.beq_iff v token).0 same in
        inl (ours, own-deleted s l.key token (r.get s now l.key) (h ∙ ap some ours) later)
    | inr apart ↦
        let theirs : v ≢ token = λ e. cc ((text_eq.beq_iff v token).1 e) in
        inr (theirs, other-kept s l.key token v (r.get s now l.key) h theirs)
  ]

  -- An answered `release` of a lock that holds a token, when the server has a value under its key:
  -- it succeeds and leaves the lock without its token. If the value was that token, the key is
  -- free at any time after; if it was another's, the server is as it was. Releasing the lock again
  -- changes nothing, whatever becomes of the commands. The server keeps its laws.
  pub release_once :
      (s : S) (l : RedLock) (token v : Text) (now later : ℕ) (connected : Bool) (reply : Reply)
      → l.token ≡ some token
      → r.get s now l.key ≡ some v
      → let (s', result) = release r s l now true replied in
        let freed = record l { token = none } in
        (result ≡ ok freed)
        × (((v ≡ token) × (r.get s' later l.key ≡ none)) ⊎ ((v ≢ token) × (s' ≡ s)))
        × (release r s' freed later connected reply ≡ (s', ok freed))
  unfolding release del_script release_held
  release_once s l token v now later connected reply e h =
      let done = released s l token now l.token e in
      let state : (release_held r s l now true replied l.token).0
          ≡ del_if r s l.key token (r.get s now l.key) =
        ap (λ p. p.0) done in
      (
        ap (λ p. p.1) done,
        subst (λ q. ((v ≡ token) × (r.get q later l.key ≡ none)) ⊎ ((v ≢ token) × (q ≡ s)))
            (sym state) (outcome s l token v now later h),
        refl,
      )
