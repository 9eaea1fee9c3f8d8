-- ===== src/Nacos/Worker/Upcoming.antt =====
-- What the entries will hold once the worker has merged what it was given, where all of it parses.
use neon_rs.Base.{
  All, Option-cases, ◌≡◌, refl, sym, subst, ◌∙◌, true, false, Option, none, some, List, [], ◌∷◌,
  arith, if◌then◌else◌, is_empty, inl, inr, Bool-cases,
}
use neon_rs.Base.Assoc.{insert, get, get-insert, Keyed}
use neon_rs.Base.Eq.{Distinct}
use neon_rs.Base.Text.{Text, text_eq}
use neon_rs.Base.Result.{Result, ok}
use neon_rs.Nacos.Reload.{
  ConfigEntry, Entries, ConfigResponse, Settings, Shared, accept, merge_configs, apply_batch,
}
use neon_rs.Nacos.Reload.Merge.{Holds, merge_configs_total}
use neon_rs.Nacos.Reload.Batch.{overlay, apply_batch_keeps, apply_batch_outcome, installed}
use neon_rs.Nacos.Worker.{
  Phase, waiting, draining, applying, System, arrive_as, announce, work, work_in, runnable_in, Step,
  announces, works,
}
use neon_rs.Nacos.Worker.Settles.{AwakeIn, Awake}
use neon_rs.Nacos.Worker.Sync.{InSync, in_hand}

overlay-Holds :
    (P : ConfigEntry → Type 0) (batch entries : Entries)
    → Holds P batch
    → Holds P entries
    → (k : Text) (e : ConfigEntry) → overlay batch entries k ≡ some e
    → P e
overlay-Holds P batch entries hb he k e h = elim (Option-cases (get k batch)) [
  | inl untouched ↦ he k e (rw (overlay, untouched) at h)
  | inr (x, touched) ↦
      let same : x ≡ e = cc (rw (overlay, touched) at h) in subst P same (hb k x touched)
]

overlay-none :
    (batch entries : Entries) (k : Text) → overlay batch entries k ≡ none → get k entries ≡ none
overlay-none batch entries k h = ground arith

-- What a data id holds after these responses, the latest first.
abbrev pub newest : Text → Option (Text × ConfigEntry) → Option ConfigEntry → Option ConfigEntry
newest k none before = before
newest k (some (id, entry)) before = if text_eq.beq id k then some entry else before

abbrev pub latest : Settings → List ConfigResponse → Entries → Text → Option ConfigEntry
latest o [] entries k = get k entries
latest o (r ∷ rs) entries k = newest k (accept o r) (latest o rs entries k)

-- What a data id will hold once the worker is done.
abbrev pub upcoming_in : {Config : Type 0} → System Config → Phase → Text → Option ConfigEntry
upcoming_in s p k = elim (get k s.shared.pending_updates) [
  | some entry ↦ some entry
  | none ↦ overlay (in_hand p) s.shared.entries k
]

abbrev pub upcoming : {Config : Type 0} → System Config → Text → Option ConfigEntry
upcoming s k = upcoming_in s s.phase k

-- Every entry that the worker has or is given is one of these.
pub record Sound (P : ConfigEntry → Type 0) {Config : Type 0} (s : System Config) : Type 0 where
  pub held : Holds P s.shared.entries
  pub pending : Holds P s.shared.pending_updates
  pub taken : Holds P (in_hand s.phase)

module _ {Config X : Type 0} (build : List ConfigEntry → Result X Config) (order : List Text)
    (P : ConfigEntry → Type 0)
    (builds : (sources : List ConfigEntry)
      → All P sources
      → (c : Config) × (build sources ≡ ok c)) where
  apply_batch-overlay :
      (s : Shared Config) (batch : Entries) (j : Text)
      → Holds P batch
      → Holds P s.entries
      → Keyed batch
      → Distinct order
      → is_empty batch ≡ false
      → merge_configs build order s.entries ≡ ok s.tx.value
      → get j (apply_batch build order s batch).entries ≡ overlay batch s.entries j
  apply_batch-overlay s batch j hb he k d full m =
      let (after, over) = installed batch s.entries k in
      let (c, e) =
        merge_configs_total build P order s.entries after s.tx.value builds
          (λ i x there. overlay-Holds P batch s.entries hb he i x (sym (over i) ∙ there))
          (λ i lost. overlay-none batch s.entries i (sym (over i) ∙ lost)) m in
      elim (apply_batch_outcome build order s batch after k d full over) [
        | inl (c', e', a) ↦ a.updated j
        | inr (x, e', r) ↦ cc
      ]

  work_in-upcoming :
      (s : System Config) (p : Phase) (k : Text)
      → Holds P (in_hand p)
      → Holds P s.shared.entries
      → Distinct order
      → AwakeIn s p
      → InSync build order s
      → Keyed (in_hand p)
      → runnable_in s.shared.permit p ≡ true
      → upcoming (work_in build order s p) k ≡ upcoming_in s p k
  unfolding work_in
  work_in-upcoming s waiting k hb he d a i b h = rw h refl
  work_in-upcoming s draining k hb he d a i b h =
      elim (Bool-cases (is_empty s.shared.pending_updates)) [
        | inl none_there ↦ rw none_there refl
        | inr some_there ↦ rw some_there refl
      ]
  work_in-upcoming s (applying batch) k hb he d a i b h = ground (
    arith,
    apply_batch-overlay s.shared batch k hb he b d a i.merged,
    apply_batch_keeps build order s.shared batch a,
  )

  work_in-Sound :
      (s : System Config) (p : Phase)
      → Sound P s
      → Holds P (in_hand p)
      → Distinct order
      → AwakeIn s p
      → InSync build order s
      → Keyed (in_hand p)
      → runnable_in s.shared.permit p ≡ true
      → Sound P (work_in build order s p)
  unfolding work_in
  work_in-Sound s waiting g t d a i b h =
      rw h (record { held = g.held; pending = g.pending; taken = λ k e there. cc })
  work_in-Sound s draining g t d a i b h = elim (Bool-cases (is_empty s.shared.pending_updates)) [
    | inl none_there ↦
        rw none_there (record { held = g.held; pending = g.pending; taken = λ k e there. cc })
    | inr some_there ↦
        rw some_there (record { held = g.held; pending = λ k e there. cc; taken = g.pending })
  ]
  work_in-Sound s (applying batch) g t d a i b h = record {
    held = λ k e there.
        overlay-Holds P batch s.shared.entries t g.held k e
          (sym (apply_batch-overlay s.shared batch k t g.held b d a i.merged) ∙ there);
    pending = subst (Holds P) (sym (apply_batch_keeps build order s.shared batch a).0) g.pending;
    taken = λ k e there. cc;
  }

  pub Step-upcoming :
      {s t : System Config} (k : Text)
      → Sound P s
      → Distinct order
      → Awake s
      → InSync build order s
      → Step build order s t
      → upcoming t k ≡ upcoming s k
  unfolding work announce
  Step-upcoming {s} k g d a i (announces n e) = refl
  Step-upcoming {s} k g d a i (works h) =
      work_in-upcoming s s.phase k g.taken g.held d a i i.in_hand-Keyed h

  pub Step-Sound :
      {s t : System Config}
      → Sound P s
      → Distinct order
      → Awake s
      → InSync build order s
      → Step build order s t
      → Sound P t
  unfolding work announce
  Step-Sound {s} g d a i (announces n e) = record {
    held = g.held;
    pending = g.pending;
    taken = g.taken;
  }
  Step-Sound {s} g d a i (works h) = work_in-Sound s s.phase g g.taken d a i i.in_hand-Keyed h

insert-Holds :
    (P : ConfigEntry → Type 0) (m : Entries) (id : Text) (entry : ConfigEntry)
    → P entry
    → Holds P m
    → Holds P (insert id entry m)
insert-Holds P m id entry p h k e there = elim (Bool-cases (text_eq.beq id k)) [
  | inl same ↦
      let found : some entry ≡ some e = sym (get-insert id k entry m ∙ rw same refl) ∙ there in
      let same_entry : entry ≡ e = cc in subst P same_entry p
  | inr other ↦ h k e (sym (get-insert id k entry m ∙ rw other refl) ∙ there)
]

pub arrive_as-Sound :
    (P : ConfigEntry → Type 0) {Config : Type 0} (s : System Config)
    (u : Option (Text × ConfigEntry))
    → ((id : Text) (e : ConfigEntry) → u ≡ some (id, e) → P e)
    → Sound P s
    → Sound P (arrive_as s u)
unfolding arrive_as
arrive_as-Sound P s none p g = g
arrive_as-Sound P s (some (id, entry)) p g = record {
  held = g.held;
  pending = λ k e there.
      insert-Holds P s.shared.pending_updates id entry (p id entry refl) g.pending k e there;
  taken = g.taken;
}

pub arrive_as-upcoming :
    {Config : Type 0} (s : System Config) (u : Option (Text × ConfigEntry)) (k : Text)
    → upcoming (arrive_as s u) k ≡ newest k u (upcoming s k)
unfolding arrive_as
arrive_as-upcoming s none k = refl
arrive_as-upcoming s (some (id, entry)) k =
    ground (arith, get-insert id k entry s.shared.pending_updates)
