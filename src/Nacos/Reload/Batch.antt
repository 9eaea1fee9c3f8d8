-- ===== src/Nacos/Reload/Batch.antt =====
-- A batch of updates is applied as a whole or not at all.
use neon_rs.Base.{
  ◌≡◌, ◌⊎◌, refl, sym, ◌∙◌, Bool, true, false, Option, none, some, List, [], ◌∷◌, ◌&&◌, arith,
  if◌then◌else◌, is_empty, inl, inr, Option-cases, Bool-cases,
}
use neon_rs.Base.Assoc.{get, insert, get-insert, get-remove, Keyed, insert-Keyed}
use neon_rs.Base.Eq.{contains, Distinct}
use neon_rs.Base.Text.{Text, text_eq}
use neon_rs.Base.Result.{Result, ok, err, Result-cases}
use neon_rs.Nacos.Source.{ConfigError}
use neon_rs.Nacos.Reload.{
  ConfigEntry, Entries, Watch, Shared, contains_key, install, conclude, restore_entry, restore,
  changed_data_ids, send_replace, send_to, send_all, merge_configs, apply_batch,
}
use neon_rs.Nacos.Reload.Merge.{merge_configs_ext}

-- What a key holds once the updates of a batch are put over the entries.
abbrev pub overlay : Entries → Entries → Text → Option ConfigEntry
overlay batch entries k = elim (get k batch) [ some entry ↦ some entry | none ↦ get k entries ]

install_get :
    (batch entries : Entries) (rollback : List (Text × Option ConfigEntry)) (k : Text)
    → Keyed batch
    → get k (install batch entries rollback).0 ≡ overlay batch entries k
unfolding install
install_get [] entries rollback k h = refl
install_get ((id, entry) ∷ batch) entries rollback k h =
    install_get batch (insert id entry entries) (insert id (get id entries) rollback) k h.1
    ∙ ground (arith, get-insert id k entry entries, text_eq.beq_iff id k)

install_rollback :
    (batch entries : Entries) (rollback : List (Text × Option ConfigEntry)) (k : Text)
    → Keyed batch
    → get k (install batch entries rollback).1
      ≡ (if contains_key batch k then some (get k entries) else get k rollback)
unfolding install
install_rollback [] entries rollback k h = refl
install_rollback ((id, entry) ∷ batch) entries rollback k h =
    install_rollback batch (insert id entry entries) (insert id (get id entries) rollback) k h.1
    ∙ ground (
      arith,
      get-insert id k entry entries,
      get-insert id k (get id entries) rollback,
      text_eq.beq_iff id k,
    )

install-Keyed :
    (batch entries : Entries) (rollback : List (Text × Option ConfigEntry))
    → Keyed rollback
    → Keyed (install batch entries rollback).1
unfolding install
install-Keyed [] entries rollback h = h
install-Keyed ((id, entry) ∷ batch) entries rollback h =
    install-Keyed batch (insert id entry entries) (insert id (get id entries) rollback)
      (insert-Keyed id (get id entries) rollback h)

restore_entry_get :
    (entries : Entries) (id k : Text) (previous : Option ConfigEntry)
    → get k (restore_entry entries id previous)
      ≡ (if text_eq.beq id k then previous else get k entries)
unfolding restore_entry
restore_entry_get entries id k (some entry) = get-insert id k entry entries
restore_entry_get entries id k none = get-remove id k entries

restore_get :
    (rollback : List (Text × Option ConfigEntry)) (entries : Entries) (k : Text)
    → Keyed rollback
    → get k (restore rollback entries)
      ≡ elim (get k rollback) [ some previous ↦ previous | none ↦ get k entries ]
unfolding restore
restore_get [] entries k h = refl
restore_get ((id, previous) ∷ rollback) entries k h =
    restore_get rollback (restore_entry entries id previous) k h.1
    ∙ ground (arith, restore_entry_get entries id k previous, text_eq.beq_iff id k)

-- Rolling back gives every key its entry again.
restore-install :
    (batch entries : Entries) (k : Text)
    → Keyed batch
    → get k (restore (install batch entries []).1 (install batch entries []).0) ≡ get k entries
restore-install batch entries k h =
    restore_get (install batch entries []).1 (install batch entries []).0 k
      (install-Keyed batch entries [] tt)
    ∙ ground (arith, install_get batch entries [] k h, install_rollback batch entries [] k h)

pub installed :
    (batch entries : Entries)
    → Keyed batch
    → (after : Entries) × ((k : Text) → get k after ≡ overlay batch entries k)
installed batch entries h = ((install batch entries []).0, λ k. install_get batch entries [] k h)

contains-changed :
    (batch : Entries) (ids : List Text) (k : Text)
    → contains (changed_data_ids batch ids) k ≡ (contains ids k && contains_key batch k)
unfolding changed_data_ids
contains-changed batch [] k = refl
contains-changed batch (id ∷ ids) k =
    ground (arith, contains-changed batch ids k, text_eq.beq_iff id k)

changed-Distinct :
    (batch : Entries) (ids : List Text) → Distinct ids → Distinct (changed_data_ids batch ids)
unfolding changed_data_ids
changed-Distinct batch [] h = tt
changed-Distinct batch (id ∷ ids) h = elim (Bool-cases (contains_key batch id)) [
  | inl changed ↦
      rw changed (contains-changed batch ids id ∙ rw h.0 refl, changed-Distinct batch ids h.1)
  | inr same ↦ rw same (changed-Distinct batch ids h.1)
]

module _ {Config : Type 0} where
  -- A subscriber's channel, after the new configuration if it is told of it.
  abbrev pub told : Bool → Config → Option (Watch Config) → Option (Watch Config)
  told true c (some w) = some (send_replace w c)
  told _ c o = o

  send_to_get :
      (id k : Text) (c : Config) (txs : List (Text × Watch Config))
      → get k (send_to id c txs (get id txs)) ≡ told (text_eq.beq id k) c (get k txs)
  unfolding send_to
  send_to_get id k c txs = elim (Option-cases (get id txs)) [
    | inl none_there ↦ rw none_there (ground (arith, text_eq.beq_iff id k))
    | inr (w, there) ↦
        rw there (get-insert id k (send_replace w c) txs ∙ ground (arith, text_eq.beq_iff id k))
  ]

  send_all_get :
      (ids : List Text) (k : Text) (c : Config) (txs : List (Text × Watch Config))
      → Distinct ids
      → get k (send_all ids c txs) ≡ told (contains ids k) c (get k txs)
  unfolding send_all
  send_all_get [] k c txs h = refl
  send_all_get (id ∷ ids) k c txs h =
      send_all_get ids k c (send_to id c txs (get id txs)) h.1
      ∙ ground (arith, send_to_get id k c txs, text_eq.beq_iff id k)

  pub record Applied (order : List Text) (batch : Entries) (c : Config) (s t : Shared Config)
      : Type 0 where
    pub published : t.tx ≡ send_replace s.tx c
    pub subscribers :
        (k : Text)
        → get k t.data_id_txs
          ≡ told (contains order k && contains_key batch k) c (get k s.data_id_txs)
    pub updated : (k : Text) → get k t.entries ≡ overlay batch s.entries k

  pub record RolledBack (s t : Shared Config) : Type 0 where
    pub kept : t.tx ≡ s.tx
    pub quiet : t.data_id_txs ≡ s.data_id_txs
    pub restored : (k : Text) → get k t.entries ≡ get k s.entries

module _ {Config X : Type 0} (build : List ConfigEntry → Result X Config) (order : List Text) where
  apply_batch_eq :
      (s : Shared Config) (batch : Entries)
      → is_empty batch ≡ false
      → apply_batch build order s batch
        ≡ conclude order batch s
            (install batch s.entries [])
            (merge_configs build order (install batch s.entries []).0)
  unfolding apply_batch
  apply_batch_eq s batch h = rw h refl

  conclude_ok :
      (s : Shared Config) (batch : Entries) (c : Config)
      → Keyed batch
      → Distinct order
      → Applied order batch c s (conclude {X = X} order batch s (install batch s.entries []) (ok c))
  unfolding conclude
  conclude_ok s batch c h d = record {
    published = refl;
    subscribers = λ k.
        send_all_get (changed_data_ids batch order) k c s.data_id_txs
          (changed-Distinct batch order d)
        ∙ rw (contains-changed batch order k) refl;
    updated = λ k. install_get batch s.entries [] k h;
  }

  conclude_err :
      (s : Shared Config) (batch : Entries) (e : ConfigError X)
      → Keyed batch
      → RolledBack s (conclude order batch s (install batch s.entries []) (err e))
  unfolding conclude
  conclude_err s batch e h = record {
    kept = refl;
    quiet = refl;
    restored = λ k. restore-install batch s.entries k h;
  }

  conclude_keeps :
      (s : Shared Config) (batch : Entries) (p : Entries × List (Text × Option ConfigEntry))
      (outcome : Result (ConfigError X) Config)
      → ((conclude order batch s p outcome).pending_updates ≡ s.pending_updates)
        × ((conclude order batch s p outcome).permit ≡ s.permit)
  unfolding conclude
  conclude_keeps s batch (entries, rollback) (ok c) = (refl, refl)
  conclude_keeps s batch (entries, rollback) (err e) = (refl, refl)

  pub apply_batch_keeps :
      (s : Shared Config) (batch : Entries)
      → is_empty batch ≡ false
      → ((apply_batch build order s batch).pending_updates ≡ s.pending_updates)
        × ((apply_batch build order s batch).permit ≡ s.permit)
  apply_batch_keeps s batch h = rw (apply_batch_eq s batch h) (
      conclude_keeps s batch (install batch s.entries [])
        (merge_configs build order (install batch s.entries []).0))

  -- A batch of updates, with no data id twice, is put over the entries. If these merge, the result
  -- is published once on the main channel and once to the subscribers of each data id in the batch,
  -- to no other, and the entries are updated; if not, the channels and every entry are as before.
  pub apply_batch_outcome :
      (s : Shared Config) (batch after : Entries)
      → Keyed batch
      → Distinct order
      → is_empty batch ≡ false
      → ((k : Text) → get k after ≡ overlay batch s.entries k)
      → ((c : Config) × (merge_configs build order after ≡ ok c)
          × Applied order batch c s (apply_batch build order s batch))
        ⊎ ((e : ConfigError X) × (merge_configs build order after ≡ err e)
            × RolledBack s (apply_batch build order s batch))
  apply_batch_outcome s batch after h d full over =
      let installed = (install batch s.entries []).0 in
      let same : merge_configs build order after ≡ merge_configs build order installed =
        merge_configs_ext build order after installed
          (λ k. over k ∙ sym (install_get batch s.entries [] k h)) in
      elim (Result-cases (merge_configs build order after)) [
        | inl (c, e) ↦
            inl (c, e, rw (apply_batch_eq s batch full, sym same ∙ e) (conclude_ok s batch c h d))
        | inr (x, e) ↦
            inr (x, e, rw (apply_batch_eq s batch full, sym same ∙ e) (conclude_err s batch x h))
      ]
