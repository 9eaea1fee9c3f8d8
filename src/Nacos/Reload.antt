-- ===== src/Nacos/Reload.antt =====
-- crates/neon-config/src/nacos/config.rs: `merge_configs`, `ReloadListener` and its worker. The
-- builder of the `config` crate is the parameter `build`. `entries` is locked by `apply_batch`
-- alone, and `pending_updates` for one operation at a time, so that a step here is what one lock
-- covers; `Notify` is its permit. A `watch` channel is its value and its version.
pub mod Merge
pub mod Batch
use neon_rs.Base.{
  ℕ, zero, suc, ◌+◌, ◌≡◌, Bool, true, false, Option, none, some, List, [], ◌∷◌, if◌then◌else◌,
  is_empty,
}
use neon_rs.Base.Assoc.{get, insert, remove}
use neon_rs.Base.Text.{Text, text_eq}
use neon_rs.Base.Result.{Result, ok, err, ◌>>=◌}
use neon_rs.Nacos.Format.{Format, or_else, resolve_format_for_entry}
use neon_rs.Nacos.Source.{
  ConfigError, missing_data_id_entry, invalid_nacos_source, nothing_to_merge, parse,
}

pub record ConfigEntry : Type 0 where
  pub content : Text
  pub format : Format

abbrev pub Entries : Type 0
Entries = List (Text × ConfigEntry)

-- `nacos_sdk`'s `ConfigResponse`, as far as it is read.
pub record ConfigResponse : Type 0 where
  pub data_id : Text
  pub content : Text
  pub content_type : Text

pub record Watch (Config : Type 0) : Type 0 where
  pub value : Config
  pub version : ℕ

-- What `ReloadListener` is made with.
pub record Settings : Type 0 where
  pub default_format : Option Format
  pub data_id_formats : List (Text × Format)
  pub data_id_order : List Text

-- What `ReloadListener` shares, and the permit of its `Notify`.
pub record Shared (Config : Type 0) : Type 0 where
  pub tx : Watch Config
  pub data_id_txs : List (Text × Watch Config)
  pub entries : Entries
  pub pending_updates : Entries
  pub permit : Bool

module _ {X : Type 0} where
  with_entry :
      Text
      → Option ConfigEntry
      → Result (ConfigError X) (List ConfigEntry)
      → Result (ConfigError X) (List ConfigEntry)
  with_entry id none rest = err (missing_data_id_entry id)
  with_entry id (some entry) rest = rest >>= λ entries. ok (entry ∷ entries)

  -- The entries in the order of merging.
  gather : List Text → Entries → Result (ConfigError X) (List ConfigEntry)
  unfolding with_entry
  gather [] entries = ok []
  gather (id ∷ ids) entries = with_entry id (get id entries) (gather ids entries)

abbrev pub contains_key : Entries → Text → Bool
contains_key m id = elim (get id m) [ none ↦ false | some _ ↦ true ]

-- The first loop of `apply_batch`: the new entries, and those to roll back to.
install :
    Entries
    → Entries
    → List (Text × Option ConfigEntry)
    → Entries × List (Text × Option ConfigEntry)
install [] entries rollback = (entries, rollback)
install ((id, entry) ∷ batch) entries rollback =
    install batch (insert id entry entries) (insert id (get id entries) rollback)

restore_entry : Entries → Text → Option ConfigEntry → Entries
restore_entry entries id (some entry) = insert id entry entries
restore_entry entries id none = remove id entries

restore : List (Text × Option ConfigEntry) → Entries → Entries
unfolding restore_entry
restore [] entries = entries
restore ((id, previous) ∷ rollback) entries = restore rollback (restore_entry entries id previous)

changed_data_ids : Entries → List Text → List Text
changed_data_ids batch [] = []
changed_data_ids batch (id ∷ ids) =
    let rest = changed_data_ids batch ids in if contains_key batch id then id ∷ rest else rest

module _ {Config : Type 0} where
  abbrev pub send_replace : Watch Config → Config → Watch Config
  send_replace w c = record { value = c; version = suc w.version }

  send_to :
      Text
      → Config
      → List (Text × Watch Config)
      → Option (Watch Config)
      → List (Text × Watch Config)
  send_to id c txs none = txs
  send_to id c txs (some w) = insert id (send_replace w c) txs

  send_all : List Text → Config → List (Text × Watch Config) → List (Text × Watch Config)
  unfolding send_to
  send_all [] c txs = txs
  send_all (id ∷ ids) c txs = send_all ids c (send_to id c txs (get id txs))

  -- The sources' senders as `build_remote` makes them.
  open_all : List Text → Config → List (Text × Watch Config) → List (Text × Watch Config)
  open_all [] c txs = txs
  open_all (id ∷ ids) c txs = open_all ids c (insert id (record { value = c; version = 0 }) txs)

  unfoldable pub new_shared : List Text → Entries → Config → Shared Config
  unfolding open_all
  new_shared order entries c = record {
    tx = record { value = c; version = 0 };
    data_id_txs = open_all order c [];
    entries = entries;
    pending_updates = [];
    permit = false;
  }

  abbrev pub notify_one : Shared Config → Shared Config
  notify_one s = record s { permit = true }

  abbrev pub stage : Shared Config → Text → ConfigEntry → Shared Config
  stage s id entry = record s { pending_updates = insert id entry s.pending_updates }

  unfoldable pub enqueue_update : Shared Config → Text → ConfigEntry → Shared Config
  enqueue_update s id entry = notify_one (stage s id entry)

-- The update that a response stands for, if its format can be told.
unfoldable pub accept : Settings → ConfigResponse → Option (Text × ConfigEntry)
accept o r =
    let asked = or_else (get r.data_id o.data_id_formats) o.default_format in
    elim (resolve_format_for_entry asked r.data_id (some r.content_type)) [
      | none ↦ none
      | some f ↦ some (r.data_id, record { content = r.content; format = f })
    ]

unfoldable pub notify :
    {Config : Type 0} → Settings → Shared Config → ConfigResponse → Shared Config
unfolding accept enqueue_update
notify o s r = elim (accept o r) [ none ↦ s | some (id, entry) ↦ enqueue_update s id entry ]

module _ {Config X : Type 0} where
  unfoldable pub parsed : Result X Config → Result (ConfigError X) Config
  parsed (ok c) = ok c
  parsed (err x) = err (parse x)

  -- What `apply_batch` does with the outcome of the merge.
  conclude :
      List Text
      → Entries
      → Shared Config
      → Entries × List (Text × Option ConfigEntry)
      → Result (ConfigError X) Config
      → Shared Config
  unfolding restore send_all changed_data_ids
  conclude order batch s (entries, rollback) (ok c) = record s {
    tx = send_replace s.tx c;
    data_id_txs = send_all (changed_data_ids batch order) c s.data_id_txs;
    entries = entries;
  }
  conclude order batch s (entries, rollback) (err e) = record s {
    entries = restore rollback entries;
  }

module _ {Config X : Type 0} (build : List ConfigEntry → Result X Config) where
  unfoldable pub merge_configs : List Text → Entries → Result (ConfigError X) Config
  unfolding gather parsed
  merge_configs [] entries = err (invalid_nacos_source nothing_to_merge)
  merge_configs (id ∷ ids) entries = gather (id ∷ ids) entries >>= λ es. parsed (build es)

  unfoldable pub apply_batch : List Text → Shared Config → Entries → Shared Config
  unfolding install conclude merge_configs
  apply_batch order s batch =
      let (entries, rollback) = install batch s.entries [] in
      if is_empty batch
      then s
      else conclude order batch s (entries, rollback) (merge_configs order entries)
