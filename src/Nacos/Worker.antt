-- ===== src/Nacos/Worker.antt =====
-- crates/neon-config/src/nacos/config.rs: `run_reload_worker` beside the threads that call
-- `ReloadListener::notify`, in any interleaving of what one lock or one call of `Notify` covers.
-- `notify_one` leaves a permit where no task waits, and at most one; `notified` takes it.
pub mod Settles
pub mod Sync
pub mod Upcoming
pub mod Converge
use neon_rs.Base.{
  ℕ, zero, suc, ◌≡◌, ◌⊎◌, Bool, true, false, Option, none, some, List, [], ◌∷◌, if◌then◌else◌,
  is_empty,
}
use neon_rs.Base.Text.{Text}
use neon_rs.Base.Result.{Result}
use neon_rs.Nacos.Reload.{
  ConfigEntry, Entries, ConfigResponse, Settings, Shared, notify_one, stage, accept, apply_batch,
  new_shared,
}

pub data Phase : Type 0 where
  -- In `notified`, in the inner loop before it takes a batch, and in `apply_batch`.
  waiting draining : Phase
  applying : Entries → Phase

pub record System (Config : Type 0) : Type 0 where
  pub shared : Shared Config
  pub phase : Phase
  -- Calls of `enqueue_update` between the insertion and `notify_one`.
  pub unannounced : ℕ

abbrev pub runnable_in : Bool → Phase → Bool
runnable_in permit waiting = permit
runnable_in permit _ = true

module _ {Config : Type 0} where
  pub arrive_as : System Config → Option (Text × ConfigEntry) → System Config
  arrive_as s none = s
  arrive_as s (some (id, entry)) = record s {
    shared = stage s.shared id entry;
    unannounced = suc s.unannounced;
  }

  -- A response arrives: it is inserted, or skipped.
  unfoldable pub arrive : Settings → System Config → ConfigResponse → System Config
  unfolding arrive_as
  arrive o s r = arrive_as s (accept o r)

  unfoldable pub announce : System Config → ℕ → System Config
  announce s n = record s { shared = notify_one s.shared; unannounced = n }

  unfoldable pub start : List Text → Entries → Config → System Config
  start order entries c = record {
    shared = new_shared order entries c;
    phase = waiting;
    unannounced = 0;
  }

  abbrev pub runnable : System Config → Bool
  runnable s = runnable_in s.shared.permit s.phase

module _ {Config X : Type 0} (build : List ConfigEntry → Result X Config) where
  -- What the worker does next; it waits as long as there is no permit.
  work_in : List Text → System Config → Phase → System Config
  work_in order s waiting =
      if s.shared.permit
      then record s { shared = record s.shared { permit = false }; phase = draining }
      else s
  work_in order s draining =
      if is_empty s.shared.pending_updates then record s { phase = waiting } else record s {
        shared = record s.shared { pending_updates = [] };
        phase = applying s.shared.pending_updates;
      }
  work_in order s (applying batch) = record s {
    shared = apply_batch build order s.shared batch;
    phase = draining;
  }

  unfoldable pub work : List Text → System Config → System Config
  unfolding work_in
  work order s = work_in order s s.phase

  -- A step with no response from nacos.
  pub data Step (order : List Text) (s : System Config) : System Config → Type 0 where
    announces : (n : ℕ) → s.unannounced ≡ suc n → Step order s (announce s n)
    works : runnable s ≡ true → Step order s (work order s)

  -- `n` such steps.
  pub data Steps (order : List Text) (s : System Config) : ℕ → System Config → Type 0 where
    stay : Steps order s 0 s
    more :
        {n : ℕ} {t u : System Config} → Steps order s n t → Step order t u → Steps order s (suc n) u

  -- The states after these responses, the latest first.
  pub data Reach (o : Settings) (s : System Config)
      : List ConfigResponse → System Config → Type 0 where
    here : Reach o s [] s
    arrives :
        {rs : List ConfigResponse} {t : System Config}
        → Reach o s rs t
        → (r : ConfigResponse) → Reach o s (r ∷ rs) (arrive o t r)
    steps :
        {rs : List ConfigResponse} {t u : System Config}
        → Reach o s rs t
        → Step o.data_id_order t u
        → Reach o s rs u
