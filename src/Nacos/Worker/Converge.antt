-- ===== src/Nacos/Worker/Converge.antt =====
-- Hot reload from end to end: the published configuration in every reachable state, and once the
-- worker is done.
use neon_rs.Base.{some, All, ◌≡◌, refl, sym, ap, subst, ◌∙◌, List, arith}
use neon_rs.Base.Assoc.{get}
use neon_rs.Base.Eq.{Distinct}
use neon_rs.Base.Text.{Text, text_eq}
use neon_rs.Base.Result.{Result, ok}
use neon_rs.Nacos.Reload.{
  ConfigEntry, Entries, ConfigResponse, Settings, accept, merge_configs, new_shared,
}
use neon_rs.Nacos.Reload.Merge.{Holds, merge_configs_ext}
use neon_rs.Nacos.Worker.{System, arrive, start, Reach, here, arrives, steps}
use neon_rs.Nacos.Worker.Settles.{Awake, Reach-Awake, Quiet}
use neon_rs.Nacos.Worker.Sync.{InSync, Step-InSync, arrive_as-InSync}
use neon_rs.Nacos.Worker.Upcoming.{
  Sound, Step-Sound, arrive_as-Sound, latest, newest, upcoming, upcoming_in, Step-upcoming,
  arrive_as-upcoming,
}

module _ {Config X : Type 0} (build : List ConfigEntry → Result X Config) (o : Settings)
    (entries : Entries) (c : Config) where
  start-Awake : Awake (start o.data_id_order entries c)
  unfolding start new_shared
  start-Awake = λ h. absurd (omega arith)

  start-InSync :
      merge_configs build o.data_id_order entries ≡ ok c
      → InSync build o.data_id_order (start o.data_id_order entries c)
  unfolding start new_shared
  start-InSync m = record { merged = m; pending-Keyed = tt; in_hand-Keyed = tt }

  Reach-InSync :
      {rs : List ConfigResponse} {s : System Config}
      → Distinct o.data_id_order
      → merge_configs build o.data_id_order entries ≡ ok c
      → Reach build o (start o.data_id_order entries c) rs s
      → InSync build o.data_id_order s
  unfolding arrive
  Reach-InSync d m here = start-InSync m
  Reach-InSync d m (arrives {t = t} run r) =
      arrive_as-InSync build o.data_id_order t (accept o r) (Reach-InSync d m run)
  Reach-InSync d m (steps run st) =
      Step-InSync build o.data_id_order d (Reach-Awake build o start-Awake run)
        (Reach-InSync d m run) st

  -- If the configuration at the start is the merge of the entries, with no data id twice, then in
  -- every state that responses and the worker reach, in any interleaving and whether batches merge
  -- or not, the published configuration is the merge of the entries.
  pub reload_in_sync :
      (rs : List ConfigResponse) (s : System Config)
      → Distinct o.data_id_order
      → merge_configs build o.data_id_order entries ≡ ok c
      → Reach build o (start o.data_id_order entries c) rs s
      → merge_configs build o.data_id_order s.shared.entries ≡ ok s.shared.tx.value
  reload_in_sync rs s d m run = (Reach-InSync d m run).merged

-- The update that a response stands for, if it is accepted, is one of these.
abbrev pub Accepts : (ConfigEntry → Type 0) → Settings → ConfigResponse → Type 0
Accepts P o r = (id : Text) (e : ConfigEntry) → accept o r ≡ some (id, e) → P e

module _ {Config X : Type 0} (build : List ConfigEntry → Result X Config) (o : Settings)
    (entries : Entries) (c : Config) (Parses : ConfigEntry → Type 0)
    (builds : (sources : List ConfigEntry)
      → All Parses sources
      → (d : Config) × (build sources ≡ ok d)) where
  Reach-Sound :
      {rs : List ConfigResponse} {s : System Config}
      → Holds Parses entries
      → All (Accepts Parses o) rs
      → Distinct o.data_id_order
      → merge_configs build o.data_id_order entries ≡ ok c
      → Reach build o (start o.data_id_order entries c) rs s
      → Sound Parses s
  unfolding arrive start new_shared
  Reach-Sound p ps d m here = record {
    held = p;
    pending = λ k e there. cc;
    taken = λ k e there. cc;
  }
  Reach-Sound p ps d m (arrives {t = t} run r) =
      arrive_as-Sound Parses t (accept o r) ps.0 (Reach-Sound p ps.1 d m run)
  Reach-Sound p ps d m (steps run st) =
      Step-Sound build o.data_id_order Parses builds (Reach-Sound p ps d m run) d
        (Reach-Awake build o (start-Awake build o entries c) run)
        (Reach-InSync build o entries c d m run) st

  Reach-upcoming :
      {rs : List ConfigResponse} {s : System Config} (k : Text)
      → Holds Parses entries
      → All (Accepts Parses o) rs
      → Distinct o.data_id_order
      → merge_configs build o.data_id_order entries ≡ ok c
      → Reach build o (start o.data_id_order entries c) rs s
      → upcoming s k ≡ latest o rs entries k
  unfolding arrive start new_shared
  Reach-upcoming k p ps d m here = refl
  Reach-upcoming k p ps d m (arrives {t = t} run r) =
      arrive_as-upcoming t (accept o r) k
      ∙ ap (newest k (accept o r)) (Reach-upcoming k p ps.1 d m run)
  Reach-upcoming k p ps d m (steps run st) =
      Step-upcoming build o.data_id_order Parses builds k (Reach-Sound p ps d m run) d
        (Reach-Awake build o (start-Awake build o entries c) run)
        (Reach-InSync build o entries c d m run) st
      ∙ Reach-upcoming k p ps d m run

  -- Let every list of sources that parse build, whatever the others do, and let each first entry and
  -- each accepted response parse. Let no data id stand twice, the configuration at the start be the
  -- merge of the entries, and `newer` hold for every data id the entry of its latest accepted
  -- response, or its first entry if there is none. Then once the worker is done, the entries are
  -- those of `newer` and the published configuration is its merge, however the responses were
  -- batched.
  pub reload_converges :
      (rs : List ConfigResponse) (s : System Config) (newer : Entries)
      → Holds Parses entries
      → All (Accepts Parses o) rs
      → Distinct o.data_id_order
      → merge_configs build o.data_id_order entries ≡ ok c
      → Reach build o (start o.data_id_order entries c) rs s
      → Quiet s
      → ((k : Text) → get k newer ≡ latest o rs entries k)
      → ((k : Text) → get k s.shared.entries ≡ get k newer)
        × (merge_configs build o.data_id_order newer ≡ ok s.shared.tx.value)
  reload_converges rs s newer p ps d m run q h = (held, merges)
    where
      done : (k : Text) → upcoming s k ≡ get k s.shared.entries
      done k =
          subst (λ p. upcoming_in s p k ≡ get k s.shared.entries) (sym q.asleep)
            (rw q.nothing_pending refl)

      held : (k : Text) → get k s.shared.entries ≡ get k newer
      held k = sym (done k) ∙ Reach-upcoming k p ps d m run ∙ sym (h k)

      merges : merge_configs build o.data_id_order newer ≡ ok s.shared.tx.value
      merges =
          merge_configs_ext build o.data_id_order newer s.shared.entries (λ k. sym (held k))
          ∙ reload_in_sync build o entries c rs s d m run
