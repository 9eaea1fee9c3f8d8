-- ===== src/Nacos/Worker/Sync.antt =====
-- The worker keeps the published configuration the merge of the entries.
use neon_rs.Base.{
  ◌≡◌, sym, ap, subst, ◌∙◌, true, false, Option, none, some, List, [], is_empty, inl, inr,
  Bool-cases,
}
use neon_rs.Base.Assoc.{Keyed, insert-Keyed}
use neon_rs.Base.Eq.{Distinct}
use neon_rs.Base.Text.{Text, text_eq}
use neon_rs.Base.Result.{Result, ok}
use neon_rs.Nacos.Reload.{ConfigEntry, Entries, Shared, merge_configs, apply_batch}
use neon_rs.Nacos.Reload.Merge.{merge_configs_ext}
use neon_rs.Nacos.Reload.Batch.{apply_batch_keeps, apply_batch_outcome, installed}
use neon_rs.Nacos.Worker.{
  Phase, waiting, draining, applying, System, arrive_as, announce, work, work_in, runnable_in, Step,
  announces, works,
}
use neon_rs.Nacos.Worker.Settles.{AwakeIn, Awake}

abbrev pub in_hand : Phase → Entries
in_hand waiting = []
in_hand draining = []
in_hand (applying batch) = batch

module _ {Config X : Type 0} (build : List ConfigEntry → Result X Config) (order : List Text) where
  pub record InSync (s : System Config) : Type 0 where
    pub merged : merge_configs build order s.shared.entries ≡ ok s.shared.tx.value
    pub pending-Keyed : Keyed s.shared.pending_updates
    pub in_hand-Keyed : Keyed (in_hand s.phase)

  apply_batch-merged :
      (s : Shared Config) (batch : Entries)
      → Keyed batch
      → Distinct order
      → is_empty batch ≡ false
      → merge_configs build order s.entries ≡ ok s.tx.value
      → merge_configs build order (apply_batch build order s batch).entries
        ≡ ok (apply_batch build order s batch).tx.value
  apply_batch-merged s batch k d full m =
      let (after, over) = installed batch s.entries k in
      elim (apply_batch_outcome build order s batch after k d full over) [
        | inl (c, e, a) ↦
            merge_configs_ext build order _ after (λ j. a.updated j ∙ sym (over j))
            ∙ e
            ∙ ap ok (sym (ap (λ w. w.value) a.published))
        | inr (x, e, r) ↦
            merge_configs_ext build order _ s.entries r.restored
            ∙ m
            ∙ ap ok (sym (ap (λ w. w.value) r.kept))
      ]

  work_in-InSync :
      (s : System Config) (p : Phase)
      → Distinct order
      → AwakeIn s p
      → InSync s
      → Keyed (in_hand p)
      → runnable_in s.shared.permit p ≡ true
      → InSync (work_in build order s p)
  unfolding work_in
  work_in-InSync s waiting d a i k h =
      rw h (record { merged = i.merged; pending-Keyed = i.pending-Keyed; in_hand-Keyed = tt })
  work_in-InSync s draining d a i k h = elim (Bool-cases (is_empty s.shared.pending_updates)) [
    | inl none_there ↦
        rw none_there
          (record { merged = i.merged; pending-Keyed = i.pending-Keyed; in_hand-Keyed = tt })
    | inr some_there ↦
        rw some_there
          (record { merged = i.merged; pending-Keyed = tt; in_hand-Keyed = i.pending-Keyed })
  ]
  work_in-InSync s (applying batch) d a i k h = record {
    merged = apply_batch-merged s.shared batch k d a i.merged;
    pending-Keyed =
        subst Keyed (sym (apply_batch_keeps build order s.shared batch a).0) i.pending-Keyed;
    in_hand-Keyed = tt;
  }

  pub Step-InSync :
      {s t : System Config} → Distinct order → Awake s → InSync s → Step build order s t → InSync t
  unfolding work announce
  Step-InSync {s} d a i (announces n e) = record {
    merged = i.merged;
    pending-Keyed = i.pending-Keyed;
    in_hand-Keyed = i.in_hand-Keyed;
  }
  Step-InSync {s} d a i (works h) = work_in-InSync s s.phase d a i i.in_hand-Keyed h

  pub arrive_as-InSync :
      (s : System Config) (u : Option (Text × ConfigEntry)) → InSync s → InSync (arrive_as s u)
  unfolding arrive_as
  arrive_as-InSync s none i = i
  arrive_as-InSync s (some (id, entry)) i = record {
    merged = i.merged;
    pending-Keyed = insert-Keyed id entry s.shared.pending_updates i.pending-Keyed;
    in_hand-Keyed = i.in_hand-Keyed;
  }
