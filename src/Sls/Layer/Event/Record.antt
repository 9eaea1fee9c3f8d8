-- ===== src/Sls/Layer/Event/Record.antt =====
-- The record that an event becomes, and who gets it.
use neon_rs.Base.{ℕ, ◌≡◌, refl, subst, some, List, [], ◌∷◌, ◌++◌}
use mathlib.Core.List.{append-nil, append_assoc}
use neon_rs.Base.Text.{Text, text_eq}
use neon_rs.Sls.Batch.{LogRecord}
use neon_rs.Sls.Layer.Fields.{Scratch}
use neon_rs.Base.Eq.{Distinct}
use neon_rs.Sls.Layer.Fields.Unique.{Good, Goes, Aligned, keys, push-Goes}
use neon_rs.Sls.Layer.Event.{Event, pushes, push_all, push_rest, event_record, record_of}

push_all-Goes :
    (asked : List (Text × Text)) (s : Scratch) (rest : List (Text × Text))
    → Good asked s
    → Goes (asked ++ rest) (push_all s rest)
unfolding push_all push_rest
push_all-Goes asked s [] g = rw (append-nil asked) (s, refl, g)
push_all-Goes asked s ((key, value) ∷ rest) g =
    let (s', e, g') = push-Goes asked s key value g in
    rw e (
      subst (λ a. Goes a (push_all s' rest)) (append_assoc asked ((key, value) ∷ []) rest)
        (push_all-Goes (asked ++ (key, value) ∷ []) s' rest g'))

-- Every event becomes a record, stamped with the time that was read. Its fields are what
-- `dispatch_event` pushes, in that order and with those values; each key is the one asked for or
-- that key with a suffix `_2`, `_3`, …; and no two keys are the same.
pub event_record_fields :
    (time time_ns : ℕ) (e : Event)
    → (r : LogRecord) × (event_record time time_ns e ≡ some r)
      × Distinct (keys r.fields)
      × Aligned (pushes e) r.fields
      × (r.time ≡ time)
      × (r.time_ns ≡ time_ns)
unfolding event_record record_of
event_record_fields time time_ns e =
    let (s, done, g) =
      push_all-Goes [] (record { fields = []; seen = [] }) (pushes e)
        (record { same = refl; distinct = tt; aligned = tt }) in
    rw done (
      record { time = time; time_ns = time_ns; fields = s.fields },
      refl,
      g.distinct,
      g.aligned,
      refl,
      refl,
    )
