-- ===== src/Sls/Layer/Tests.antt =====
-- Routing, span fields and event records on concrete inputs.
use neon_rs.Base.{◌≤◌, ◌≡◌, refl, true, false, All, none, some, List, [], ◌∷◌, map, get_elem?}
use neon_rs.Base.Text.{text, text_eq}
use neon_rs.Base.Decimal.{to_decimal}
use neon_rs.Base.Result.{ok, err}
use neon_rs.Sls.Config.{SlsConfig, new}
use neon_rs.Sls.Batch.{LogRecord}
use neon_rs.Sls.Layer.{error, warn, info, level_index, Spec, Built, build_sinks, assign_routes}
use neon_rs.Sls.Layer.Routing.{build_sinks_routes}
use neon_rs.Sls.Layer.Fields.{push_unique_field_prepared, sanitize_field_key, free_key}
use neon_rs.Base.Eq.{Distinct}
use neon_rs.Sls.Layer.Fields.Unique.{Aligned, keys}
use neon_rs.Sls.Layer.Spans.{SpanFields, upsert}
use neon_rs.Sls.Layer.Spans
use neon_rs.Sls.Layer.Spans.Upsert.{value_of, upsert_all, upsert_all-latest}
use neon_rs.Sls.Layer.Event.{
  Event, record_str, record_display, event_record, pushes, push_all, visit_all, visit, level_value,
  is_internal_target,
}
use neon_rs.Sls.Layer.Event.Record.{event_record_fields}

abbrev plain_config : SlsConfig
plain_config = new [] [] [] (λ k. err [])

abbrev two_specs : List Spec
two_specs = (error ∷ warn ∷ [], plain_config) ∷ (warn ∷ info ∷ [], plain_config) ∷ []

abbrev two_built : Built
two_built = record {
  sinks = plain_config ∷ plain_config ∷ [];
  routing = some 0 ∷ some 0 ∷ some 1 ∷ none ∷ none ∷ [];
  shutdown_timeout = 15_000_000_000;
}

builds : build_sinks (λ idx tag config. ok tt) two_specs ≡ ok two_built
unfolding build_sinks assign_routes level_index new
builds = refl

build_sinks_routes_example :
    (get_elem? two_built.routing (level_index warn) ≡ some (some 0))
    × (two_built.sinks ≡ map (λ s. s.1) two_specs)
    × All (λ s. s.1.shutdown_timeout ≤ two_built.shutdown_timeout) two_specs
unfolding level_index
build_sinks_routes_example =
    build_sinks_routes (λ idx tag config. ok tt) two_specs two_built warn builds

upsert_all-latest_example :
    value_of
      (upsert_all (Spans.new (text "job")) ((text "id", text "1") ∷ (text "id", text "2") ∷ []))
      (text "id")
    ≡ some (text "2")
upsert_all-latest_example =
    upsert_all-latest (text "job") ((text "id", text "1") ∷ (text "id", text "2") ∷ []) (text "id")

-- An event whose own field is called like a reserved one.
abbrev clash : Event
clash = record {
  level = info;
  target = text "app";
  file = none;
  line = none;
  visits =
      record_str (text "message") (text "hi") ∷ record_display (text "message") (text "7") ∷ [];
  spans = (text "job", none) ∷ [];
}

clash_fields :
    event_record 5 6 clash
    ≡ some (record {
      time = 5;
      time_ns = 6;
      fields =
          (text "__level__", text "INFO")
          ∷ (text "__target__", text "app")
          ∷ (text "message", text "hi")
          ∷ (text "__span__", text "job")
          ∷ (text "message_2", text "7")
          ∷ [];
    })
unfolding event_record pushes push_all push_unique_field_prepared sanitize_field_key free_key
    to_decimal visit_all visit level_value
clash_fields = refl

internal :
    (is_internal_target (text "hyper::client") ≡ true)
    × (is_internal_target (text "reqwest_extra") ≡ false)
unfolding is_internal_target
internal = (refl, refl)

event_record_fields_example :
    (r : LogRecord) × (event_record 5 6 clash ≡ some r)
    × Distinct (keys r.fields)
    × Aligned (pushes clash) r.fields
    × (r.time ≡ 5)
    × (r.time_ns ≡ 6)
event_record_fields_example = event_record_fields 5 6 clash
