-- ===== src/Sls/Layer/Spans.antt =====
-- crates/neon-log/src/sls/layer.rs: `SpanFields`, the fields kept with a span.
pub mod Upsert
use neon_rs.Base.{ℕ, suc, ◌+◌, Option, none, some, List, [], ◌∷◌, ◌++◌, length, get_elem?, set}
use neon_rs.Base.Assoc.{get, insert}
use neon_rs.Base.Text.{Text, text, text_eq}
use neon_rs.Sls.Layer.Fields.{sanitize_field_key}

-- `by_name` takes a field's own name to its place in `entries`.
pub record SpanFields : Type 0 where
  pub key_prefix : Text
  pub entries : List (Text × Text)
  pub by_name : List (Text × ℕ)

unfoldable pub new : Text → SpanFields
new span_name = record {
  key_prefix = text "span." ++ sanitize_field_key span_name ++ text ".";
  entries = [];
  by_name = [];
}

abbrev pub revalue : List (Text × Text) → ℕ → Text → Option (Text × Text) → List (Text × Text)
revalue entries idx value none = entries
revalue entries idx value (some (key, old)) = set entries idx (key, value)

upsert_at : SpanFields → Text → Text → Option ℕ → SpanFields
upsert_at s name value (some idx) = record s {
  entries = revalue s.entries idx value (get_elem? s.entries idx);
}
upsert_at s name value none = record s {
  entries = s.entries ++ (s.key_prefix ++ sanitize_field_key name, value) ∷ [];
  by_name = insert name (length s.entries) s.by_name;
}

unfoldable pub upsert : SpanFields → Text → Text → SpanFields
unfolding upsert_at
upsert s name value = upsert_at s name value (get name s.by_name)
