-- ===== src/Sls/Layer/Event.antt =====
-- crates/neon-log/src/sls/layer.rs: `on_event`, `dispatch_event`, the visitor of an event's fields
-- and the filter of internal targets. The text of a number, and of a value under `Debug`, comes
-- from the standard library and is given with the visit.
pub mod Record
use neon_rs.Base.{
  ℕ, suc, ◌+◌, Bool, true, false, ◌&&◌, ◌||◌, Option, none, some, List, [], ◌∷◌, ◌++◌, map, reverse,
  any, leb, ◌==◌, if◌then◌else◌, get_elem?, set, is_empty,
}
use neon_rs.Base.Text.{Text, text, text_eq, byte_len}
use neon_rs.Sls.Config.{OverflowPolicy}
use neon_rs.Sls.Counters.{DropCounters}
use neon_rs.Sls.Batch.{LogRecord}
use neon_rs.Sls.Queue.{SinkQueue, enqueue}
use neon_rs.Sls.Layer.{Level, error, warn, info, debug, trace, level_index, Routing}
use neon_rs.Sls.Layer.Fields.{
  Scratch, sanitize_field_key, push_unique_field_prepared, push_unique_field,
}
use neon_rs.Sls.Layer.Spans.{SpanFields}

-- One call of the visitor: by the type of the field's value.
pub data Visit : Type 0 where
  record_debug record_str record_display : Text → Text → Visit

pub record EventVisitor : Type 0 where
  pub fields : List (Text × Text)
  pub message : Option Text

abbrev starts_with_quote : Text → Bool
starts_with_quote [] = false
starts_with_quote (c ∷ cs) = c == b'"'

abbrev drop_first : Text → Text
drop_first [] = []
drop_first (c ∷ cs) = cs

unfoldable pub strip_debug_quotes : Text → Text
strip_debug_quotes value =
    if leb 2 (byte_len value) && starts_with_quote value && starts_with_quote (reverse value)
    then reverse (drop_first (reverse (drop_first value)))
    else value

abbrev is_message : Text → Bool
is_message name = text_eq.beq name (text "message")

unfoldable pub visit : EventVisitor → Visit → EventVisitor
visit v (record_debug name formatted) =
    if is_message name
    then record v { message = some (strip_debug_quotes formatted) }
    else record v { fields = v.fields ++ (name, formatted) ∷ [] }
visit v (record_str name value) =
    if is_message name
    then record v { message = some value }
    else record v { fields = v.fields ++ (name, value) ∷ [] }
visit v (record_display name shown) = record v { fields = v.fields ++ (name, shown) ∷ [] }

unfoldable pub visit_all : EventVisitor → List Visit → EventVisitor
visit_all v [] = v
visit_all v (x ∷ xs) = visit_all (visit v x) xs

unfoldable pub level_value : Level → Text
level_value error = text "ERROR"
level_value warn = text "WARN"
level_value info = text "INFO"
level_value debug = text "DEBUG"
level_value trace = text "TRACE"

-- An event with its metadata, and the spans around it, from the root.
pub record Event : Type 0 where
  pub level : Level
  pub target : Text
  pub file : Option Text
  pub line : Option Text
  pub visits : List Visit
  pub spans : List (Text × Option SpanFields)

abbrev strip_prefix : Text → Text → Option Text
strip_prefix [] t = some t
strip_prefix (c ∷ p) [] = none
strip_prefix (c ∷ p) (d ∷ t) = if c == d then strip_prefix p t else none

abbrev starts_with_path : Option Text → Bool
starts_with_path none = false
starts_with_path (some []) = false
starts_with_path (some (c ∷ [])) = false
starts_with_path (some (c ∷ d ∷ t)) = c == b':' && d == b':'

abbrev blocked_prefixes : List Text
blocked_prefixes =
    text "aliyun_log"
    ∷ text "hyper"
    ∷ text "h2"
    ∷ text "reqwest"
    ∷ text "rustls"
    ∷ text "tower"
    ∷ text "tokio_util"
    ∷ text "want"
    ∷ text "mio"
    ∷ []

unfoldable pub is_internal_target : Text → Bool
is_internal_target target =
    any (λ p. text_eq.beq target p || starts_with_path (strip_prefix p target)) blocked_prefixes

abbrev optional : Text → Option Text → List (Text × Text)
optional key none = []
optional key (some v) = (key, v) ∷ []

abbrev span_entries : Option SpanFields → List (Text × Text)
span_entries none = []
span_entries (some s) = s.entries

abbrev joined : Text → Text → Text
joined path name = if is_empty path then name else path ++ text " > " ++ name

-- The pushes of the loop over the spans, and the path that they spell.
abbrev scope : Text → List (Text × Option SpanFields) → List (Text × Text) × Text
scope path [] = ([], path)
scope path ((name, fields) ∷ spans) =
    let (pushes, path') = scope (joined path name) spans in (span_entries fields ++ pushes, path')

abbrev sanitized : List (Text × Text) → List (Text × Text)
sanitized fields = map (λ f. (sanitize_field_key f.0, f.1)) fields

-- Keys and values in the order in which `dispatch_event` pushes them.
unfoldable pub pushes : Event → List (Text × Text)
unfolding visit_all
pushes e =
    let v = visit_all (record { fields = []; message = none }) e.visits in
    let (spans, path) = scope [] e.spans in
    (text "__level__", level_value e.level)
    ∷ (text "__target__", e.target)
    ∷ (optional (text "message") v.message
        ++ optional (text "__file__") e.file
        ++ optional (text "__line__") e.line
        ++ spans
        ++ (if is_empty path then [] else (text "__span__", path) ∷ [])
        ++ sanitized v.fields)

push_rest : (Scratch → Option Scratch) → Option Scratch → Option Scratch
push_rest next none = none
push_rest next (some s) = next s

unfoldable pub push_all : Scratch → List (Text × Text) → Option Scratch
unfolding push_rest
push_all s [] = some s
push_all s ((key, value) ∷ rest) =
    push_rest (λ s'. push_all s' rest) (push_unique_field_prepared s key value)

pub record Sink : Type 0 where
  pub queue : SinkQueue LogRecord
  pub policy : OverflowPolicy
  pub dropped : DropCounters

abbrev pub SlsLayer : Type 0
SlsLayer = List Sink × Routing

abbrev enqueue_sink : Sink → LogRecord → Sink
enqueue_sink s r =
    let (q, c) = enqueue s.policy s.queue s.dropped r in record s { queue = q; dropped = c }

abbrev enqueue_at : List Sink → ℕ → LogRecord → Option Sink → List Sink
enqueue_at sinks idx r none = sinks
enqueue_at sinks idx r (some s) = set sinks idx (enqueue_sink s r)

record_of : ℕ → ℕ → Option Scratch → Option LogRecord
record_of time time_ns none = none
record_of time time_ns (some s) =
    some (record { time = time; time_ns = time_ns; fields = s.fields })

-- The record that `dispatch_event` builds.
unfoldable pub event_record : ℕ → ℕ → Event → Option LogRecord
unfolding record_of pushes
event_record time time_ns e =
    record_of time time_ns (push_all (record { fields = []; seen = [] }) (pushes e))

dispatch_to : List Sink → ℕ → Option LogRecord → List Sink
dispatch_to sinks idx none = sinks
dispatch_to sinks idx (some r) = enqueue_at sinks idx r (get_elem? sinks idx)

route_to : List Sink → ℕ → ℕ → Event → Option (Option ℕ) → List Sink
unfolding dispatch_to
route_to sinks time time_ns e (some (some idx)) =
    dispatch_to sinks idx (event_record time time_ns e)
route_to sinks time time_ns e _ = sinks

unfoldable pub on_event : SlsLayer → ℕ → ℕ → Event → List Sink
unfolding route_to
on_event (sinks, routing) time time_ns e =
    if is_internal_target e.target
    then sinks
    else route_to sinks time time_ns e (get_elem? routing (level_index e.level))
