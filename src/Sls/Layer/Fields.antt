-- ===== src/Sls/Layer/Fields.antt =====
-- crates/neon-log/src/sls/layer.rs: field keys: `sanitize_field_key`, `push_unique_field`,
-- `push_unique_field_prepared`. The set `seen` is kept as the list of its members.
pub mod Unique
use neon_rs.Base.{
  ℕ, zero, suc, ◌+◌, Bool, true, false, ◌||◌, Option, none, some, List, [], ◌∷◌, ◌++◌, map, ◌==◌,
  if◌then◌else◌, is_empty, length,
}
use neon_rs.Base.Eq.{contains}
use neon_rs.Base.Text.{Text, text, text_eq, is_ascii_alphanumeric}
use neon_rs.Base.Decimal.{to_decimal}

abbrev key_char : ℕ → ℕ
key_char c = if is_ascii_alphanumeric c || c == b'_' || c == b'-' || c == b'.' then c else b'_'

unfoldable pub sanitize_field_key : Text → Text
sanitize_field_key key = if is_empty key then text "_" else map key_char key

pub record Scratch : Type 0 where
  pub fields : List (Text × Text)
  pub seen : List Text

abbrev pub candidate : Text → ℕ → Text
candidate base suffix = base ++ (b'_' ∷ to_decimal suffix)

-- The first candidate that `seen` lacks, from `suffix` on; `none` when the fuel runs out.
unfoldable pub free_key : ℕ → List Text → Text → ℕ → Option Text
free_key zero seen base suffix = none
free_key (suc fuel) seen base suffix =
    let rest = free_key fuel seen base (suffix + 1) in
    if contains seen (candidate base suffix) then rest else some (candidate base suffix)

abbrev pub add_field : Scratch → Text → Text → Scratch
add_field s key value = record { fields = s.fields ++ (key, value) ∷ []; seen = s.seen ++ key ∷ [] }

add_free : Scratch → Text → Option Text → Option Scratch
add_free s value none = none
add_free s value (some key) = some (add_field s key value)

unfoldable pub push_unique_field_prepared : Scratch → Text → Text → Option Scratch
unfolding add_free
push_unique_field_prepared s key value =
    if contains s.seen key
    then add_free s value (free_key (suc (length s.seen)) s.seen key 2)
    else some (add_field s key value)

unfoldable pub push_unique_field : Scratch → Text → Text → Option Scratch
push_unique_field s key value = push_unique_field_prepared s (sanitize_field_key key) value
