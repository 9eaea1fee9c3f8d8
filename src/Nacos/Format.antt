-- ===== src/Nacos/Format.antt =====
-- crates/neon-config/src/nacos/format.rs, and `resolve_format_for_entry` of config.rs. `extension`
-- is `std::path::Path::extension` on Unix.
use Prim.Native.String.{String}
use neon_rs.Base.{
  ℕ, ◌≡◌, refl, ◌||◌, Option, none, some, List, [], ◌∷◌, ◌==◌, if◌then◌else◌, is_empty,
}
use neon_rs.Base.Assoc.{get}
use neon_rs.Base.Text.{Text, text, text_eq, trim, to_ascii_lowercase}

pub data Format : Type 0 where
  toml yaml json json5 ini ron : Format

abbrev extensions : List (Text × Format)
extensions =
    (text "yaml", yaml)
    ∷ (text "yml", yaml)
    ∷ (text "toml", toml)
    ∷ (text "json", json)
    ∷ (text "json5", json5)
    ∷ (text "ini", ini)
    ∷ (text "properties", ini)
    ∷ (text "ron", ron)
    ∷ []

pub from_extension : Text → Option Format
from_extension ext = get (to_ascii_lowercase (trim ext)) extensions

abbrev content_types : List (Text × Format)
content_types =
    (text "yaml", yaml)
    ∷ (text "toml", toml)
    ∷ (text "json", json)
    ∷ (text "json5", json5)
    ∷ (text "properties", ini)
    ∷ (text "ron", ron)
    ∷ []

pub from_content_type : Text → Option Format
from_content_type content_type = get (to_ascii_lowercase (trim content_type)) content_types

-- The pieces of a text between the places of a separator.
pieces : ℕ → Text → Text × List Text
pieces sep [] = ([], [])
pieces sep (c ∷ cs) =
    let (piece, rest) = pieces sep cs in if c == sep then ([], piece ∷ rest) else (c ∷ piece, rest)

-- The last component of a path; `.` and nothing between two slashes are no components.
last_component : Option Text → List Text → Option Text
last_component last [] = last
last_component last (p ∷ ps) =
    last_component (if is_empty p || text_eq.beq p (text ".") then last else some p) ps

pub file_name : Text → Option Text
unfolding pieces last_component
file_name path =
    let (first, rest) = pieces b'/' path in
    elim (last_component none (first ∷ rest)) [
      | none ↦ none
      | some p ↦ if text_eq.beq p (text "..") then none else some p
    ]

-- What stands behind the last dot and before it.
last_dot : Text → Option (Text × Text)
last_dot [] = none
last_dot (c ∷ cs) = elim (last_dot cs) [
  | some (before, after) ↦ some (c ∷ before, after)
  | none ↦ if c == b'.' then some ([], cs) else none
]

behind_dot : Option (Text × Text) → Option Text
behind_dot none = none
behind_dot (some (before, after)) = if is_empty before then none else some after

unfoldable pub extension : Text → Option Text
unfolding file_name last_dot behind_dot
extension path = elim (file_name path) [ none ↦ none | some name ↦ behind_dot (last_dot name) ]

unfoldable pub from_path : Text → Option Format
unfolding extension from_extension
from_path path = elim (extension path) [ none ↦ none | some ext ↦ from_extension ext ]

by_content_type : Option Text → Option Format
unfolding from_content_type
by_content_type none = none
by_content_type (some content_type) = from_content_type content_type

-- `Option::or`.
abbrev pub or_else : Option Format → Option Format → Option Format
or_else (some f) g = some f
or_else none g = g

-- The format asked for, or else the content type's, or else that of the name.
unfoldable pub resolve_format_for_entry : Option Format → Text → Option Text → Option Format
unfolding by_content_type from_path
resolve_format_for_entry explicit data_id content_type =
    or_else explicit (or_else (by_content_type content_type) (from_path data_id))

abbrev yaml_of : String → Option Format
yaml_of s = resolve_format_for_entry none (text s) (some (text "TEXT"))

yaml_names :
    (yaml_of "app.yaml" ≡ some yaml) × (yaml_of "conf/.yaml" ≡ none) × (yaml_of "a.b/x" ≡ none)
unfolding resolve_format_for_entry
yaml_names = (refl, refl, refl)

yaml_trimmed : from_extension (text " YML ") ≡ some yaml
unfolding from_extension
yaml_trimmed = refl
