-- ===== src/Helper/Sign.antt =====
-- crates/neon-helper/src/sign.rs: `SignMap`, a `BTreeMap` as a list sorted by key, and its encoding.
-- `form_urlencoded` is a parameter of the functions that call it.
pub mod Encode
pub mod Canonical
use neon_rs.Base.{
  ◌≡◌, Bool, true, false, not, ◌&&◌, Option, none, some, List, [], ◌∷◌, ◌++◌, if◌then◌else◌,
  is_empty,
}
use neon_rs.Base.Eq.{contains}
use neon_rs.Base.Text.{Text, text_eq}
use neon_rs.Base.Order.{before}

abbrev pub SignMap : Type 0
SignMap = List (Text × Text)

pub data EmptyMode : Type 0 where
  default ignore only_key : EmptyMode

abbrev pub is_ignore : EmptyMode → Bool
is_ignore ignore = true
is_ignore _ = false

abbrev pub is_only_key : EmptyMode → Bool
is_only_key only_key = true
is_only_key _ = false

-- `entry(k).or_insert(v)`: a key that is there keeps its value.
put_first : Text → Text → SignMap → SignMap
put_first k v [] = (k, v) ∷ []
put_first k v ((j, w) ∷ m) =
    let rest = put_first k v m in
    if before k j then (k, v) ∷ (j, w) ∷ m else if before j k then (j, w) ∷ rest else (j, w) ∷ m

-- `BTreeMap::insert`: a key that is there gets the new value.
unfoldable pub put : Text → Text → SignMap → SignMap
put k v [] = (k, v) ∷ []
put k v ((j, w) ∷ m) =
    let rest = put k v m in
    if before k j then (k, v) ∷ (j, w) ∷ m else if before j k then (j, w) ∷ rest else (j, v) ∷ m

add_pairs : SignMap → List (Text × Text) → SignMap
unfolding put_first
add_pairs m [] = m
add_pairs m ((k, v) ∷ pairs) = add_pairs (put_first k v m) pairs

unfoldable pub from_pairs : List (Text × Text) → SignMap
unfolding add_pairs
from_pairs pairs = add_pairs [] pairs

-- `collect` from the entries of a `HashMap`, in the order of its iteration.
unfoldable pub from_hash_map : List (Text × Text) → SignMap
unfolding put
from_hash_map [] = []
from_hash_map ((k, v) ∷ entries) = put k v (from_hash_map entries)

module _ (sym sep : Text) (mode : EmptyMode) (ignored : List Text) where
  -- One pair that is not skipped is appended.
  append_pair : Text → Text → Text → Text
  append_pair buf k v =
      let keyed = (if is_empty buf then [] else buf ++ sep) ++ k in
      if not (is_empty v)
      then keyed ++ (sym ++ v)
      else if is_only_key mode
      then keyed
      else keyed ++ sym

  encode_from : Text → SignMap → Text
  unfolding append_pair
  encode_from buf [] = buf
  encode_from buf ((k, v) ∷ m) =
      encode_from
        (if contains ignored k
          then buf
          else if is_empty v && is_ignore mode
          then buf
          else append_pair buf k v)
        m

unfoldable pub encode : SignMap → Text → Text → Option EmptyMode → Option (List Text) → Text
unfolding encode_from
encode m sym sep mode ignored =
    if is_empty m
    then []
    else encode_from sym sep (elim mode [ none ↦ default | some e ↦ e ])
        (elim ignored [ none ↦ [] | some ks ↦ ks ]) [] m

unfoldable pub from_url_query : (Text → List (Text × Text)) → Text → SignMap
unfolding from_pairs
from_url_query parse query = from_pairs (parse query)

unfoldable pub url_encode : (List (Text × Text) → Text) → SignMap → Text
url_encode serialize m = serialize m
