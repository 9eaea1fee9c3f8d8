-- ===== src/Helper/Tests.antt =====
-- Trees and signing strings, and their theorems on them.
mod Zip
use neon_rs.Base.{ℕ, ◌≡◌, refl, none, some, List, [], ◌∷◌, arith}
use neon_rs.Base.Assoc.{get, insert, remove}
use neon_rs.Base.Eq.{nat_eq}
use neon_rs.Base.Text.{Text, text, text_eq}
use neon_rs.Helper.Tree.{node, Forest, nil, cons, group, build_tree, new_tree}
use neon_rs.Helper.Tree.Reachable.{IsTreeOf, new_tree-IsTreeOf}
use neon_rs.Helper.Sign.{from_pairs, encode, default, ignore, only_key}
use neon_rs.Helper.Sign.Encode.{pieces, join, encode-join}
use neon_rs.Helper.Sign.Canonical.{Sorted, from_pairs_canonical}

-- An id and its parent's.
abbrev Item : Type 0
Item = ℕ × ℕ

abbrev id : Item → ℕ
id x = x.0

abbrev pid : Item → ℕ
pid x = x.1

-- The last two are each other's parents.
abbrev items : List Item
items = (1, 0) ∷ (2, 1) ∷ (3, 1) ∷ (4, 2) ∷ (5, 6) ∷ (6, 5) ∷ []

items_tree :
    new_tree id pid items 0
    ≡ some (
        cons
          (node
            (1, 0)
            (cons (node (2, 1) (cons (node (4, 2) nil) nil)) (cons (node (3, 1) nil) nil)))
          nil)
unfolding new_tree group build_tree insert remove
items_tree = refl

new_tree-IsTreeOf_example :
    (ts : Forest Item) × (new_tree id pid items 0 ≡ some ts) × IsTreeOf id pid items 0 ts
new_tree-IsTreeOf_example = new_tree-IsTreeOf id pid items 0

abbrev pairs : List (Text × Text)
pairs = (text "foo", text "") ∷ (text "bar", text "baz") ∷ (text "bar", text "no") ∷ []

abbrev turned : List (Text × Text)
turned = (text "bar", text "baz") ∷ (text "foo", text "") ∷ []

signed :
    (encode (from_pairs pairs) (text "=") (text "&") none none ≡ text "bar=baz&foo=")
    × (encode (from_pairs pairs) (text "=") (text "&") (some ignore) none ≡ text "bar=baz")
    × (encode (from_pairs turned) (text "=") (text "&") (some only_key) none ≡ text "bar=baz&foo")
unfolding encode from_pairs
signed = (refl, refl, refl)

-- An empty key with an empty value leaves no separator behind it.
empty_key :
    encode
      (from_pairs (([], []) ∷ (text "a", text "1") ∷ []))
      (text "=")
      (text "&")
      (some only_key)
      none
    ≡ text "a=1"
unfolding encode from_pairs
empty_key = refl

encode-join_example :
    encode (from_pairs pairs) (text "=") (text "&") (some default) (some (text "foo" ∷ []))
    ≡ join (text "&") (pieces (text "=") (text "&") default (text "foo" ∷ []) (from_pairs pairs))
encode-join_example = encode-join (from_pairs pairs) (text "=") (text "&") default (text "foo" ∷ [])

same_first : (k : Text) → get k turned ≡ get k pairs
same_first k = ground arith

from_pairs_canonical_example :
    Sorted (from_pairs pairs)
    × ((k : Text) → get k (from_pairs pairs) ≡ get k pairs)
    × (from_pairs turned ≡ from_pairs pairs)
from_pairs_canonical_example = from_pairs_canonical pairs turned same_first
