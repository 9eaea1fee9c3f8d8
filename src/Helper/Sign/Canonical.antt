-- ===== src/Helper/Sign/Canonical.antt =====
-- A `SignMap` is sorted, so that it depends on what its keys hold and on nothing else.
use neon_rs.Base.{
  ◌≡◌, refl, sym, ap, subst, ◌∙◌, Bool, true, false, Option, none, some, List, [], ◌∷◌, arith,
  if◌then◌else◌, All, All-map, Bool-cases, inl, inr,
}
use neon_rs.Base.Assoc.{get}
use neon_rs.Base.Text.{Text, text_eq}
use neon_rs.Base.Order.{before, before_irrefl, before_trans, before_total}
use neon_rs.Helper.Sign.{SignMap, put_first, add_pairs, from_pairs, from_url_query, url_encode}

abbrev pub Above : Text → SignMap → Type 0
Above k m = All (λ jw. before k jw.0 ≡ true) m

abbrev pub Sorted : SignMap → Type 0
Sorted [] = Unit
Sorted ((k, v) ∷ m) = Above k m × Sorted m

Above-trans : (j k : Text) (m : SignMap) → before j k ≡ true → Above k m → Above j m
Above-trans j k m h a = All-map _ _ m (λ lw. before_trans j k lw.0 h) a

Above-put_first :
    (j k v : Text) (m : SignMap) → before j k ≡ true → Above j m → Above j (put_first k v m)
unfolding put_first
Above-put_first j k v [] h a = (h, tt)
Above-put_first j k v ((i, w) ∷ m) h a = ground (arith, Above-put_first j k v m h a.1)

put_first-Sorted : (k v : Text) (m : SignMap) → Sorted m → Sorted (put_first k v m)
unfolding put_first
put_first-Sorted k v [] s = (tt, tt)
put_first-Sorted k v ((j, w) ∷ m) s = elim (Bool-cases (before k j)) [
  | inl first ↦ rw first ((first, Above-trans k j m first s.0), s)
  | inr later ↦ elim (Bool-cases (before j k)) [
    | inl behind ↦
        rw (later, behind) (Above-put_first j k v m behind s.0, put_first-Sorted k v m s.1)
    | inr same ↦ rw (later, same) s
  ]
]

apart : (j k : Text) → before j k ≡ true → text_eq.beq j k ≡ false
apart j k h = elim (Bool-cases (text_eq.beq j k)) [
  | inl same ↦ cc (before_irrefl k, subst (λ i. before i k ≡ true) ((text_eq.beq_iff j k).0 same) h)
  | inr different ↦ different
]

get_below : (k : Text) (m : SignMap) → Above k m → get k m ≡ none
get_below k [] a = refl
get_below k ((j, w) ∷ m) a =
    ground (arith, get_below k m a.1, apart k j a.0, text_eq.beq_iff j k, text_eq.beq_iff k j)

abbrev or_value : Option Text → Option Text → Option Text
or_value (some v) o = some v
or_value none o = o

abbrev held_if : Bool → Text → Option Text
held_if b v = if b then some v else none

get-put_first :
    (j k v : Text) (m : SignMap)
    → Sorted m
    → get j (put_first k v m) ≡ or_value (get j m) (held_if (text_eq.beq k j) v)
unfolding put_first
get-put_first j k v [] s = refl
get-put_first j k v ((i, w) ∷ m) s = elim (Bool-cases (before k i)) [
  | inl first ↦ rw first (
      ground (
        arith,
        text_eq.beq_iff k j,
        text_eq.beq_iff i j,
        text_eq.beq_iff k i,
        apart k i first,
        get_below k m (Above-trans k i m first s.0),
      ))
  | inr later ↦ elim (Bool-cases (before i k)) [
    | inl behind ↦
        rw (later, behind)
          (ground (
            arith,
            get-put_first j k v m s.1,
            text_eq.beq_iff k j,
            text_eq.beq_iff i j,
            text_eq.beq_iff i k,
            apart i k behind,
          ))
    | inr same ↦
        rw (later, same)
          (ground (arith, before_total k i later same, text_eq.beq_iff k j, text_eq.beq_iff i j))
  ]
]

add_pairs-Sorted :
    (pairs : List (Text × Text)) (m : SignMap) → Sorted m → Sorted (add_pairs m pairs)
unfolding add_pairs
add_pairs-Sorted [] m s = s
add_pairs-Sorted ((k, v) ∷ pairs) m s =
    add_pairs-Sorted pairs (put_first k v m) (put_first-Sorted k v m s)

get-add_pairs :
    (j : Text) (pairs : List (Text × Text)) (m : SignMap)
    → Sorted m
    → get j (add_pairs m pairs) ≡ or_value (get j m) (get j pairs)
unfolding add_pairs
get-add_pairs j [] m s = ground arith
get-add_pairs j ((k, v) ∷ pairs) m s =
    get-add_pairs j pairs (put_first k v m) (put_first-Sorted k v m s)
    ∙ ground (arith, get-put_first j k v m s)

same_head :
    (k j v w : Text) (m n : SignMap)
    → Sorted ((k, v) ∷ m)
    → Sorted ((j, w) ∷ n)
    → ((i : Text) → get i ((k, v) ∷ m) ≡ get i ((j, w) ∷ n))
    → before k j ≡ false
same_head k j v w m n s t h = elim (Bool-cases (before k j)) [
  | inl first ↦
      let lost = get_below k ((j, w) ∷ n) (first, Above-trans k j n first t.0) in
      absurd (ground (arith, h k, lost, text_eq.beq_iff k k))
  | inr not_first ↦ not_first
]

-- Two sorted maps with the same lookups are the same.
pub Sorted-ext : (m n : SignMap) → Sorted m → Sorted n → ((i : Text) → get i m ≡ get i n) → m ≡ n
Sorted-ext [] [] s t h = refl
Sorted-ext [] ((j, w) ∷ n) s t h = absurd (ground (arith, h j, text_eq.beq_iff j j))
Sorted-ext ((k, v) ∷ m) [] s t h = absurd (ground (arith, h k, text_eq.beq_iff k k))
Sorted-ext ((k, v) ∷ m) ((j, w) ∷ n) s t h =
    let same : k ≡ j =
      before_total k j (same_head k j v w m n s t h) (same_head j k w v n m t s (λ i. sym (h i))) in
    let value : v ≡ w = ground (arith, h k, same, text_eq.beq_iff k k, text_eq.beq_iff j k) in
    let rest : m ≡ n = Sorted-ext m n s.1 t.1 (λ i. tails i same) in ground arith
  where
    tails : (i : Text) → k ≡ j → get i m ≡ get i n
    tails i same =
        ground (
          arith,
          h i,
          get_below k m s.0,
          get_below j n t.0,
          text_eq.beq_iff k i,
          text_eq.beq_iff j i,
        )

-- `from_pairs` is sorted with no key twice, each key holds its first value, and two lists of pairs
-- in which each key has the same first value give the same map, hence the same signing string,
-- whatever the order of the pairs.
pub from_pairs_canonical :
    (pairs others : List (Text × Text))
    → ((k : Text) → get k others ≡ get k pairs)
    → Sorted (from_pairs pairs)
      × ((k : Text) → get k (from_pairs pairs) ≡ get k pairs)
      × (from_pairs others ≡ from_pairs pairs)
unfolding from_pairs
from_pairs_canonical pairs others h = (
  add_pairs-Sorted pairs [] tt,
  λ k. get-add_pairs k pairs [] tt,
  Sorted-ext _ _ (add_pairs-Sorted others [] tt) (add_pairs-Sorted pairs [] tt)
      (λ k. get-add_pairs k others [] tt ∙ h k ∙ sym (get-add_pairs k pairs [] tt)),
)

-- If the parser reads what the serializer writes as the pairs that it was given, then
-- `from_url_query` gives back any map whose `url_encode` it is given.
pub from_url_query-url_encode :
    (parse : Text → List (Text × Text)) (serialize : List (Text × Text) → Text)
    → ((pairs : List (Text × Text)) → parse (serialize pairs) ≡ pairs)
    → (m : SignMap) → Sorted m
    → from_url_query parse (url_encode serialize m) ≡ m
unfolding from_url_query url_encode
from_url_query-url_encode parse serialize law m s =
    ap (add_pairs []) (law m)
    ∙ Sorted-ext _ m (add_pairs-Sorted m [] tt) s (λ k. get-add_pairs k m [] tt)
