-- ===== src/Helper/Sign/Encode.antt =====
-- `encode` joins the encoded pairs.
use neon_rs.Base.{
  ℕ, ◌≡◌, refl, sym, Bool, true, not, ◌&&◌, some, List, [], ◌∷◌, ◌++◌, arith, if◌then◌else◌,
  is_empty, Bool-cases, inl, inr,
}
use mathlib.Core.List.{append-nil, append_assoc}
use neon_rs.Base.Eq.{contains}
use neon_rs.Base.Text.{Text, text_eq}
use neon_rs.Helper.Sign.{
  SignMap, EmptyMode, is_ignore, is_only_key, append_pair, encode_from, encode,
}

module _ (symbol sep : Text) (mode : EmptyMode) (ignored : List Text) where
  -- A pair on its own.
  abbrev pub piece : Text → Text → Text
  piece k v =
      k ++ (if not (is_empty v) then symbol ++ v else if is_only_key mode then [] else symbol)

  abbrev pub skipped : Text → Text → Bool
  skipped k v = if contains ignored k then true else is_empty v && is_ignore mode

  abbrev pub pieces : SignMap → List Text
  pieces [] = []
  pieces ((k, v) ∷ m) = let rest = pieces m in if skipped k v then rest else piece k v ∷ rest

-- Texts behind a text, each behind a separator.
abbrev pub joined : Text → Text → List Text → Text
joined sep buf [] = buf
joined sep buf (p ∷ ps) = joined sep (buf ++ (sep ++ p)) ps

-- Texts with a separator between each two, but for empty ones at the front.
abbrev pub join : Text → List Text → Text
join sep [] = []
join sep ([] ∷ ps) = join sep ps
join sep ((c ∷ p) ∷ ps) = joined sep (c ∷ p) ps

module _ (symbol sep : Text) (mode : EmptyMode) (ignored : List Text) where
  append_pair_first :
      (k v : Text) → append_pair symbol sep mode ignored [] k v ≡ piece symbol sep mode ignored k v
  unfolding append_pair
  append_pair_first k v = elim (Bool-cases (is_empty v)) [
    | inl bare ↦ elim (Bool-cases (is_only_key mode)) [
      | inl key ↦ rw (bare, key) (sym (append-nil k))
      | inr both ↦ rw (bare, both) refl
    ]
    | inr full ↦ rw full refl
  ]

  append_pair_next :
      (c : ℕ) (buf k v : Text)
      → append_pair symbol sep mode ignored (c ∷ buf) k v
        ≡ (c ∷ buf) ++ (sep ++ piece symbol sep mode ignored k v)
  unfolding append_pair
  append_pair_next c buf k v = elim (Bool-cases (is_empty v)) [
    | inl bare ↦ elim (Bool-cases (is_only_key mode)) [
      | inl key ↦ rw (bare, key) (simp (append_assoc, append-nil))
      | inr both ↦ rw (bare, both) (simp append_assoc)
    ]
    | inr full ↦ rw full (simp append_assoc)
  ]

  abbrev after_pair : Text → Text → Text → Text
  after_pair buf k v =
      if contains ignored k
      then buf
      else if is_empty v && is_ignore mode
      then buf
      else append_pair symbol sep mode ignored buf k v

  after_pair_eq :
      (buf k v : Text)
      → after_pair buf k v ≡ (
          if skipped symbol sep mode ignored k v
          then buf
          else append_pair symbol sep mode ignored buf k v)
  after_pair_eq buf k v = ground arith

  encode_from_next :
      (m : SignMap) (c : ℕ) (buf : Text)
      → encode_from symbol sep mode ignored (c ∷ buf) m
        ≡ joined sep (c ∷ buf) (pieces symbol sep mode ignored m)
  unfolding encode_from
  encode_from_next [] c buf = refl
  encode_from_next ((k, v) ∷ m) c buf = elim (Bool-cases (skipped symbol sep mode ignored k v)) [
    | inl skip ↦ rw (after_pair_eq (c ∷ buf) k v, skip) (encode_from_next m c buf)
    | inr kept ↦
        rw (after_pair_eq (c ∷ buf) k v, kept, append_pair_next c buf k v)
          (encode_from_next m c (buf ++ (sep ++ piece symbol sep mode ignored k v)))
  ]

  with_piece :
      (m : SignMap)
      → encode_from symbol sep mode ignored [] m ≡ join sep (pieces symbol sep mode ignored m)
      → (p : Text)
      → encode_from symbol sep mode ignored p m ≡ join sep (p ∷ pieces symbol sep mode ignored m)
  with_piece m rest [] = rest
  with_piece m rest (c ∷ p) = encode_from_next m c p

  encode_from_first :
      (m : SignMap)
      → encode_from symbol sep mode ignored [] m ≡ join sep (pieces symbol sep mode ignored m)
  unfolding encode_from
  encode_from_first [] = refl
  encode_from_first ((k, v) ∷ m) = elim (Bool-cases (skipped symbol sep mode ignored k v)) [
    | inl skip ↦ rw (after_pair_eq [] k v, skip) (encode_from_first m)
    | inr kept ↦
        rw (after_pair_eq [] k v, kept, append_pair_first k v)
          (with_piece m (encode_from_first m) (piece symbol sep mode ignored k v))
  ]

-- `encode` gives the pairs that are not ignored, in the order of their keys, each as its key and,
-- unless the value is empty and only the key is kept, the symbol and the value; with a separator
-- between each two, but none behind an empty piece at the front.
pub encode-join :
    (m : SignMap) (symbol sep : Text) (mode : EmptyMode) (ignored : List Text)
    → encode m symbol sep (some mode) (some ignored) ≡ join sep (pieces symbol sep mode ignored m)
unfolding encode
encode-join [] symbol sep mode ignored = refl
encode-join (kv ∷ m) symbol sep mode ignored = encode_from_first symbol sep mode ignored (kv ∷ m)
