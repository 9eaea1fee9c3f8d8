-- ===== src/Redis/Kit/Maps.antt =====
-- The maps that `MGET` and `HMGET` are collected into.
use neon_rs.Base.{
  ◌≡◌, refl, subst, ◌∙◌, true, Option, none, some, List, [], ◌∷◌, arith, map, if◌then◌else◌, inl,
  inr, Bool-cases,
}
use neon_rs.Base.Assoc.{get, insert, get-insert}
use neon_rs.Base.Eq.{contains}
use neon_rs.Base.Text.{Text, text_eq}
use neon_rs.Base.Result.{Result, ok, err, ◌>>=◌}
use neon_rs.Redis.Kit.{Commands, Json, collect, mget_map}

abbrev pub to_option : {X V : Type 0} → Result X V → Option V
to_option (ok v) = some v
to_option (err x) = none

contains-cons :
    (k j : Text) (ks : List Text)
    → contains (k ∷ ks) j ≡ (if text_eq.beq k j then true else contains ks j)
contains-cons k j ks = ground arith

module _ {X V : Type 0} (parse : Text → Result X V) where
  abbrev pub parsed_of : Option Text → Option V
  parsed_of none = none
  parsed_of (some s) = to_option (parse s)

  abbrev pub first_of : Option V → Option V → Option V
  first_of none o = o
  first_of (some v) o = some v

  -- Either each key holds the value that the server has for it, parsed, and any other key what it
  -- held before; or the value of one of the keys cannot be parsed, and its error is returned.
  pub data Collected (keys : List Text) (value : Text → Option Text) (before : List (Text × V))
      (r : Result X (List (Text × V))) : Type 0 where
    all_parsed :
        (m : List (Text × V))
        → r ≡ ok m
        → ((k : Text)
            → get k m
              ≡ first_of (if contains keys k then parsed_of (value k) else none) (get k before))
        → Collected keys value before r
    not_parsed :
        (k s : Text) (x : X)
        → contains keys k ≡ true
        → value k ≡ some s
        → parse s ≡ err x
        → r ≡ err x
        → Collected keys value before r

  in_tail : (k j : Text) (ks : List Text) → contains ks j ≡ true → contains (k ∷ ks) j ≡ true
  in_tail k j ks h = ground arith

  abbrev holds : List Text → (Text → Option Text) → List (Text × V) → Text → Option V
  holds keys value m j = first_of (if contains keys j then parsed_of (value j) else none) (get j m)

  widen :
      (k : Text) (ks : List Text) (value : Text → Option Text) (m m' : List (Text × V))
      (r : Result X (List (Text × V)))
      → ((j : Text) → holds ks value m' j ≡ holds (k ∷ ks) value m j)
      → Collected ks value m' r
      → Collected (k ∷ ks) value m r
  widen k ks value m m' r same (all_parsed n e h) = all_parsed n e (λ j. h j ∙ same j)
  widen k ks value m m' r same (not_parsed j s x c t b e) =
      not_parsed j s x (in_tail k j ks c) t b e

  same_absent :
      (k : Text) (ks : List Text) (value : Text → Option Text) (m : List (Text × V)) (j : Text)
      → value k ≡ none
      → holds ks value m j ≡ holds (k ∷ ks) value m j
  same_absent k ks value m j absent = elim (Bool-cases (text_eq.beq k j)) [
    | inl same ↦
        let none_there : value j ≡ none =
          subst (λ i. value i ≡ none) ((text_eq.beq_iff k j).0 same) absent in
        rw (contains-cons k j ks, same, none_there) (ground arith)
    | inr apart ↦ rw (contains-cons k j ks, apart) refl
  ]

  same_there :
      (k s : Text) (v : V) (ks : List Text) (value : Text → Option Text) (m : List (Text × V))
      (j : Text)
      → value k ≡ some s
      → parse s ≡ ok v
      → holds ks value (insert k v m) j ≡ holds (k ∷ ks) value m j
  same_there k s v ks value m j there good = elim (Bool-cases (text_eq.beq k j)) [
    | inl same ↦
        let value_there : value j ≡ some s =
          subst (λ i. value i ≡ some s) ((text_eq.beq_iff k j).0 same) there in
        rw (contains-cons k j ks, get-insert k j v m, same, value_there, good) (ground arith)
    | inr apart ↦ rw (contains-cons k j ks, get-insert k j v m, apart) refl
  ]

  parsed-Collected :
      (k s : Text) (ks : List Text) (value : Text → Option Text) (m : List (Text × V))
      (rest : List (Text × V) → Result X (List (Text × V))) (r : Result X V)
      → value k ≡ some s
      → parse s ≡ r
      → ((n : List (Text × V)) → Collected ks value n (rest n))
      → Collected (k ∷ ks) value m (r >>= λ v. rest (insert k v m))
  parsed-Collected k s ks value m rest (err x) there bad all =
      not_parsed k s x (ground (arith, text_eq.beq_iff k k)) there bad refl
  parsed-Collected k s ks value m rest (ok v) there good all =
      widen k ks value m (insert k v m) (rest (insert k v m))
        (λ j. same_there k s v ks value m j there good) (all (insert k v m))

  one-Collected :
      (k : Text) (ks : List Text) (value : Text → Option Text) (m : List (Text × V))
      (o : Option Text)
      → value k ≡ o
      → ((n : List (Text × V)) → Collected ks value n (collect parse ks (map value ks) n))
      → Collected (k ∷ ks) value m (collect parse (k ∷ ks) (o ∷ map value ks) m)
  unfolding collect
  one-Collected k ks value m none absent all =
      widen k ks value m m _ (λ j. same_absent k ks value m j absent) (all m)
  one-Collected k ks value m (some s) there all =
      parsed-Collected k s ks value m (λ n. collect parse ks (map value ks) n) (parse s) there refl
        all

  collect-Collected :
      (keys : List Text) (value : Text → Option Text) (m : List (Text × V))
      → Collected keys value m (collect parse keys (map value keys) m)
  unfolding collect
  collect-Collected [] value m = all_parsed m refl (λ k. refl)
  collect-Collected (k ∷ ks) value m =
      one-Collected k ks value m (value k) refl (λ n. collect-Collected ks value n)

module _ {S X T : Type 0} (r : Commands S X) (j : Json X T) (s : S) where
  -- If the server answers `MGET` with the value of each key in order, then `mget_map` returns a map
  -- that holds the value of each key that was asked for, parsed, where the server has one, and no
  -- other key; or the error of a value that cannot be parsed, of one of these keys.
  pub mget_map-Collected :
      (keys : List Text) (value : Text → Option Text)
      → r.mget s keys ≡ ok (map value keys)
      → Collected j.from_str keys value [] (mget_map r j s keys)
  unfolding mget_map
  mget_map-Collected [] value answer = all_parsed [] refl (λ k. refl)
  mget_map-Collected (k ∷ ks) value answer =
      rw answer (collect-Collected j.from_str (k ∷ ks) value [])
