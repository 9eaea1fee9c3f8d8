-- ===== src/Sls/Layer/Fields/Unique.antt =====
-- The keys of a record's fields are distinct: the search for a free suffix always succeeds.
use neon_rs.Base.{
  ℕ, zero, suc, ◌+◌, ◌≤◌, ◌<◌, ◌≡◌, ◌≢◌, refl, sym, ap, ◌∙◌, true, false, Option, none, some, List,
  [], ◌∷◌, ◌++◌, map, arith, length, inl, inr, ◌⊎◌, Bool-cases, if◌then◌else◌,
}
use mathlib.Core.List.{append_cancel_left}
use neon_rs.Base.Eq.{Distinct, contains}
use neon_rs.Base.Text.{Text, text_eq}
use neon_rs.Base.Decimal.{to_decimal_injective}
use neon_rs.Sls.Layer.Fields.{
  Scratch, candidate, free_key, add_field, add_free, push_unique_field_prepared,
}

candidate_injective : (base : Text) (m n : ℕ) → candidate base m ≡ candidate base n → m ≡ n
candidate_injective base m n e = to_decimal_injective m n (cc (append_cancel_left base _ _ e))

abbrev without : List Text → Text → List Text
without [] k = []
without (x ∷ xs) k = let rest = without xs k in if text_eq.beq x k then xs else x ∷ rest

length-without :
    (xs : List Text) (k : Text) → contains xs k ≡ true → suc (length (without xs k)) ≡ length xs
length-without [] k h = cc
length-without (x ∷ xs) k h = ground (arith, length-without xs k)

contains-without :
    (xs : List Text) (k j : Text) → j ≢ k → contains xs j ≡ true → contains (without xs k) j ≡ true
contains-without [] k j n h = cc
contains-without (x ∷ xs) k j n h =
    ground (arith, contains-without xs k j n, text_eq.beq_iff x k, text_eq.beq_iff x j)

-- A suffix that is free, and the first one.
pub record Found (seen : List Text) (base : Text) (from : ℕ) (o : Option Text) : Type 0 where
  pub suffix : ℕ
  pub found : o ≡ some (candidate base suffix)
  pub later : from ≤ suffix
  pub free : contains seen (candidate base suffix) ≡ false

pub free_key-Found :
    (fuel : ℕ) (seen base_taken : List Text) (base : Text) (from : ℕ)
    → length base_taken < fuel
    → ((m : ℕ)
        → from ≤ m
        → contains seen (candidate base m) ≡ true
        → contains base_taken (candidate base m) ≡ true)
    → Found seen base from (free_key fuel seen base from)
unfolding free_key
free_key-Found zero seen taken base from h all = absurd (omega arith)
free_key-Found (suc fuel) seen taken base from h all =
    elim (Bool-cases (contains seen (candidate base from))) [
      | inl used ↦
          let rest = without taken (candidate base from) in
          let shorter = length-without taken (candidate base from) (all from (omega arith) used) in
          let f = free_key-Found fuel seen rest base (from + 1) (omega arith) (λ m h' e.
            contains-without taken (candidate base from) (candidate base m)
              (λ c. absurd (omega (arith, candidate_injective base m from c)))
              (all m (omega arith) e)) in
          simp used (record {
            suffix = f.suffix;
            found = f.found;
            later = omega (arith, f.later);
            free = f.free;
          })
      | inr unused ↦
          simp unused (record { suffix = from; found = refl; later = omega arith; free = unused })
    ]

contains-append :
    (ks : List Text) (k j : Text)
    → contains (ks ++ k ∷ []) j ≡ (if text_eq.beq k j then true else contains ks j)
contains-append [] k j = ground arith
contains-append (x ∷ ks) k j = ground (arith, contains-append ks k j)

Distinct-append :
    (ks : List Text) (k : Text) → Distinct ks → contains ks k ≡ false → Distinct (ks ++ k ∷ [])
Distinct-append [] k d h = (refl, tt)
Distinct-append (x ∷ ks) k d h = (
  ground (arith, contains-append ks k x, text_eq.beq_iff x k, text_eq.beq_iff k x, d.0),
  Distinct-append ks k d.1 (ground arith),
)

-- A key that was asked for as `base`: itself, or with a suffix from 2 on.
abbrev pub KeyOf : Text → Text → Type 0
KeyOf base key = (key ≡ base) ⊎ ((n : ℕ) × (2 ≤ n) × (key ≡ candidate base n))

abbrev pub keys : List (Text × Text) → List Text
keys fields = map (λ f. f.0) fields

-- What was asked for, and the fields that came of it, in order.
abbrev pub Aligned : List (Text × Text) → List (Text × Text) → Type 0
Aligned [] [] = Unit
Aligned ((base, v) ∷ ps) ((k, w) ∷ fs) = KeyOf base k × (w ≡ v) × Aligned ps fs
Aligned [] (f ∷ fs) = ⊥
Aligned (p ∷ ps) [] = ⊥

Aligned-append :
    (ps fs : List (Text × Text)) (base v k : Text)
    → Aligned ps fs
    → KeyOf base k
    → Aligned (ps ++ (base, v) ∷ []) (fs ++ (k, v) ∷ [])
Aligned-append [] [] base v k a h = (h, refl, tt)
Aligned-append [] (f ∷ fs) base v k a h = absurd a
Aligned-append (p ∷ ps) [] base v k a h = absurd a
Aligned-append ((b, w) ∷ ps) ((j, x) ∷ fs) base v k a h =
    (a.0, a.1, Aligned-append ps fs base v k a.2 h)

pub record Good (asked : List (Text × Text)) (s : Scratch) : Type 0 where
  pub same : s.seen ≡ keys s.fields
  pub distinct : Distinct (keys s.fields)
  pub aligned : Aligned asked s.fields

abbrev pub Goes : List (Text × Text) → Option Scratch → Type 0
Goes asked o = (s : Scratch) × (o ≡ some s) × Good asked s

add_field-Good :
    (asked : List (Text × Text)) (s : Scratch) (base k v : Text)
    → Good asked s
    → KeyOf base k
    → contains s.seen k ≡ false
    → Good (asked ++ (base, v) ∷ []) (add_field s k v)
add_field-Good asked s base k v g h free = record {
  same = ap (λ ks. ks ++ k ∷ []) g.same ∙ sym (keys-append s.fields k v);
  distinct =
      rw (keys-append s.fields k v)
        (Distinct-append (keys s.fields) k g.distinct (rw (sym g.same) free));
  aligned = Aligned-append asked s.fields base v k g.aligned h;
}
  where
    keys-append :
        (fs : List (Text × Text)) (k v : Text) → keys (fs ++ (k, v) ∷ []) ≡ keys fs ++ k ∷ []
    keys-append [] k v = refl
    keys-append (f ∷ fs) k v = ap (◌∷◌ f.0) (keys-append fs k v)

Found-Goes :
    (asked : List (Text × Text)) (s : Scratch) (base v : Text) (o : Option Text)
    → Good asked s
    → Found s.seen base 2 o
    → Goes (asked ++ (base, v) ∷ []) (add_free s v o)
unfolding add_free
Found-Goes asked s base v none g f = cc (f.found)
Found-Goes asked s base v (some k) g f =
    let e : k ≡ candidate base f.suffix = cc (f.found) in
    (
      add_field s k v,
      refl,
      add_field-Good asked s base k v g (inr (f.suffix, f.later, e)) (rw e f.free),
    )

-- The field is always added, under its key or that key with a suffix, and keys stay distinct.
pub push-Goes :
    (asked : List (Text × Text)) (s : Scratch) (base v : Text)
    → Good asked s
    → Goes (asked ++ (base, v) ∷ []) (push_unique_field_prepared s base v)
unfolding push_unique_field_prepared
push-Goes asked s base v g = elim (Bool-cases (contains s.seen base)) [
  | inl used ↦ simp used (
      Found-Goes asked s base v (free_key (suc (length s.seen)) s.seen base 2) g
        (free_key-Found (suc (length s.seen)) s.seen s.seen base 2 (omega arith) (λ m h e. e)))
  | inr unused ↦
      simp unused (add_field s base v, refl, add_field-Good asked s base base v g (inl refl) unused)
]
