-- ===== src/Sls/Layer/Spans/Upsert.antt =====
-- `upsert` as an update of a map: the field that was named has the new value, the others theirs.
use neon_rs.Base.{
  ℕ, ◌<◌, ◌≡◌, refl, sym, Bool, ap, ◌∙◌, true, false, Option, none, some, List, [], ◌∷◌, ◌++◌,
  arith, length, length-append, length-set, ==_iff, get_elem?-set, get_elem?-append, get_elem?-snoc,
  get_elem?-none, get_elem?, ◌⊎◌, inl, inr, Bool-cases, if◌then◌else◌, ◌==◌,
}
use neon_rs.Base.Assoc.{get, insert, get-insert}
use neon_rs.Base.Text.{Text, text_eq}
use neon_rs.Sls.Layer.Fields.{sanitize_field_key}
use neon_rs.Sls.Layer.Spans.{SpanFields, upsert, upsert_at, revalue, new}

abbrev pub value_at : Option (Text × Text) → Option Text
value_at none = none
value_at (some (k, v)) = some v

abbrev pub lookup_at : List (Text × Text) → Option ℕ → Option Text
lookup_at entries none = none
lookup_at entries (some i) = value_at (get_elem? entries i)

-- The value that a span's field has.
abbrev pub value_of : SpanFields → Text → Option Text
value_of s name = lookup_at s.entries (get name s.by_name)

-- `by_name` points into `entries`, and to different places for different names.
pub record Indexed (s : SpanFields) : Type 0 where
  pub below : (name : Text) (i : ℕ) → get name s.by_name ≡ some i → i < length s.entries
  pub apart :
      (name other : Text) (i : ℕ)
      → get name s.by_name ≡ some i
      → get other s.by_name ≡ some i
      → name ≡ other

revalue-get :
    (entries : List (Text × Text)) (i j : ℕ) (v : Text) (o : Option (Text × Text))
    → get_elem? entries i ≡ o
    → i < length entries
    → value_at (get_elem? (revalue entries i v o) j)
      ≡ (if i == j then some v else value_at (get_elem? entries j))
revalue-get entries i j v none e h = absurd (omega (arith, get_elem?-none entries i e))
revalue-get entries i j v (some (k, old)) e h = elim (Bool-cases (i == j)) [
  | inl same ↦ rw (get_elem?-set entries i j (k, v) h, same) refl
  | inr other ↦ rw (get_elem?-set entries i j (k, v) h, other) refl
]

revalue-length :
    (entries : List (Text × Text)) (i : ℕ) (v : Text) (o : Option (Text × Text))
    → length (revalue entries i v o) ≡ length entries
revalue-length entries i v none = refl
revalue-length entries i v (some (k, old)) = length-set entries i (k, v)

-- What a map gives after an update.
abbrev pub updated : Text → Text → Text → Option Text → Option Text
updated name value other before = if text_eq.beq name other then some value else before

some_injective : {i j : ℕ} → some i ≡ some j → i ≡ j
some_injective e = cc

same_truth : (a b : Bool) → (a ≡ true → b ≡ true) → (b ≡ true → a ≡ true) → a ≡ b
same_truth true b h k = sym (h refl)
same_truth false true h k = k refl
same_truth false false h k = refl

known-value :
    (s : SpanFields) (name value other : Text) (i : ℕ) (o : Option ℕ)
    → Indexed s
    → get name s.by_name ≡ some i
    → get other s.by_name ≡ o
    → lookup_at (revalue s.entries i value (get_elem? s.entries i)) o
      ≡ updated name value other (lookup_at s.entries o)
known-value s name value other i none x e f = elim (Bool-cases (text_eq.beq name other)) [
  | inl same ↦ cc ((text_eq.beq_iff name other).0 same)
  | inr apart ↦ rw apart refl
]
known-value s name value other i (some j) x e f =
    revalue-get s.entries i j value (get_elem? s.entries i) refl (x.below name i e)
    ∙ ap (λ b. if b then some value else value_at (get_elem? s.entries j)) agree
  where
    agree : (i == j) ≡ text_eq.beq name other
    agree =
        same_truth (i == j) (text_eq.beq name other)
          (λ h.
            (text_eq.beq_iff name other).1
              (x.apart name other i e (f ∙ ap some (sym ((==_iff i j).0 h)))))
          (λ h. (==_iff i j).1 (
            some_injective
              (sym e ∙ ap (λ n. get n s.by_name) ((text_eq.beq_iff name other).0 h) ∙ f)))

fresh-value :
    (s : SpanFields) (name value other : Text) (o : Option ℕ)
    → Indexed s
    → get name s.by_name ≡ none
    → get other s.by_name ≡ o
    → lookup_at
        (s.entries ++ (s.key_prefix ++ sanitize_field_key name, value) ∷ [])
        (if text_eq.beq name other then some (length s.entries) else o)
      ≡ updated name value other (lookup_at s.entries o)
fresh-value s name value other o x e f = elim (Bool-cases (text_eq.beq name other)) [
  | inl same ↦ rw same (ap value_at (get_elem?-snoc s.entries _))
  | inr apart ↦ rw apart (unmoved o f)
]
  where
    unmoved :
        (o : Option ℕ)
        → get other s.by_name ≡ o
        → lookup_at (s.entries ++ (s.key_prefix ++ sanitize_field_key name, value) ∷ []) o
          ≡ lookup_at s.entries o
    unmoved none f = refl
    unmoved (some j) f = ap value_at (get_elem?-append s.entries _ j (x.below other j f))

known-Indexed :
    (s : SpanFields) (i : ℕ) (value : Text)
    → Indexed s
    → Indexed (record s { entries = revalue s.entries i value (get_elem? s.entries i) })
known-Indexed s i value x = record {
  below =
      λ name j e. rw (revalue-length s.entries i value (get_elem? s.entries i)) (x.below name j e);
  apart = x.apart;
}

inserted :
    (m : List (Text × ℕ)) (name other : Text) (n j : ℕ)
    → get other (insert name n m) ≡ some j
    → ((name ≡ other) × (j ≡ n)) ⊎ (get other m ≡ some j)
inserted m name other n j e =
    let f = sym (get-insert name other n m) ∙ e in
    elim (Bool-cases (text_eq.beq name other)) [
      | inl same ↦ inl ((text_eq.beq_iff name other).0 same, some_injective (sym (rw same at f)))
      | inr apart ↦ inr (rw apart at f)
    ]

fresh-Indexed :
    (s : SpanFields) (name key value : Text)
    → Indexed s
    → get name s.by_name ≡ none
    → Indexed (record s {
      entries = s.entries ++ (key, value) ∷ [];
      by_name = insert name (length s.entries) s.by_name;
    })
fresh-Indexed s name key value x e = record {
  below = λ other j f. elim (inserted s.by_name name other (length s.entries) j f) [
    | inl (same, k) ↦ omega (arith, k, length-append s.entries ((key, value) ∷ []))
    | inr g ↦ omega (arith, x.below other j g, length-append s.entries ((key, value) ∷ []))
  ];
  apart = λ one other j f g. elim (inserted s.by_name name one (length s.entries) j f) [
    | inl (same, k) ↦ elim (inserted s.by_name name other (length s.entries) j g) [
      | inl (too, l) ↦ sym same ∙ too
      | inr h ↦ absurd (omega (arith, k, x.below other j h))
    ]
    | inr h ↦ elim (inserted s.by_name name other (length s.entries) j g) [
      | inl (too, l) ↦ absurd (omega (arith, l, x.below one j h))
      | inr h' ↦ x.apart one other j h h'
    ]
  ];
}

upserted :
    (s : SpanFields) (name value other : Text) (o : Option ℕ)
    → Indexed s
    → get name s.by_name ≡ o
    → (value_of (upsert_at s name value o) other ≡ updated name value other (value_of s other))
      × Indexed (upsert_at s name value o)
unfolding upsert_at
upserted s name value other (some i) x e =
    (known-value s name value other i (get other s.by_name) x e refl, known-Indexed s i value x)
upserted s name value other none x e = (
  rw (get-insert name other (length s.entries) s.by_name)
      (fresh-value s name value other (get other s.by_name) x e refl),
  fresh-Indexed s name (s.key_prefix ++ sanitize_field_key name) value x e,
)

-- The updates of a span, at its creation and after.
abbrev pub upsert_all : SpanFields → List (Text × Text) → SpanFields
upsert_all s [] = s
upsert_all s ((name, value) ∷ rest) = upsert_all (upsert s name value) rest

-- The last value given to a name, or the one that it had before.
abbrev pub latest : Text → Option Text → List (Text × Text) → Option Text
latest name before [] = before
latest name before ((n, v) ∷ rest) = latest name (updated n v name before) rest

upsert_all-Indexed :
    (s : SpanFields) (updates : List (Text × Text)) (name : Text)
    → Indexed s
    → value_of (upsert_all s updates) name ≡ latest name (value_of s name) updates
unfolding upsert
upsert_all-Indexed s [] name x = refl
upsert_all-Indexed s ((n, v) ∷ rest) name x =
    let u = upserted s n v name (get n s.by_name) x refl in
    upsert_all-Indexed (upsert s n v) rest name u.1 ∙ ap (λ o. latest name o rest) u.0

-- Of any sequence of updates to a new span's fields, each name keeps the last value that it was
-- given, and a name that was never given has none.
pub upsert_all-latest :
    (span_name : Text) (updates : List (Text × Text)) (name : Text)
    → value_of (upsert_all (new span_name) updates) name ≡ latest name none updates
unfolding new
upsert_all-latest span_name updates name =
    upsert_all-Indexed (new span_name) updates name
      (record { below = λ n i e. cc; apart = λ n m i e f. cc })
