-- ===== src/Sls/Layer/Routing.antt =====
-- The routing table that a build yields: each level goes to the first sink that claimed it.
use neon_rs.Base.{
  ℕ, suc, ◌<◌, ◌≡◌, refl, sym, ap, ◌∙◌, Option, none, some, List, [], ◌∷◌, ◌++◌, map, arith,
  replicate, length, length-append, length-set, All, get_elem?, get_elem?-set, any, ◌==◌, ==_iff,
  Bool-cases, inl, inr, Bool, true, false, ◌||◌, if◌then◌else◌, max, ◌≤◌,
}
use mathlib.Core.List.{append-nil, append_assoc}
use neon_rs.Base.Result.{Result, ok, err}
use neon_rs.Base.Text.{Text}
use neon_rs.Sls.Config.{SlsConfig, millis}
use neon_rs.Sls.Layer.{
  Level, error, warn, info, debug, trace, level_index, level_count, level_tag, Routing,
  assign_route, assign_routes, Spec, Built, BuildError, spawn_failed, Spawn, build_loop,
  build_sinks,
}

-- The position of the first sink that claims the level, counted from `idx`.
abbrev pub first_claim : Level → ℕ → List Spec → Option ℕ
first_claim l idx [] = none
first_claim l idx ((levels, config) ∷ specs) =
    let rest = first_claim l (suc idx) specs in
    if any (λ m. level_index m == level_index l) levels then some idx else rest

abbrev pub or_else : Option ℕ → Option ℕ → Option ℕ
or_else (some i) o = some i
or_else none o = o

level_index-lt : (l : Level) → level_index l < 5
unfolding level_index
level_index-lt error = omega arith
level_index-lt warn = omega arith
level_index-lt info = omega arith
level_index-lt debug = omega arith
level_index-lt trace = omega arith

-- What a claim by `idx` does to the entry of a level.
abbrev claimed : Bool → ℕ → Option (Option ℕ) → Option (Option ℕ)
claimed b idx none = none
claimed b idx (some o) = some (or_else o (if b then some idx else none))

claimed-false : (idx : ℕ) (o : Option (Option ℕ)) → o ≡ claimed false idx o
claimed-false idx none = refl
claimed-false idx (some none) = refl
claimed-false idx (some (some i)) = refl

same_entry :
    (routing : Routing) (li j : ℕ) → (li == j) ≡ true → get_elem? routing j ≡ get_elem? routing li
same_entry routing li j h = ap (get_elem? routing) (sym ((==_iff li j).0 h))

assign_route_at :
    (routing : Routing) (li idx j : ℕ) (o : Option (Option ℕ))
    → li < length routing
    → get_elem? routing li ≡ o
    → (get_elem? (assign_route routing li idx o) j ≡ claimed (li == j) idx (get_elem? routing j))
      × (length (assign_route routing li idx o) ≡ length routing)
unfolding assign_route
assign_route_at routing li idx j none h e = elim (Bool-cases (li == j)) [
  | inl same ↦ rw (same, same_entry routing li j same, e) (refl, refl)
  | inr other ↦ rw other (claimed-false idx (get_elem? routing j), refl)
]
assign_route_at routing li idx j (some none) h e = elim (Bool-cases (li == j)) [
  | inl same ↦ (
    get_elem?-set routing li j (some idx) h ∙ rw (same, same_entry routing li j same, e) refl,
    length-set routing li (some idx),
  )
  | inr other ↦ (
    get_elem?-set routing li j (some idx) h ∙ rw other (claimed-false idx (get_elem? routing j)),
    length-set routing li (some idx),
  )
]
assign_route_at routing li idx j (some (some i)) h e = elim (Bool-cases (li == j)) [
  | inl same ↦ rw (same, same_entry routing li j same, e) (refl, refl)
  | inr other ↦ rw other (claimed-false idx (get_elem? routing j), refl)
]

claimed_twice :
    (a b : Bool) (idx : ℕ) (o : Option (Option ℕ))
    → claimed b idx (claimed a idx o) ≡ claimed (a || b) idx o
claimed_twice a b idx none = refl
claimed_twice a b idx (some none) = ground arith
claimed_twice a b idx (some (some i)) = refl

abbrev claims : Level → List Level → Bool
claims l levels = any (λ m. level_index m == level_index l) levels

assign_routes-get :
    (routing : Routing) (levels : List Level) (idx : ℕ) (l : Level)
    → length routing ≡ 5
    → (get_elem? (assign_routes routing levels idx) (level_index l)
        ≡ claimed (claims l levels) idx (get_elem? routing (level_index l)))
      × (length (assign_routes routing levels idx) ≡ 5)
unfolding assign_routes
assign_routes-get routing [] idx l h = (claimed-false idx (get_elem? routing (level_index l)), h)
assign_routes-get routing (m ∷ ms) idx l h =
    let li = level_index m in
    let next = assign_route routing li idx (get_elem? routing li) in
    let one =
      assign_route_at routing li idx (level_index l) (get_elem? routing li)
        (omega (arith, h, level_index-lt m)) refl in
    let more = assign_routes-get next ms idx l (one.1 ∙ h) in
    (
      more.0
          ∙ ap (claimed (claims l ms) idx) one.0
          ∙ claimed_twice (li == level_index l) (claims l ms) idx
              (get_elem? routing (level_index l)),
      more.1,
    )

-- The sinks started so far fix the entries that are set; later specs fill the others.
abbrev entry_after : Option ℕ → Option (Option ℕ) → Option (Option ℕ)
entry_after later none = none
entry_after later (some o) = some (or_else o later)

entry_after-claimed :
    (b : Bool) (idx : ℕ) (later : Option ℕ) (o : Option (Option ℕ))
    → entry_after later (claimed b idx o) ≡ entry_after (if b then some idx else later) o
entry_after-claimed b idx later none = refl
entry_after-claimed b idx later (some none) = ground arith
entry_after-claimed b idx later (some (some i)) = refl

entry_after-none : (o : Option (Option ℕ)) → o ≡ entry_after none o
entry_after-none none = refl
entry_after-none (some none) = refl
entry_after-none (some (some i)) = refl

spawned :
    (r : Result Text Unit) (rest : Result BuildError Built) (started : List SlsConfig) (timeout : ℕ)
    (built : Built)
    → elim r [ ok _ ↦ rest | err e ↦ err (spawn_failed e started timeout) ] ≡ ok built
    → rest ≡ ok built
spawned (ok _) rest started timeout built e = e
spawned (err x) rest started timeout built e = cc

BuiltFrom : Built → Built → List Spec → Level → Type 0
BuiltFrom b built specs l =
    (get_elem? built.routing (level_index l)
      ≡ entry_after (first_claim l (length b.sinks) specs) (get_elem? b.routing (level_index l)))
    × (built.sinks ≡ b.sinks ++ map (λ s. s.1) specs)
    × (b.shutdown_timeout ≤ built.shutdown_timeout)
    × All (λ s. s.1.shutdown_timeout ≤ built.shutdown_timeout) specs

build_loop-BuiltFrom :
    (spawn : Spawn) (b built : Built) (specs : List Spec) (l : Level)
    → length b.routing ≡ 5
    → build_loop spawn b specs ≡ ok built
    → BuiltFrom b built specs l
unfolding build_loop BuiltFrom
build_loop-BuiltFrom spawn b built [] l h e =
    let z : built ≡ b = cc in
    rw z (
      entry_after-none (get_elem? b.routing (level_index l)),
      sym (append-nil b.sinks),
      omega arith,
      tt,
    )
build_loop-BuiltFrom spawn b built ((levels, config) ∷ specs) l h e =
    let idx = length b.sinks in
    let timeout = max b.shutdown_timeout config.shutdown_timeout in
    let next : Built = record {
      sinks = b.sinks ++ config ∷ [];
      routing = assign_routes b.routing levels idx;
      shutdown_timeout = timeout;
    } in
    let rest =
      spawned (spawn idx (level_tag levels) config) (build_loop spawn next specs) b.sinks timeout
        built e in
    let a = assign_routes-get b.routing levels idx l h in
    let n : length next.sinks ≡ suc idx = omega (arith, length-append b.sinks (config ∷ [])) in
    let ih = build_loop-BuiltFrom spawn next built specs l a.1 rest in
    (
      ih.0
          ∙ rw (n, a.0)
              (entry_after-claimed (claims l levels) idx (first_claim l (suc idx) specs)
                (get_elem? b.routing (level_index l))),
      ih.1 ∙ append_assoc b.sinks (config ∷ []) (map (λ s. s.1) specs),
      omega (arith, ih.2),
      (omega (arith, ih.2), ih.3),
    )

vacant :
    (m : Level) → get_elem? {A = Option ℕ} (replicate level_count none) (level_index m) ≡ some none
unfolding level_index
vacant error = refl
vacant warn = refl
vacant info = refl
vacant debug = refl
vacant trace = refl

-- A build that succeeds has one sink for each specification, in order; each level goes to the
-- first of them that claimed it, and to none when nobody did; and the guard waits at least as
-- long as every sink may take to shut down.
pub build_sinks_routes :
    (spawn : Spawn) (specs : List Spec) (built : Built) (l : Level)
    → build_sinks spawn specs ≡ ok built
    → (get_elem? built.routing (level_index l) ≡ some (first_claim l 0 specs))
      × (built.sinks ≡ map (λ s. s.1) specs)
      × All (λ s. s.1.shutdown_timeout ≤ built.shutdown_timeout) specs
unfolding build_sinks BuiltFrom
build_sinks_routes spawn [] built l e = cc
build_sinks_routes spawn (s ∷ specs) built l e =
    let b : Built = record {
      sinks = [];
      routing = replicate level_count none;
      shutdown_timeout = millis 1;
    } in
    let r = build_loop-BuiltFrom spawn b built (s ∷ specs) l refl e in
    (r.0 ∙ rw (vacant l) refl, r.1, r.3)
