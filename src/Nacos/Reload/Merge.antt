-- ===== src/Nacos/Reload/Merge.antt =====
-- crates/neon-config/src/nacos/config.rs: what `merge_configs` reads, and when it succeeds.
use neon_rs.Base.{All, ◌≡◌, ◌≢◌, refl, ap, ◌∙◌, Option, none, some, List, [], ◌∷◌, arith}
use neon_rs.Base.Assoc.{get}
use neon_rs.Base.Text.{Text, text_eq}
use neon_rs.Base.Result.{Result, ok, err, bind_ok}
use neon_rs.Nacos.Source.{ConfigError}
use neon_rs.Nacos.Reload.{ConfigEntry, Entries, with_entry, gather, merge_configs}

gather_ext :
    {X : Type 0} (ids : List Text) (es fs : Entries)
    → ((k : Text) → get k es ≡ get k fs)
    → gather {X = X} ids es ≡ gather ids fs
unfolding gather
gather_ext {X} [] es fs h = refl
gather_ext {X} (id ∷ ids) es fs h = ground (arith, h id, gather_ext {X = X} ids es fs h)

-- Merging reads the entries by their keys alone.
pub merge_configs_ext :
    {Config X : Type 0} (build : List ConfigEntry → Result X Config) (order : List Text)
    (es fs : Entries)
    → ((k : Text) → get k es ≡ get k fs)
    → merge_configs build order es ≡ merge_configs build order fs
unfolding merge_configs
merge_configs_ext build [] es fs h = refl
merge_configs_ext build (id ∷ ids) es fs h = rw (gather_ext (id ∷ ids) es fs h) refl

with_entry_ok :
    {X : Type 0} (id : Text) (o : Option ConfigEntry)
    (rest : Result (ConfigError X) (List ConfigEntry)) (xs : List ConfigEntry)
    → with_entry id o rest ≡ ok xs
    → (o ≢ none) × (ys : List ConfigEntry) × (rest ≡ ok ys)
unfolding with_entry
with_entry_ok id none rest xs h = cc
with_entry_ok id (some e) (ok ys) xs h = (λ e. cc, ys, refl)
with_entry_ok id (some e) (err x) xs h = cc

-- Every entry is one of these.
abbrev pub Holds : (ConfigEntry → Type 0) → Entries → Type 0
Holds P m = (k : Text) (e : ConfigEntry) → get k m ≡ some e → P e

module _ {X : Type 0} (P : ConfigEntry → Type 0) where
  with_entry-some :
      (id : Text) (o : Option ConfigEntry) (ys : List ConfigEntry)
      → o ≢ none
      → ((e : ConfigEntry) → o ≡ some e → P e)
      → All P ys
      → (zs : List ConfigEntry) × All P zs × (with_entry {X = X} id o (ok ys) ≡ ok zs)
  unfolding with_entry
  with_entry-some id none ys n p ps = absurd (n refl)
  with_entry-some id (some e) ys n p ps = (e ∷ ys, (p e refl, ps), refl)

  gather_total :
      (ids : List Text) (es fs : Entries) (xs : List ConfigEntry)
      → Holds P fs
      → ((k : Text) → get k fs ≡ none → get k es ≡ none)
      → gather {X = X} ids es ≡ ok xs
      → (ys : List ConfigEntry) × All P ys × (gather {X = X} ids fs ≡ ok ys)
  unfolding gather
  gather_total [] es fs xs held more h = ([], tt, refl)
  gather_total (id ∷ ids) es fs xs held more h =
      let (had, zs, rest) = with_entry_ok id (get id es) (gather {X = X} ids es) xs h in
      let (ys, ps, all) = gather_total ids es fs zs held more rest in
      let (ws, qs, whole) =
        with_entry-some id (get id fs) ys (λ lost. had (more id lost)) (held id) ps in
      (ws, qs, ap (with_entry {X = X} id (get id fs)) all ∙ whole)

-- More entries merge too, where every list of such sources builds.
pub merge_configs_total :
    {Config X : Type 0} (build : List ConfigEntry → Result X Config) (P : ConfigEntry → Type 0)
    (order : List Text) (es fs : Entries) (c : Config)
    → ((sources : List ConfigEntry) → All P sources → (d : Config) × (build sources ≡ ok d))
    → Holds P fs
    → ((k : Text) → get k fs ≡ none → get k es ≡ none)
    → merge_configs build order es ≡ ok c
    → (d : Config) × (merge_configs build order fs ≡ ok d)
unfolding merge_configs
merge_configs_total build P [] es fs c builds held more h = cc
merge_configs_total {Config} {X} build P (id ∷ ids) es fs c builds held more h =
    let (xs, _, all) = bind_ok (gather {X = X} (id ∷ ids) es) _ h in
    let (ys, ps, all') = gather_total {X = X} P (id ∷ ids) es fs xs held more all in
    let (d, built) = builds ys ps in (d, rw (all', built) refl)
