-- ===== src/Nacos/Tests.antt =====
-- Runs of the nacos configuration, and its theorems on them.
mod Remote
use Prim.Native.String.{String}
use neon_rs.Base.{
  Option, All, subst, Bool-cases, inl, inr, ℕ, zero, suc, ◌*◌, ◌+◌, ◌≤◌, ◌≡◌, ◌≢◌, ◌⊎◌, ◌↔◌, refl,
  Bool, true, false, Option, none, some, List, [], ◌∷◌, arith, if◌then◌else◌,
}
use neon_rs.Base.Assoc.{get, insert}
use neon_rs.Base.Text.{Text, text, text_eq}
use neon_rs.Base.Result.{Result, ok, err}
use neon_rs.Nacos.Format.{yaml, toml, resolve_format_for_entry}
use neon_rs.Nacos.Source.{
  Env, remote, NacosSource, new, ConfigError, default_startup_timeout, nacos_startup_timeout,
  add_listener, validate,
}
use neon_rs.Nacos.Source.Valid.{IsValid, validate_iff}
use neon_rs.Nacos.Client.{client}
use neon_rs.Nacos.Client.Plugins.{SignsIn, client-SignsIn}
use neon_rs.Nacos.Reload.{
  ConfigEntry, Entries, ConfigResponse, Settings, Shared, accept, merge_configs, new_shared, notify,
  apply_batch,
}
use neon_rs.Nacos.Reload.Batch.{overlay, Applied, RolledBack, apply_batch_outcome}
use neon_rs.Nacos.Reload.Merge.{Holds}
use neon_rs.Nacos.Worker.{
  System, Step, start, arrive, work, announce, Reach, here, arrives, steps, Steps, stay, more,
  announces, works,
}
use neon_rs.Nacos.Worker.Settles.{Quiet, settles}
use neon_rs.Nacos.Worker.Upcoming.{latest}
use neon_rs.Nacos.Worker.Converge.{Accepts, reload_converges}
use neon_rs.Nacos.Build.{
  World, answered, timed_out, Backend, NacosConfig, ConfigBuilder, build_remote, fetch,
  resolve_format, with_startup_timeout, shutdown,
}
use neon_rs.Nacos.Build.Serving.{Outcome, build_remote-Outcome}
use neon_rs.Nacos.Build.Shutdown.{at_rest, shutdown-build_remote, build_remote_in_sync}

abbrev app : Text
app = text "app.yaml"

abbrev shared_id : Text
shared_id = text "s.toml"

abbrev source : NacosSource
source = record (new (text "h:1" ∷ []) []) { data_id = app ∷ shared_id ∷ [] }

abbrev with_login : NacosSource
with_login = record source { username = some (text "u"); password = some (text "p") }

with_login-IsValid : validate {X = Text} with_login ≡ ok tt
unfolding validate new
with_login-IsValid = refl

validate_iff_example : (validate {X = Text} with_login ≡ ok tt) ↔ IsValid with_login
validate_iff_example = validate_iff Text with_login

client-SignsIn_example : SignsIn with_login (client with_login)
unfolding new
client-SignsIn_example = client-SignsIn Text with_login with_login-IsValid refl

-- A blank access key is no key for `validate`, and turns the plugin for keys on beside a password.
abbrev blank_key : NacosSource
blank_key = record with_login { access_key = some [] }

both_plugins :
    (validate {X = Text} blank_key ≡ ok tt)
    × ((client blank_key).auth_plugin_http ≡ true)
    × ((client blank_key).auth_plugin_aliyun ≡ true)
unfolding validate client new
both_plugins = (refl, refl, refl)

-- A stand-in for the parser: the sources themselves, if none is empty.
abbrev checks : List ConfigEntry → Result Text (List ConfigEntry) → Result Text (List ConfigEntry)
checks [] all = all
checks (e ∷ es) all = elim e.content [ [] ↦ err (text "empty") | _ ∷ _ ↦ checks es all ]

abbrev parser : List ConfigEntry → Result Text (List ConfigEntry)
parser es = checks es (ok es)

abbrev Parses : ConfigEntry → Type 0
Parses e = e.content ≢ []

checked :
    (content : Text) (es : List ConfigEntry) (all : Result Text (List ConfigEntry))
    → content ≢ []
    → checks es all ≡ all
    → elim content [ [] ↦ err (text "empty") | _ ∷ _ ↦ checks es all ] ≡ all
checked [] es all n h = absurd (n refl)
checked (x ∷ xs) es all n h = h

checks-ok :
    (es : List ConfigEntry) (all : Result Text (List ConfigEntry))
    → All Parses es
    → checks es all ≡ all
checks-ok [] all p = refl
checks-ok (e ∷ es) all (p, ps) = checked e.content es all p (checks-ok es all ps)

parser-builds :
    (es : List ConfigEntry) → All Parses es → (d : List ConfigEntry) × (parser es ≡ ok d)
parser-builds es p = (es, checks-ok es (ok es) p)

abbrev entry : String → ConfigEntry
entry s = record { content = text s; format = yaml }

abbrev first_entries : Entries
first_entries = (app, entry "a1") ∷ (shared_id, entry "s1") ∷ []

abbrev first_config : List ConfigEntry
first_config = entry "a1" ∷ entry "s1" ∷ []

abbrev order : List Text
order = app ∷ shared_id ∷ []

abbrev first_shared : Shared (List ConfigEntry)
first_shared = new_shared order first_entries first_config

abbrev update : Entries
update = (app, entry "a2") ∷ []

abbrev second_entries : Entries
second_entries = (app, entry "a2") ∷ (shared_id, entry "s1") ∷ []

overlaid : (k : Text) → get k second_entries ≡ overlay update first_shared.entries k
unfolding new_shared
overlaid k = ground arith

apply_batch_outcome_example :
    ((c : List ConfigEntry) × (merge_configs parser order second_entries ≡ ok c)
      × Applied order update c first_shared (apply_batch parser order first_shared update))
    ⊎ ((e : ConfigError Text) × (merge_configs parser order second_entries ≡ err e)
        × RolledBack first_shared (apply_batch parser order first_shared update))
apply_batch_outcome_example =
    apply_batch_outcome parser order first_shared update second_entries (refl, tt)
      (refl, (refl, tt)) refl overlaid

updated_and_rolled_back :
    ((apply_batch parser order first_shared update).tx.version ≡ 1)
    × (get app (apply_batch parser order first_shared ((app, entry "") ∷ [])).entries
        ≡ some (entry "a1"))
unfolding apply_batch new_shared insert
updated_and_rolled_back = (refl, refl)

abbrev settings : Settings
settings = record { default_format = none; data_id_formats = []; data_id_order = order }

abbrev response : String → ConfigResponse
response s = record { data_id = app; content = text s; content_type = text "yaml" }

abbrev began : System (List ConfigEntry)
began = start order first_entries first_config

-- Two responses, a call of `notify_one`, and the worker up to its next wait.
abbrev s1 : System (List ConfigEntry)
s1 = arrive settings (arrive settings began (response "a2")) (response "a3")

abbrev s2 : System (List ConfigEntry)
s2 = announce (announce s1 1) 0

abbrev w : System (List ConfigEntry) → System (List ConfigEntry)
w s = work parser order s

abbrev s3 : System (List ConfigEntry)
s3 = w (w (w (w s2)))

abbrev arrived : Reach parser settings began (response "a3" ∷ response "a2" ∷ []) s1
arrived = arrives (arrives here (response "a2")) (response "a3")

run_on : Steps parser order s1 6 s3
unfolding arrive announce work start new_shared accept resolve_format_for_entry insert
run_on =
    more
      (more
        (more (more (more (more stay (announces 1 refl)) (announces 0 refl)) (works refl))
          (works refl))
        (works refl))
      (works refl)

settles_example :
    (6 ≤ 3 * s1.unannounced + 6)
    × (Quiet s3 ⊎ ((u : System (List ConfigEntry)) × Step parser order s3 u))
settles_example =
    settles parser settings first_entries first_config (response "a3" ∷ response "a2" ∷ []) s1 s3 6
      arrived run_on

s3_reached : Reach parser settings began (response "a3" ∷ response "a2" ∷ []) s3
unfolding arrive announce work start new_shared accept resolve_format_for_entry insert
s3_reached =
    steps
      (steps
        (steps (steps (steps (steps arrived (announces 1 refl)) (announces 0 refl)) (works refl))
          (works refl))
        (works refl))
      (works refl)

s3-Quiet : Quiet s3
unfolding arrive announce work start new_shared accept resolve_format_for_entry insert apply_batch
s3-Quiet = record { asleep = refl; nothing_pending = refl; no_permit = refl; all_announced = refl }

first_merge : merge_configs parser order first_entries ≡ ok first_config
unfolding merge_configs
first_merge = refl

abbrev newest_entries : Entries
newest_entries = (app, entry "a3") ∷ (shared_id, entry "s1") ∷ []

newest_latest :
    (k : Text)
    → get k newest_entries ≡ latest settings (response "a3" ∷ response "a2" ∷ []) first_entries k
unfolding accept resolve_format_for_entry
newest_latest k = ground arith

cons-Holds :
    (id : Text) (x : ConfigEntry) (m : Entries)
    → Parses x
    → Holds Parses m
    → Holds Parses ((id, x) ∷ m)
cons-Holds id x m p h k e there = elim (Bool-cases (text_eq.beq id k)) [
  | inl same ↦
      let found : some x ≡ some e = rw same at there in
      let same_entry : x ≡ e = cc in subst Parses same_entry p
  | inr other ↦ h k e (rw other at there)
]

first_entries-Holds : Holds Parses first_entries
first_entries-Holds =
    cons-Holds app (entry "a1") ((shared_id, entry "s1") ∷ []) (λ h. cc)
      (cons-Holds shared_id (entry "s1") [] (λ h. cc) (λ k e there. cc))

accepted_entry :
    (s : String) (id : Text) (e : ConfigEntry)
    → text s ≢ []
    → Path (Option (Text × ConfigEntry)) (some (app, entry s)) (some (id, e))
    → Parses e
accepted_entry s id e n there = let same : entry s ≡ e = cc in subst Parses same n

responses-Accepts : All (Accepts Parses settings) (response "a3" ∷ response "a2" ∷ [])
unfolding accept resolve_format_for_entry
responses-Accepts = (
  λ id e there. accepted_entry "a3" id e (λ h. cc) there,
  (λ id e there. accepted_entry "a2" id e (λ h. cc) there, tt),
)

reload_converges_example :
    ((k : Text) → get k s3.shared.entries ≡ get k newest_entries)
    × (merge_configs parser order newest_entries ≡ ok s3.shared.tx.value)
reload_converges_example =
    reload_converges parser settings first_entries first_config Parses parser-builds
      (response "a3" ∷ response "a2" ∷ []) s3 newest_entries first_entries-Holds responses-Accepts
      (refl, (refl, tt)) first_merge s3_reached s3-Quiet newest_latest
