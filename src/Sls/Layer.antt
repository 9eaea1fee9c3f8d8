-- ===== src/Sls/Layer.antt =====
-- crates/neon-log/src/sls/layer.rs: levels, `SlsLayerBuilder` and the routing table. Starting a
-- sink creates a client and a thread; whether it succeeds is the environment's answer.
pub mod Fields
pub mod Spans
pub mod Event
pub mod Routing
mod Tests
use neon_rs.Base.{
  ℕ, suc, Option, none, some, List, [], ◌∷◌, ◌++◌, min, max, replicate, length, get_elem?, set,
  is_empty, Bool, true, false, if◌then◌else◌, map,
}
use neon_rs.Base.Result.{Result, ok, err}
use neon_rs.Base.Text.{Text, text}
use neon_rs.Sls.Config.{SlsConfig, millis}

pub data Level : Type 0 where
  error warn info debug trace : Level

abbrev pub level_count : ℕ
level_count = 5

unfoldable pub level_index : Level → ℕ
level_index error = 0
level_index warn = 1
level_index info = 2
level_index debug = 3
level_index trace = 4

abbrev level_char : Level → ℕ
level_char error = b'E'
level_char warn = b'W'
level_char info = b'I'
level_char debug = b'D'
level_char trace = b'T'

unfoldable pub level_tag : List Level → Text
level_tag levels = if is_empty levels then text "_" else map level_char levels

abbrev pub Routing : Type 0
Routing = List (Option ℕ)

-- One level: registered only when nobody has it yet.
assign_route : Routing → ℕ → ℕ → Option (Option ℕ) → Routing
assign_route routing li idx (some none) = set routing li (some idx)
assign_route routing li idx _ = routing

unfoldable pub assign_routes : Routing → List Level → ℕ → Routing
unfolding assign_route
assign_routes routing [] idx = routing
assign_routes routing (l ∷ ls) idx =
    assign_routes (assign_route routing (level_index l) idx (get_elem? routing (level_index l))) ls
      idx

abbrev pub Spec : Type 0
Spec = List Level × SlsConfig

-- `add_sink`.
abbrev pub add_sink : List Spec → List Level → SlsConfig → List Spec
add_sink specs levels config = specs ++ (levels, config) ∷ []

-- What was built: the configurations of the sinks, in order, the routes, and the guard's timeout.
pub record Built : Type 0 where
  pub sinks : List SlsConfig
  pub routing : Routing
  pub shutdown_timeout : ℕ

-- A failed build shuts down the sinks that it had started, under this timeout.
pub data BuildError : Type 0 where
  no_sinks : BuildError
  spawn_failed : Text → List SlsConfig → ℕ → BuildError

abbrev pub Spawn : Type 0
Spawn = ℕ → Text → SlsConfig → Result Text Unit

build_loop : Spawn → Built → List Spec → Result BuildError Built
build_loop spawn b [] = ok b
build_loop spawn b ((levels, config) ∷ specs) =
    let timeout = max b.shutdown_timeout config.shutdown_timeout in
    let idx = length b.sinks in
    let rest =
      build_loop spawn
        (record {
          sinks = b.sinks ++ config ∷ [];
          routing = assign_routes b.routing levels idx;
          shutdown_timeout = timeout;
        })
        specs in
    elim (spawn idx (level_tag levels) config) [
      | ok _ ↦ rest
      | err e ↦ err (spawn_failed e b.sinks timeout)
    ]

unfoldable pub build_sinks : Spawn → List Spec → Result BuildError Built
unfolding build_loop
build_sinks spawn [] = err no_sinks
build_sinks spawn (s ∷ specs) =
    build_loop spawn
      (record { sinks = []; routing = replicate level_count none; shutdown_timeout = millis 1 })
      (s ∷ specs)

abbrev pub default_ew_queue_capacity : ℕ
default_ew_queue_capacity = 8_192

-- The free function `build`: the two sinks of the older interface.
unfoldable pub build : Spawn → SlsConfig → Result BuildError Built
build spawn config =
    let ew_config = record config {
      queue_capacity = min config.queue_capacity default_ew_queue_capacity;
    } in
    build_sinks spawn
      (add_sink (add_sink [] (error ∷ warn ∷ []) ew_config) (info ∷ debug ∷ trace ∷ []) config)
