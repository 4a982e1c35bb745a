-- ===== src/Office/Pool.antt =====
-- The managed pool of unoserver processes (app/utils/office_pool.py). The machine and what its
-- processes do are parameters; locks, ports and waiting are not modelled.
pub mod Modes
pub mod Strikes
use tools_backend.Base.{
  ℕ, suc, ◌+◌, ◌-◌, ◌/◌, max, ap, Bool, true, false, ◌||◌, not, Option, none, some, List, [], ◌∷◌,
  ltb, if◌then◌else◌, get_elem?, set, replicate, Result, ok, err,
}
use tools_backend.Office.Command.{Exit, CommandError, OfficeError, CommandResult, run_tool_command}
use tools_backend.Office.Launchers.{
  FilterValue, Launcher, Machine, client_args, client_launcher, filter_args, filter_option_args,
  has_launchers, lo_client, lo_python_candidate, module_args, on_path_candidate, option_args,
  own_python_candidate, package_client, path_client, plain, pythonpath_env, rendered, script_client,
  server_launcher_candidates,
}

pub record Server : Type 0 where
  pub process : ℕ
  pub port : ℕ

-- How the start of a server fails: PoolUnavailable, or an OSError of starting the process or of
-- looking for a port.
pub data SpawnError : Type 0 where
  startup_failed spawn_os_error : SpawnError

pub record Pool : Type 0 where
  pub launcher : Launcher
  pub client : Launcher
  pub servers : List (Option Server)

-- The module's globals: `_pool`, `_pool_disabled` and `_engine_strikes`
pub data Engine : Type 0 where
  engine : Option Pool → Bool → ℕ → Engine

abbrev pub strike_cost : ℕ
strike_cost = 2

abbrev pub strike_limit : ℕ
strike_limit = 6

unfoldable pub record_engine_strike : Engine → Engine
record_engine_strike (engine pool disabled strikes) =
    if ltb (strikes + strike_cost) strike_limit || disabled
    then engine pool disabled (strikes + strike_cost)
    else engine none true (strikes + strike_cost)

unfoldable pub record_engine_success : Engine → Engine
record_engine_success (engine pool disabled strikes) = engine pool disabled (strikes - 1)

-- What the processes do during one call: a server that starts, one that runs, what the client
-- does, and whether the server is dead after a failure; `slot` is the one leased.
pub record World : Type 0 where
  pub spawn : Launcher → Result SpawnError Server
  pub is_alive : Server → Bool
  pub run : Server → Exit
  pub server_died : Server → Bool
  pub slot : ℕ

-- `except (PoolUnavailable, OSError)`: the candidate is skipped.
abbrev pub started_on : Result SpawnError Server → Launcher → Launcher → ℕ → Option Pool
started_on (err _) launcher client size = none
started_on (ok server) launcher client size = some (record {
  launcher = launcher;
  client = client;
  servers = set (replicate (max 1 size) none) 0 (some server);
})

abbrev pub or_else : Option Pool → Option Pool → Option Pool
or_else none other = other
or_else (some p) other = some p

-- The loop over the candidates: the first one whose server starts.
unfoldable pub first_started : World → List Launcher → Launcher → ℕ → Option Pool
first_started w [] client size = none
first_started w (l ∷ ls) client size =
    or_else (started_on (w.spawn l) l client size) (first_started w ls client size)

abbrev pub started_pool : World → Machine → Option Launcher → Option Pool
started_pool w m none = none
started_pool w m (some client) = first_started w (server_launcher_candidates m) client m.pool_size

-- A pool that starts is kept; failure is for good.
abbrev pub settled : Option Pool → ℕ → Engine
settled none strikes = engine none true strikes
settled (some p) strikes = engine (some p) false strikes

-- `_activate_pool`, the globals behind it; a call that leaves no pool raises PoolUnavailable.
unfoldable pub activate_pool : World → Machine → Engine → Engine
unfolding first_started server_launcher_candidates client_launcher
activate_pool w m (engine (some p) disabled strikes) = engine (some p) disabled strikes
activate_pool w m (engine none true strikes) = engine none true strikes
activate_pool w m (engine none false strikes) =
    settled (started_pool w m (client_launcher m)) strikes

unfoldable pub pool_available : Machine → Engine → Bool
unfolding server_launcher_candidates client_launcher
pool_available m (engine (some p) disabled strikes) = true
pool_available m (engine none true strikes) = false
pool_available m (engine none false strikes) =
    has_launchers (server_launcher_candidates m) (client_launcher m)

-- A slot that is out of range, or has no server that runs, gets a new one.
abbrev pub live_server : World → Launcher → Option (Option Server) → Result SpawnError Server
live_server w launcher (some (some server)) =
    if w.is_alive server then ok server else w.spawn launcher
live_server w launcher (some none) = w.spawn launcher
live_server w launcher none = w.spawn launcher

-- `_ensure_server`
unfoldable pub ensure_server : World → Pool → Result SpawnError Server
ensure_server w p = live_server w p.launcher (get_elem? p.servers w.slot)

abbrev pub with_server : World → Server → Pool → Pool
with_server w server p = record p { servers = set p.servers w.slot (some server) }

-- A failed client: a dead server blames the engine, a timeout and a live server the document.
abbrev pub after_client :
    World
    → Server
    → Engine
    → Result OfficeError CommandResult
    → Engine × Result OfficeError (Unit {0})
after_client w server e (ok _) = (record_engine_success e, ok tt)
after_client w server e (err (OfficeError.command_error c)) =
    if c.timed_out || not (w.server_died server)
    then (e, err (OfficeError.command_error c))
    else (record_engine_strike e, err (OfficeError.pool_crashed c))
after_client w server e (err other) = (e, err other)

abbrev pub raised : SpawnError → OfficeError
raised startup_failed = OfficeError.pool_unavailable
raised spawn_os_error = OfficeError.os_error

abbrev pub run_on :
    World → Result SpawnError Server → Pool → Bool → ℕ → Engine × Result OfficeError (Unit {0})
run_on w (err e) p disabled strikes = (engine (some p) disabled strikes, err (raised e))
run_on w (ok server) p disabled strikes =
    after_client w server (engine (some (with_server w server p)) disabled strikes)
      (run_tool_command (0 ∷ []) (w.run server))

unfoldable pub convert_on : World → Engine → Engine × Result OfficeError (Unit {0})
unfolding ensure_server
convert_on w (engine none disabled strikes) =
    (engine none disabled strikes, err OfficeError.pool_unavailable)
convert_on w (engine (some p) disabled strikes) = run_on w (ensure_server w p) p disabled strikes

unfoldable pub pool_convert : World → Machine → Engine → Engine × Result OfficeError (Unit {0})
unfolding activate_pool run_tool_command record_engine_strike record_engine_success
pool_convert w m e = convert_on w (activate_pool w m e)

abbrev pub warmed_slot :
    Option Server
    → List (Option Server)
    → List (Option Server) × Result SpawnError (Unit {0})
    → Result SpawnError Server
    → List (Option Server) × Result SpawnError (Unit {0})
warmed_slot s servers rest (err e) = (s ∷ servers, err e)
warmed_slot s servers (rest, result) (ok server) = (some server ∷ rest, result)

-- The loop of `UnoServerPool.prewarm`, which a server that does not start ends
unfoldable pub prewarm_servers :
    World → Launcher → List (Option Server) → List (Option Server) × Result SpawnError (Unit {0})
prewarm_servers w launcher [] = ([], ok tt)
prewarm_servers w launcher (s ∷ servers) =
    warmed_slot s servers (prewarm_servers w launcher servers) (live_server w launcher (some s))

unfoldable pub prewarmed : World → Engine → Engine × Result SpawnError (Unit {0})
unfolding prewarm_servers
prewarmed w (engine none disabled strikes) = (engine none disabled strikes, err startup_failed)
prewarmed w (engine (some p) disabled strikes) =
    let (servers, result) = prewarm_servers w p.launcher p.servers in
    (engine (some (record p { servers = servers })) disabled strikes, result)

-- A PoolUnavailable is only logged, an OSError escapes.
abbrev pub logged : Result SpawnError (Unit {0}) → Result SpawnError (Unit {0})
logged (ok _) = ok tt
logged (err startup_failed) = ok tt
logged (err spawn_os_error) = err spawn_os_error

-- `pool_prewarm`
unfoldable pub pool_prewarm : World → Machine → Engine → Engine × Result SpawnError (Unit {0})
unfolding activate_pool prewarmed
pool_prewarm w m e = let (e', result) = prewarmed w (activate_pool w m e) in (e', logged result)
