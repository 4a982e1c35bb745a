-- ===== src/Office/Examples.antt =====
-- A machine with one launcher, and conversions on it.
use tools_backend.Base.{
  ◌≡◌, refl, Bool, true, false, none, some, List, [], ◌∷◌, arith, ok, err, codes,
}
use tools_backend.Office.Command.{exited, CommandError, OfficeError}
use tools_backend.Office.Launchers.{Machine}
use tools_backend.Office.Pool.{
  Server, Pool, Engine, engine, World, pool_convert, record_engine_strike,
}
use tools_backend.Office.Pool.Modes.{
  Moves, mode_of, IsEngine, PoolCall, converting, Outcome, conversion, call_all, call_all-Moves,
}
use tools_backend.Office.Pool.Strikes.{play, is_disabled, play-is_disabled}
use tools_backend.Office.Convert.{OfficeSettings, Run, converted, libreoffice_convert}

abbrev machine : Machine
machine = record {
  unoserver_bin = [];
  pool_size = 2;
  split_launcher = λ t. t ∷ [];
  which = λ t. some t;
  client_script = none;
  package_root = none;
  lo_python = none;
  has_module = λ t. false;
  executable = codes "python";
  pythonpath = [];
  pathsep = codes ":";
}

-- Every server starts, the client fails, and the server is dead afterwards.
abbrev crashing : World
crashing = record {
  spawn = λ l. ok (record { process = 1; port = 2002 });
  is_alive = λ s. false;
  run = λ s. exited 1 [] [];
  server_died = λ s. true;
  slot = 0;
}

abbrev fresh_engine : Engine
fresh_engine = engine none false 0

-- Three crashes disable the pool.
abbrev three_crashes : List PoolCall
three_crashes = converting crashing ∷ converting crashing ∷ converting crashing ∷ []

abbrev dead_server : CommandError
dead_server = record { returncode = some 1; stderr = []; timed_out = false }

abbrev crashed : Outcome
crashed = conversion (err (OfficeError.pool_crashed dead_server))

call_all-Moves_example :
    IsEngine (engine none true 6)
    × Moves three_crashes
        (crashed ∷ crashed ∷ crashed ∷ [])
        (mode_of fresh_engine)
        (mode_of (engine none true 6))
unfolding call_all tools_backend.Office.Pool.convert_on
call_all-Moves_example = call_all-Moves machine three_crashes fresh_engine refl

abbrev some_pool : Pool
some_pool = record {
  launcher = record { argv = []; pythonpath = none };
  client = record { argv = []; pythonpath = none };
  servers = none ∷ [];
}

-- A crash on every other conversion.
abbrev alternating : List Bool
alternating =
    true ∷ false ∷ true ∷ false ∷ true ∷ false ∷ true ∷ false ∷ true ∷ false ∷ true ∷ false ∷ []

play-is_disabled_example : is_disabled (play alternating (engine (some some_pool) false 0)) ≡ true
play-is_disabled_example =
    play-is_disabled alternating (some some_pool) 0 (omega arith) (omega arith)

abbrev settings : OfficeSettings
settings = record {
  unoconvert_bin = [];
  office_engine = codes "auto";
  unoserver_pool_size = 2;
  soffice_profile_pool_size = 2;
}

-- The pool crashes, and soffice produces the file on its second attempt.
abbrev run : Run
run = record {
  world = crashing;
  pool_produced = false;
  external_client = record { exit = exited 1 [] []; produced = false };
  first = record { exit = exited 0 [] []; produced = false };
  second = record { exit = exited 0 [] []; produced = true };
  input_bytes = none;
}

-- The automatic engine falls back to soffice.
fallen_back :
    libreoffice_convert settings machine run fresh_engine
    ≡ ((pool_convert crashing machine fresh_engine).0, converted)
unfolding libreoffice_convert pool_convert tools_backend.Office.Pool.convert_on
fallen_back = refl
