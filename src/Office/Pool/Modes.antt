-- ===== src/Office/Pool/Modes.antt =====
-- The life of the managed pool as three modes (app/utils/office_pool.py): not tried yet, active with
-- a score of crashes, disabled for the rest of the process.
use tools_backend.Base.{
  ℕ, ◌+◌, ◌-◌, ◌≤◌, ◌<◌, ◌≡◌, refl, inl, inr, Bool, true, false, ◌&&◌, ◌||◌, not, Option, none,
  some, List, [], ◌∷◌, arith, ltb, ltb→lt, Bool-cases, Result, ok, err, codes,
}
use tools_backend.Office.Command.{
  Exit, exited, timed_out, not_found, not_started, CommandError, OfficeError, CommandResult,
  is_some, is_ok_code, translated, run_command, run_tool_command,
}
use tools_backend.Office.Launchers.{Machine, client_launcher}
use tools_backend.Office.Pool.{
  Server, SpawnError, startup_failed, spawn_os_error, Pool, Engine, engine, World,
  record_engine_strike, record_engine_success, activate_pool, started_pool, settled, ensure_server,
  with_server, after_client, run_on, convert_on, pool_convert, prewarmed, logged, pool_prewarm,
}

pub data Mode : Type 0 where
  untried disabled : Mode
  active : ℕ → Mode

-- The calls of the module, each with what the processes do, and how such a call ends.
pub data PoolCall : Type 0 where
  converting prewarming : World → PoolCall

pub data Outcome : Type 0 where
  conversion : Result OfficeError (Unit {0}) → Outcome
  warming : Result SpawnError (Unit {0}) → Outcome

-- The activation that comes first in every call
pub data Boot : Mode → Mode → Type 0 where
  boot : Boot untried (active 0)
  give_up : Boot untried disabled
  keep_pool : {n : ℕ} → Boot (active n) (active n)
  keep_disabled : Boot disabled disabled

-- An error that neither the engine nor the document has caused
abbrev pub is_unblamed : OfficeError → Bool
is_unblamed OfficeError.processing_error = true
is_unblamed OfficeError.pool_unavailable = true
is_unblamed OfficeError.os_error = true
is_unblamed (OfficeError.command_error c) = false
is_unblamed (OfficeError.pool_crashed c) = false

-- The moves that a call with its outcome makes behind the activation. A conversion that succeeds
-- gives a point back. One that ends in PoolCrashed costs two points, and the sixth point is one too
-- many; its client has failed in time and its server is dead. A client that times out, or fails
-- while its server lives, costs nothing, nor does any other error. A disabled engine refuses.
pub data Move : PoolCall → Outcome → Mode → Mode → Type 0 where
  recover :
      {w : World} {n : ℕ} → Move (converting w) (conversion (ok tt)) (active n) (active (n - 1))
  crash :
      {w : World} {n : ℕ} {c : CommandError} (server : Server)
      → (c.timed_out || not (w.server_died server)) ≡ false
      → n + 2 < 6
      → Move
          (converting w)
          (conversion (err (OfficeError.pool_crashed c)))
          (active n)
          (active (n + 2))
  break :
      {w : World} {n : ℕ} {c : CommandError} (server : Server)
      → (c.timed_out || not (w.server_died server)) ≡ false
      → 6 ≤ n + 2
      → Move (converting w) (conversion (err (OfficeError.pool_crashed c))) (active n) disabled
  spare :
      {w : World} {n : ℕ} {c : CommandError} (server : Server)
      → (c.timed_out || not (w.server_died server)) ≡ true
      → Move (converting w) (conversion (err (OfficeError.command_error c))) (active n) (active n)
  pass :
      {w : World} {n : ℕ} {e : OfficeError}
      → is_unblamed e ≡ true
      → Move (converting w) (conversion (err e)) (active n) (active n)
  refuse :
      {w : World}
      → Move (converting w) (conversion (err OfficeError.pool_unavailable)) disabled disabled
  warm :
      {w : World} {n : ℕ} {r : Result SpawnError (Unit {0})}
      → Move (prewarming w) (warming r) (active n) (active n)
  skip : {w : World} → Move (prewarming w) (warming (ok tt)) disabled disabled

pub data Moves : List PoolCall → List Outcome → Mode → Mode → Type 0 where
  stay : {m : Mode} → Moves [] [] m m
  then_move :
      {call : PoolCall} {calls : List PoolCall} {o : Outcome} {os : List Outcome} {m n k l : Mode}
      → Boot m n
      → Move call o n k
      → Moves calls os k l
      → Moves (call ∷ calls) (o ∷ os) m l

-- The mode of the module's globals.
abbrev pub mode_of : Engine → Mode
mode_of (engine (some p) _ strikes) = active strikes
mode_of (engine none true strikes) = disabled
mode_of (engine none false strikes) = untried

-- A disabled engine has no pool, an engine with a pool is below the limit, and an engine that has
-- not been tried has no strikes.
abbrev pub IsEngine : Engine → Type 0
IsEngine (engine (some p) true strikes) = ⊥
IsEngine (engine (some p) false strikes) = strikes < 6
IsEngine (engine none true strikes) = Unit
IsEngine (engine none false strikes) = strikes ≡ 0

-- Behind the activation the engine has a pool or is disabled.
abbrev IsSettled : Engine → Type 0
IsSettled (engine (some p) true strikes) = ⊥
IsSettled (engine (some p) false strikes) = strikes < 6
IsSettled (engine none true strikes) = Unit
IsSettled (engine none false strikes) = ⊥

abbrev Boots : Engine → Engine → Type 0
Boots e e' = IsSettled e' × Boot (mode_of e) (mode_of e')

abbrev Converts : World → Engine → Engine × Result OfficeError (Unit {0}) → Type 0
Converts w e (e', result) =
    IsEngine e' × Move (converting w) (conversion result) (mode_of e) (mode_of e')

Converts-crash :
    (w : World) (server : Server) (p : Pool) (strikes : ℕ) (c : CommandError)
    → (c.timed_out || not (w.server_died server)) ≡ false
    → strikes < 6
    → Converts w
        (engine (some p) false strikes)
        (record_engine_strike (engine (some p) false strikes), err (OfficeError.pool_crashed c))
unfolding record_engine_strike
Converts-crash w server p strikes c dead below = elim (Bool-cases (ltb (strikes + 2) 6)) [
  | inl small ↦
      rw small (ltb→lt (strikes + 2) 6 small, crash server dead (ltb→lt (strikes + 2) 6 small))
  | inr large ↦ rw large (tt, break server dead (ground arith))
]

-- A client does not end in PoolCrashed itself.
abbrev IsOfClient : Result OfficeError CommandResult → Type 0
IsOfClient (ok _) = Unit
IsOfClient (err (OfficeError.pool_crashed c)) = ⊥
IsOfClient (err OfficeError.processing_error) = Unit
IsOfClient (err OfficeError.pool_unavailable) = Unit
IsOfClient (err OfficeError.os_error) = Unit
IsOfClient (err (OfficeError.command_error c)) = Unit

translated-IsOfClient :
    (r : Result OfficeError CommandResult) → IsOfClient r → IsOfClient (translated r)
translated-IsOfClient (ok result) h = tt
translated-IsOfClient (err (OfficeError.command_error c)) h =
    elim (Bool-cases (not (is_some c.returncode) && not c.timed_out)) [
      | inl missing ↦ rw missing tt
      | inr ran ↦ rw ran tt
    ]
translated-IsOfClient (err OfficeError.processing_error) h = tt
translated-IsOfClient (err OfficeError.pool_unavailable) h = tt
translated-IsOfClient (err OfficeError.os_error) h = tt
translated-IsOfClient (err (OfficeError.pool_crashed c)) h = absurd h

run_command-IsOfClient : (codes : List ℕ) (exit : Exit) → IsOfClient (run_command codes exit)
unfolding run_command
run_command-IsOfClient codes (exited code stdout stderr) =
    elim (Bool-cases (is_ok_code codes code)) [ inl fine ↦ rw fine tt | inr failed ↦ rw failed tt ]
run_command-IsOfClient codes (timed_out stderr) = tt
run_command-IsOfClient codes not_found = tt
run_command-IsOfClient codes not_started = tt

Converts-after_client :
    (w : World) (server : Server) (p q : Pool) (strikes : ℕ) (r : Result OfficeError CommandResult)
    → IsOfClient r
    → strikes < 6
    → Converts w
        (engine (some q) false strikes)
        (after_client w server (engine (some p) false strikes) r)
unfolding record_engine_success
Converts-after_client w server p q strikes (ok _) _ below = (omega arith, recover)
Converts-after_client w server p q strikes (err (OfficeError.command_error c)) _ below =
    elim (Bool-cases (c.timed_out || not (w.server_died server))) [
      | inl document ↦ rw document (below, spare server document)
      | inr dead ↦ rw dead (Converts-crash w server p strikes c dead below)
    ]
Converts-after_client w server p q strikes (err OfficeError.processing_error) _ below =
    (below, pass refl)
Converts-after_client w server p q strikes (err OfficeError.pool_unavailable) _ below =
    (below, pass refl)
Converts-after_client w server p q strikes (err OfficeError.os_error) _ below = (below, pass refl)
Converts-after_client w server p q strikes (err (OfficeError.pool_crashed c)) h below = absurd h

Converts-run_on :
    (w : World) (server : Result SpawnError Server) (p : Pool) (strikes : ℕ)
    → strikes < 6
    → Converts w (engine (some p) false strikes) (run_on w server p false strikes)
unfolding run_tool_command
Converts-run_on w (err startup_failed) p strikes below = (below, pass refl)
Converts-run_on w (err spawn_os_error) p strikes below = (below, pass refl)
Converts-run_on w (ok server) p strikes below =
    Converts-after_client w server (with_server w server p) p strikes
      (translated (run_command (0 ∷ []) (w.run server)))
      (translated-IsOfClient (run_command (0 ∷ []) (w.run server))
        (run_command-IsOfClient (0 ∷ []) (w.run server)))
      below

Converts-convert_on : (w : World) (e : Engine) → IsSettled e → Converts w e (convert_on w e)
unfolding convert_on
Converts-convert_on w (engine (some p) true strikes) ready = absurd ready
Converts-convert_on w (engine (some p) false strikes) ready =
    Converts-run_on w (ensure_server w p) p strikes ready
Converts-convert_on w (engine none true strikes) ready = (tt, refuse)
Converts-convert_on w (engine none false strikes) ready = absurd ready

Boots-settled :
    (o : Option Pool) (strikes : ℕ)
    → strikes ≡ 0
    → Boots (engine none false strikes) (settled o strikes)
Boots-settled none strikes zero_strikes = (tt, give_up)
Boots-settled (some p) strikes zero_strikes = rw zero_strikes (omega arith, boot)

Boots-activate_pool :
    (w : World) (m : Machine) (e : Engine) → IsEngine e → Boots e (activate_pool w m e)
unfolding activate_pool
Boots-activate_pool w m (engine (some p) true strikes) valid = absurd valid
Boots-activate_pool w m (engine (some p) false strikes) valid = (valid, keep_pool)
Boots-activate_pool w m (engine none true strikes) valid = (tt, keep_disabled)
Boots-activate_pool w m (engine none false strikes) valid =
    Boots-settled (started_pool w m (client_launcher m)) strikes valid

abbrev Warms : World → Engine → Engine × Result SpawnError (Unit {0}) → Type 0
Warms w e (e', result) =
    IsEngine e' × Move (prewarming w) (warming (logged result)) (mode_of e) (mode_of e')

Warms-prewarmed : (w : World) (e : Engine) → IsSettled e → Warms w e (prewarmed w e)
unfolding prewarmed
Warms-prewarmed w (engine (some p) true strikes) ready = absurd ready
Warms-prewarmed w (engine (some p) false strikes) ready = (ready, warm)
Warms-prewarmed w (engine none true strikes) ready = (tt, skip)
Warms-prewarmed w (engine none false strikes) ready = absurd ready

unfoldable pub call_pool : Machine → PoolCall → Engine → Engine × Outcome
unfolding pool_convert pool_prewarm
call_pool m (converting w) e = let (e', result) = pool_convert w m e in (e', conversion result)
call_pool m (prewarming w) e = let (e', result) = pool_prewarm w m e in (e', warming result)

-- The globals behind the calls, and how each call ended
unfoldable pub call_all : Machine → List PoolCall → Engine → Engine × List Outcome
unfolding call_pool
call_all m [] e = (e, [])
call_all m (c ∷ calls) e =
    let (e', outcome) = call_pool m c e in
    let (e'', outcomes) = call_all m calls e' in (e'', outcome ∷ outcomes)

call_pool-Move :
    (m : Machine) (c : PoolCall) (e : Engine)
    → IsEngine e
    → (n : Mode) × Boot (mode_of e) n
      × IsEngine (call_pool m c e).0
      × Move c (call_pool m c e).1 n (mode_of (call_pool m c e).0)
unfolding call_pool pool_convert pool_prewarm
call_pool-Move m (converting w) e valid =
    let (ready, first) = Boots-activate_pool w m e valid in
    let (valid', move) = Converts-convert_on w (activate_pool w m e) ready in
    (mode_of (activate_pool w m e), first, valid', move)
call_pool-Move m (prewarming w) e valid =
    let (ready, first) = Boots-activate_pool w m e valid in
    let (valid', move) = Warms-prewarmed w (activate_pool w m e) ready in
    (mode_of (activate_pool w m e), first, valid', move)

-- Whatever the processes do, a sequence of conversions and prewarmings takes the module's globals
-- from mode to mode as the specification says for each call and the way it ends, and keeps them
-- consistent: a pool that exists is below the limit, and a disabled engine has no pool.
pub call_all-Moves :
    (m : Machine) (calls : List PoolCall) (e : Engine)
    → IsEngine e
    → IsEngine (call_all m calls e).0
      × Moves calls (call_all m calls e).1 (mode_of e) (mode_of (call_all m calls e).0)
unfolding call_all
call_all-Moves m [] e valid = (valid, stay)
call_all-Moves m (c ∷ calls) e valid =
    let (n, first, valid', move) = call_pool-Move m c e valid in
    let (valid'', moves) = call_all-Moves m calls (call_pool m c e).0 valid' in
    (valid'', then_move first move moves)
