-- ===== src/Office/Command.antt =====
-- The run of an external command (`run_command` and `run_tool_command` of app/utils/command.py).
-- What the process did is a parameter; the messages and the duration are not modelled.
use tools_backend.Base.{
  ℕ, Bool, true, false, ◌&&◌, not, Option, none, some, List, [], ◌==◌, if◌then◌else◌, take, any,
  Result, ok, err, Text, codes,
}

-- What `subprocess.run` gives: an exit code with the output, a timeout, no such program, or another
-- OSError of starting it.
pub data Exit : Type 0 where
  exited : ℕ → Text → Text → Exit
  timed_out : Text → Exit
  not_found not_started : Exit

pub record CommandError : Type 0 where
  pub returncode : Option ℕ
  pub stderr : Text
  pub timed_out : Bool

pub record CommandResult : Type 0 where
  pub returncode : ℕ
  pub stdout : Text
  pub stderr : Text

-- The errors that a conversion of a document can raise; `os_error` is any other OSError.
pub data OfficeError : Type 0 where
  processing_error pool_unavailable os_error : OfficeError
  command_error pool_crashed : CommandError → OfficeError

abbrev pub max_captured_output : ℕ
max_captured_output = 65536

abbrev pub is_ok_code : List ℕ → ℕ → Bool
is_ok_code codes code = any (λ c. c == code) codes

unfoldable pub run_command : List ℕ → Exit → Result OfficeError CommandResult
run_command ok_returncodes (exited code stdout stderr) =
    let out = take max_captured_output stdout in
    let errors = take max_captured_output stderr in
    if is_ok_code ok_returncodes code
    then ok (record { returncode = code; stdout = out; stderr = errors })
    else err (command_error (record { returncode = some code; stderr = errors; timed_out = false }))
run_command ok_returncodes (timed_out stderr) = err (
    command_error
      (record { returncode = none; stderr = take max_captured_output stderr; timed_out = true }))
run_command ok_returncodes not_found =
    err (command_error (record { returncode = none; stderr = []; timed_out = false }))
run_command ok_returncodes not_started = err os_error

abbrev pub is_some {ℓ} : {A : Type ℓ} → Option A → Bool
is_some none = false
is_some (some _) = true

-- A missing program is the server's fault, not the document's.
abbrev pub translated : Result OfficeError CommandResult → Result OfficeError CommandResult
translated (ok result) = ok result
translated (err (command_error e)) =
    if not (is_some e.returncode) && not e.timed_out
    then err processing_error
    else err (command_error e)
translated (err e) = err e

unfoldable pub run_tool_command : List ℕ → Exit → Result OfficeError CommandResult
unfolding run_command
run_tool_command ok_returncodes exit = translated (run_command ok_returncodes exit)
