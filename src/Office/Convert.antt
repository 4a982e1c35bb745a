-- ===== src/Office/Convert.antt =====
-- One conversion through the selected engine (app/utils/office.py). Profiles are directories that
-- the model leaves out; what each process does, and whether the output is there afterwards, are
-- parameters.
use tools_backend.Base.{
  ℕ, ◌-◌, max, Bool, true, false, ◌&&◌, ◌||◌, not, Option, none, some, List, [], ◌∷◌, ◌++◌, ltb,
  if◌then◌else◌, length, take, drop, is_empty, Result, ok, err, Text, codes, text_eq, starts_with,
  contains, ◌>>=◌,
}
use tools_backend.Json.{Json, Fields, empty, field}
use tools_backend.Office.Command.{Exit, CommandError, OfficeError, CommandResult, run_tool_command}
use tools_backend.Office.Launchers.{FilterValue, text, number, flag, rendered, Machine}
use tools_backend.Office.Pool.{Engine, World, pool_available, pool_convert}

-- `_OLE2_MAGIC`
abbrev pub ole2_magic : List ℕ
ole2_magic = 0xD0 ∷ 0xCF ∷ 0x11 ∷ 0xE0 ∷ 0xA1 ∷ 0xB1 ∷ 0x1A ∷ 0xE1 ∷ []

abbrev pub encryption_scan_bytes : ℕ
encryption_scan_bytes = 4194304

-- `marker.encode("utf-16-le")` of an ASCII text
abbrev pub utf_16_le : Text → List ℕ
utf_16_le [] = []
utf_16_le (c ∷ t) = c ∷ 0 ∷ utf_16_le t

-- The bytes that are scanned: the head, and the tail of a file that is longer.
abbrev pub scanned : List ℕ → List ℕ
scanned bytes =
    take encryption_scan_bytes bytes
    ++ (if ltb encryption_scan_bytes (length bytes)
        then drop (length bytes - encryption_scan_bytes) bytes
        else [])

-- `is_password_protected_office`; `none` is a file that cannot be read
unfoldable pub is_password_protected_office : Option (List ℕ) → Bool
unfolding contains
is_password_protected_office none = false
is_password_protected_office (some bytes) =
    starts_with ole2_magic (take encryption_scan_bytes bytes)
    && (contains (utf_16_le (codes "EncryptedPackage")) (scanned bytes)
        || contains (utf_16_le (codes "EncryptionInfo")) (scanned bytes))

abbrev pub type_of : FilterValue → Text
type_of (text _) = codes "string"
type_of (number _) = codes "long"
type_of (flag _) = codes "boolean"

-- `typed(value)`
abbrev pub typed : FilterValue → Json
typed value = Json.object (
    field (codes "type") (Json.string (type_of value))
      (field (codes "value") (Json.string (rendered value)) empty))

abbrev pub payload_of : List (Text × FilterValue) → Fields
payload_of [] = empty
payload_of ((name, value) ∷ options) = field name (typed value) (payload_of options)

abbrev pub target_with : (Fields → Text) → Text → Text → List (Text × FilterValue) → Text
target_with dumps target name [] = target ++ codes ":" ++ name
target_with dumps target name (o ∷ options) =
    target ++ codes ":" ++ name ++ codes ":" ++ dumps (payload_of (o ∷ options))

-- `_soffice_target`; `dumps` is `json.dumps` with the compact separators
unfoldable pub soffice_target :
    (Fields → Text) → Text → Option Text → List (Text × FilterValue) → Text
soffice_target dumps target none options = target
soffice_target dumps target (some name) options =
    if is_empty name then target else target_with dumps target name options

pub record OfficeSettings : Type 0 where
  pub unoconvert_bin : Text
  pub office_engine : Text
  pub unoserver_pool_size : ℕ
  pub soffice_profile_pool_size : ℕ

pub data EngineKind : Type 0 where
  external pool soffice : EngineKind

unfoldable pub office_engine : OfficeSettings → Machine → Engine → EngineKind
unfolding pool_available
office_engine settings m e =
    if not (is_empty settings.unoconvert_bin)
    then external
    else if text_eq settings.office_engine (codes "soffice")
    then soffice
    else if text_eq settings.office_engine (codes "unoserver")
    then pool
    else if pool_available m e
    then pool
    else soffice

abbrev pub slots_of : OfficeSettings → EngineKind → ℕ
slots_of settings external = 1
slots_of settings pool = max 1 settings.unoserver_pool_size
slots_of settings soffice = max 1 settings.soffice_profile_pool_size

unfoldable pub office_conversion_slots : OfficeSettings → Machine → Engine → ℕ
unfolding office_engine
office_conversion_slots settings m e = slots_of settings (office_engine settings m e)

-- One process: what it did, and whether the expected file is there afterwards.
pub record Attempt : Type 0 where
  pub exit : Exit
  pub produced : Bool

-- What happens during one call: the unoserver processes, the external client, and the two attempts
-- of soffice. `pool_produced` says whether the expected file is there after the pool's client.
pub record Run : Type 0 where
  pub world : World
  pub pool_produced : Bool
  pub external_client : Attempt
  pub first : Attempt
  pub second : Attempt
  pub input_bytes : Option (List ℕ)

-- `run_soffice`: a failure is returned, a timeout and a missing program are raised.
abbrev pub soffice_failure :
    Result OfficeError CommandResult → Result OfficeError (Option CommandError)
soffice_failure (ok _) = ok none
soffice_failure (err (OfficeError.command_error c)) =
    if c.timed_out then err (OfficeError.command_error c) else ok (some c)
soffice_failure (err e) = err e

unfoldable pub run_soffice : Exit → Result OfficeError (Option CommandError)
unfolding run_tool_command
run_soffice exit = soffice_failure (run_tool_command (0 ∷ []) exit)

abbrev pub raise_failure : Option CommandError → Bool → Result OfficeError Bool
raise_failure none produced = ok produced
raise_failure (some c) produced = err (OfficeError.command_error c)

abbrev pub needs_retry : Option CommandError → Bool → Bool
needs_retry none produced = not produced
needs_retry (some _) produced = true

-- The second attempt runs on a fresh profile.
unfoldable pub retried : Run → Result OfficeError Bool
unfolding run_soffice
retried run = do failure ← run_soffice run.second.exit; raise_failure failure run.second.produced

-- `convert_with_soffice`: whether the expected file is there at the end
unfoldable pub convert_with_soffice : Run → Result OfficeError Bool
unfolding run_soffice retried
convert_with_soffice run = do
  failure ← run_soffice run.first.exit
  if needs_retry failure run.first.produced then retried run else ok true

abbrev pub is_forced : OfficeSettings → Bool
is_forced settings = text_eq settings.office_engine (codes "unoserver")

-- The handlers of PoolCrashed and PoolUnavailable; anything else passes through.
unfoldable pub after_pool :
    OfficeSettings → Run → Result OfficeError (Unit {0}) → Result OfficeError Bool
unfolding convert_with_soffice
after_pool settings run (ok _) = ok run.pool_produced
after_pool settings run (err (OfficeError.pool_crashed c)) =
    if is_forced settings then err (OfficeError.command_error c) else convert_with_soffice run
after_pool settings run (err OfficeError.pool_unavailable) =
    if is_forced settings then err OfficeError.processing_error else convert_with_soffice run
after_pool settings run (err OfficeError.processing_error) = err OfficeError.processing_error
after_pool settings run (err OfficeError.os_error) = err OfficeError.os_error
after_pool settings run (err (OfficeError.command_error c)) = err (OfficeError.command_error c)

unfoldable pub external_produced : Run → Result OfficeError Bool
unfolding run_tool_command
external_produced run = do
  result ← run_tool_command (0 ∷ []) run.external_client.exit
  ok run.external_client.produced

unfoldable pub convert_by :
    OfficeSettings → Machine → Run → Engine → EngineKind → Engine × Result OfficeError Bool
unfolding pool_convert after_pool external_produced convert_with_soffice
convert_by settings m run e external = (e, external_produced run)
convert_by settings m run e pool =
    let (e', result) = pool_convert run.world m e in (e', after_pool settings run result)
convert_by settings m run e soffice = (e, convert_with_soffice run)

-- A conversion without output is an error; a password-protected document gets its own message.
pub data Converted : Type 0 where
  converted password_protected no_output : Converted
  failed : OfficeError → Converted

abbrev pub checked_output : Run → Result OfficeError Bool → Converted
checked_output run (ok true) = converted
checked_output run (ok false) =
    if is_password_protected_office run.input_bytes then password_protected else no_output
checked_output run (err e) = failed e

-- `libreoffice_convert`: the pool's globals behind the call, and its outcome
unfoldable pub libreoffice_convert : OfficeSettings → Machine → Run → Engine → Engine × Converted
unfolding office_engine convert_by
libreoffice_convert settings m run e =
    let (e', result) = convert_by settings m run e (office_engine settings m e) in
    (e', checked_output run result)
