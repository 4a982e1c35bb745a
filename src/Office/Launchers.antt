-- ===== src/Office/Launchers.antt =====
-- How unoserver and its client can be started on a machine (app/utils/office_pool.py). The machine is
-- a parameter.
use tools_backend.Base.{
  ℕ, Bool, true, false, Option, none, some, List, [], ◌∷◌, ◌++◌, if◌then◌else◌, is_empty, Text,
  codes,
}

-- An argv prefix, and the PYTHONPATH that it needs
pub record Launcher : Type 0 where
  pub argv : List Text
  pub pythonpath : Option Text

pub data FilterValue : Type 0 where
  text : Text → FilterValue
  number : Text → FilterValue
  flag : Bool → FilterValue

abbrev pub rendered : FilterValue → Text
rendered (text t) = t
rendered (number t) = t
rendered (flag true) = codes "true"
rendered (flag false) = codes "false"

unfoldable pub option_args : List (Text × FilterValue) → List Text
option_args [] = []
option_args ((name, value) ∷ options) =
    codes "--filter-options" ∷ (name ++ codes "=" ++ rendered value) ∷ option_args options

-- A missing and an empty filter name give no argument.
abbrev pub filter_args : Option Text → List Text
filter_args none = []
filter_args (some name) = if is_empty name then [] else codes "--filter" ∷ name ∷ []

unfoldable pub filter_option_args : Option Text → List (Text × FilterValue) → List Text
unfolding option_args
filter_option_args name options = filter_args name ++ option_args options

-- The settings and the machine, as the probes see them
pub record Machine : Type 0 where
  pub unoserver_bin : Text
  pub pool_size : ℕ
  pub split_launcher : Text → List Text
  pub which : Text → Option Text
  pub client_script : Option Text
  pub package_root : Option Text
  pub lo_python : Option Text
  pub has_module : Text → Bool
  pub executable : Text
  pub pythonpath : Text
  pub pathsep : Text

abbrev pub plain : List Text → Launcher
plain argv = record { argv = argv; pythonpath = none }

-- `_pythonpath_env`
abbrev pub pythonpath_env : Machine → Text → Option Text
pythonpath_env m root =
    some (if is_empty m.pythonpath then root else root ++ m.pathsep ++ m.pythonpath)

abbrev pub module_args : List Text
module_args = codes "-m" ∷ codes "unoserver.server" ∷ []

abbrev pub client_args : List Text
client_args =
    codes "-c" ∷ codes "from unoserver.client import converter_main; converter_main()" ∷ []

abbrev pub on_path_candidate : Option Text → List Launcher
on_path_candidate none = []
on_path_candidate (some exe) = plain (exe ∷ []) ∷ []

abbrev pub lo_python_candidate : Machine → Option Text → Option Text → List Launcher
lo_python_candidate m (some python) (some root) =
    record { argv = python ∷ module_args; pythonpath = pythonpath_env m root } ∷ []
lo_python_candidate m _ _ = []

abbrev pub own_python_candidate : Machine → Option Text → List Launcher
own_python_candidate m none = []
own_python_candidate m (some root) =
    if m.has_module (codes "uno") then plain (m.executable ∷ module_args) ∷ [] else []

unfoldable pub server_launcher_candidates : Machine → List Launcher
server_launcher_candidates m =
    if is_empty m.unoserver_bin
    then on_path_candidate (m.which (codes "unoserver"))
      ++ lo_python_candidate m m.lo_python m.package_root
      ++ own_python_candidate m m.package_root
    else plain (m.split_launcher m.unoserver_bin) ∷ []

abbrev pub lo_client : Machine → Option Text → Text → Option Launcher
lo_client m none root = none
lo_client m (some python) root =
    some (record { argv = python ∷ client_args; pythonpath = pythonpath_env m root })

abbrev pub package_client : Machine → Option Text → Option Launcher
package_client m none = none
package_client m (some root) =
    if m.has_module (codes "unoserver")
    then some (plain (m.executable ∷ client_args))
    else lo_client m m.lo_python root

abbrev pub path_client : Machine → Option Text → Option Launcher
path_client m (some exe) = some (plain (exe ∷ []))
path_client m none = package_client m m.package_root

abbrev pub script_client : Machine → Option Text → Option Launcher
script_client m (some script) = some (plain (script ∷ []))
script_client m none = path_client m (m.which (codes "unoconvert"))

unfoldable pub client_launcher : Machine → Option Launcher
client_launcher m = script_client m m.client_script

abbrev pub has_launchers : List Launcher → Option Launcher → Bool
has_launchers [] client = false
has_launchers (l ∷ ls) none = false
has_launchers (l ∷ ls) (some _) = true
