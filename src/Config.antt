-- ===== src/Config.antt =====
-- The start of both programs: the configuration files, of server/start.c and client/start.c, and the
-- options, of dartsync.c. A file is what `fscanf` makes of it, `none` if it cannot be opened; `atoi` is a
-- parameter.
pub mod Last
pub mod Client
pub mod Control
use tele_sync.Prelude.{
  ℕ, List, [], ◌∷◌, ◌++◌, Option, none, some, Bool, true, false, ◌==◌, if◌then◌else◌, same_name,
}
use tele_sync.Server.{ControlInfo}

-- The names of the commands and of the modes.
abbrev pub interval_cmd : List ℕ
interval_cmd = b'i' ∷ b'n' ∷ b't' ∷ b'e' ∷ b'r' ∷ b'v' ∷ b'a' ∷ b'l' ∷ []

abbrev pub piece_length_cmd : List ℕ
piece_length_cmd =
    b'p' ∷ b'i' ∷ b'e' ∷ b'c' ∷ b'e' ∷ b'_' ∷ b'l' ∷ b'e' ∷ b'n' ∷ b'g' ∷ b't' ∷ b'h' ∷ []

abbrev pub tracker_cmd : List ℕ
tracker_cmd = b't' ∷ b'r' ∷ b'a' ∷ b'c' ∷ b'k' ∷ b'e' ∷ b'r' ∷ []

abbrev pub device_cmd : List ℕ
device_cmd = b'd' ∷ b'e' ∷ b'v' ∷ b'i' ∷ b'c' ∷ b'e' ∷ []

abbrev pub server_mode : List ℕ
server_mode = b's' ∷ b'e' ∷ b'r' ∷ b'v' ∷ b'e' ∷ b'r' ∷ []

abbrev pub client_mode : List ℕ
client_mode = b'c' ∷ b'l' ∷ b'i' ∷ b'e' ∷ b'n' ∷ b't' ∷ []

-- One line of the tracker's file, and the loop.
unfoldable pub control_line : (List ℕ → ℕ) → ControlInfo → List ℕ → List ℕ → Option ControlInfo
control_line atoi control cmd arg =
    if same_name cmd interval_cmd
    then some (record control { interval = atoi arg })
    else if same_name cmd piece_length_cmd
    then some (record control { piece_len = atoi arg })
    else none

unfoldable pub control_lines :
    (List ℕ → ℕ) → ControlInfo → List (List ℕ × List ℕ) → Option ControlInfo
control_lines atoi control [] = some control
control_lines atoi control ((cmd, arg) ∷ lines) = elim (control_line atoi control cmd arg) [
  | none ↦ none
  | some control₁ ↦ control_lines atoi control₁ lines
]

unfoldable pub parse_conf_file :
    (List ℕ → ℕ) → Option (List (List ℕ × List ℕ)) → ControlInfo → Option ControlInfo
parse_conf_file atoi none control = none
parse_conf_file atoi (some lines) control = control_lines atoi control lines

pub record ClientConfInfo : Type 0 where
  pub tracker_host : List ℕ
  pub device_name : List ℕ
  pub target_dirs : List (List ℕ)

unfoldable pub client_line : ClientConfInfo → List ℕ → List ℕ → Option ClientConfInfo
client_line conf cmd arg =
    if same_name cmd tracker_cmd
    then some (record conf { tracker_host = arg })
    else if same_name cmd device_cmd
    then some (record conf { device_name = arg })
    else none

unfoldable pub client_lines : ClientConfInfo → List (List ℕ × List ℕ) → Option ClientConfInfo
client_lines conf [] = some conf
client_lines conf ((cmd, arg) ∷ lines) = elim (client_line conf cmd arg) [
  | none ↦ none
  | some conf₁ ↦ client_lines conf₁ lines
]

-- A slash at the end is taken off.
unfoldable pub without_slash : List ℕ → List ℕ
without_slash [] = []
without_slash (c ∷ []) = if c == b'/' then [] else c ∷ []
without_slash (c ∷ d ∷ cs) = c ∷ without_slash (d ∷ cs)

unfoldable pub add_targets : ClientConfInfo → List (List ℕ) → ClientConfInfo
add_targets conf [] = conf
add_targets conf (arg ∷ args) =
    add_targets (record conf { target_dirs = conf.target_dirs ++ without_slash arg ∷ [] }) args

unfoldable pub with_targets : Option (List (List ℕ)) → Option ClientConfInfo → Option ClientConfInfo
with_targets targets none = none
with_targets none (some conf) = none
with_targets (some args) (some conf) = some (add_targets conf args)

-- `client_start` has cleared `conf`.
unfoldable pub parse_conf_files :
    Option (List (List ℕ × List ℕ)) → Option (List (List ℕ)) → Option ClientConfInfo
parse_conf_files none targets = none
parse_conf_files (some lines) targets =
    with_targets targets
      (client_lines (record { tracker_host = []; device_name = []; target_dirs = [] }) lines)

pub data StartMode : Type 0 where
  client server no_mode : StartMode

-- What `getopt_long` answers, and what `main` does at last.
pub data CommandOption : Type 0 where
  debug_option help_option unknown_option : CommandOption
  mode_option : List ℕ → CommandOption

pub data Launch : Type 0 where
  client_start server_start usage_success usage_failure : Launch

unfoldable pub start_as : StartMode → Launch
start_as client = client_start
start_as server = server_start
start_as no_mode = usage_failure

unfoldable pub main_from : StartMode → List CommandOption → Launch
main_from mode [] = start_as mode
main_from mode (debug_option ∷ options) = main_from mode options
main_from mode (mode_option arg ∷ options) =
    main_from
      (if same_name arg server_mode
        then server
        else if same_name arg client_mode
        then client
        else mode)
      options
main_from mode (help_option ∷ options) = usage_success
main_from mode (unknown_option ∷ options) = usage_failure

unfoldable pub main : List CommandOption → Launch
main options = main_from no_mode options
