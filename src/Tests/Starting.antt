-- ===== src/Tests/Starting.antt =====
-- The start of both programs at small inputs.
use tele_sync.Prelude.{ℕ, ◌≡◌, refl, List, [], ◌∷◌, some, same_name, length}
use tele_sync.Config.{
  interval_cmd, tracker_cmd, device_cmd, server_mode, parse_conf_file, control_line, control_lines,
  parse_conf_files, without_slash, main, main_from, start_as, mode_option, debug_option,
  server_start, usage_failure,
}
use tele_sync.Config.Last.{last_arg, all_known, or_else}
use tele_sync.Config.Client.{parse_conf_files-last}

-- The device is given twice.
abbrev two_devices : List (List ℕ × List ℕ)
two_devices = (device_cmd, b'e' ∷ []) ∷ (tracker_cmd, b'h' ∷ []) ∷ (device_cmd, b'w' ∷ []) ∷ []

parse_conf_files-last_example :
    parse_conf_files (some two_devices) (some ((b'd' ∷ b'/' ∷ []) ∷ (b'e' ∷ []) ∷ []))
    ≡ some (record {
      tracker_host = b'h' ∷ [];
      device_name = b'w' ∷ [];
      target_dirs = (b'd' ∷ []) ∷ (b'e' ∷ []) ∷ [];
    })
unfolding last_arg all_known or_else without_slash same_name
parse_conf_files-last_example =
    parse_conf_files-last two_devices ((b'd' ∷ b'/' ∷ []) ∷ (b'e' ∷ []) ∷ [])

two_figures :
    parse_conf_file length
      (some ((interval_cmd, b'1' ∷ b'0' ∷ []) ∷ []))
      (record { interval = 0; piece_len = 7 })
    ≡ some (record { interval = 2; piece_len = 7 })
unfolding parse_conf_file control_lines control_line same_name
two_figures = refl

starts_tracker : main (debug_option ∷ mode_option server_mode ∷ []) ≡ server_start
unfolding main main_from start_as same_name
starts_tracker = refl

starts_nothing : main [] ≡ usage_failure
unfolding main main_from start_as
starts_nothing = refl
