-- ===== src/Config/Client.antt =====
-- The configuration of a peer, in client/start.c.
use mathlib.Core.List.{append_assoc, append-nil}
use tele_sync.Prelude.{
  ℕ, ◌≡◌, refl, sym, ap, ◌∙◌, List, [], ◌∷◌, ◌++◌, none, some, true, false, if◌then◌else◌,
  same_name, same_name→eq, map, Bool-cases, inl, inr,
}
use tele_sync.Config.{
  tracker_cmd, device_cmd, ClientConfInfo, client_line, client_lines, without_slash, add_targets,
  with_targets, parse_conf_files,
}
use tele_sync.Config.Last.{last_arg, all_known, or_else, or_else-last_arg}

tracker_not_device :
    (cmd : List ℕ) → same_name cmd tracker_cmd ≡ true → same_name cmd device_cmd ≡ false
unfolding same_name
tracker_not_device cmd h = rw (same_name→eq cmd tracker_cmd h) refl

-- What the lines leave of a configuration.
unfoldable configured : ClientConfInfo → List (List ℕ × List ℕ) → ClientConfInfo
configured conf lines = record conf {
  tracker_host = or_else (λ arg. arg) conf.tracker_host (last_arg tracker_cmd lines);
  device_name = or_else (λ arg. arg) conf.device_name (last_arg device_cmd lines);
}

configured-line :
    (conf : ClientConfInfo) (cmd arg : List ℕ) (lines : List (List ℕ × List ℕ))
    → configured conf ((cmd, arg) ∷ lines)
      ≡ configured
          (record conf {
            tracker_host = if same_name cmd tracker_cmd then arg else conf.tracker_host;
            device_name = if same_name cmd device_cmd then arg else conf.device_name;
          })
          lines
unfolding configured
configured-line conf cmd arg lines =
    rw
      (
        or_else-last_arg (λ arg. arg) conf.tracker_host tracker_cmd cmd arg lines,
        or_else-last_arg (λ arg. arg) conf.device_name device_cmd cmd arg lines,
      )
      refl

client_lines-some :
    (conf conf₁ : ClientConfInfo) (cmd arg : List ℕ) (lines : List (List ℕ × List ℕ))
    → client_line conf cmd arg ≡ some conf₁
    → client_lines conf ((cmd, arg) ∷ lines) ≡ client_lines conf₁ lines
unfolding client_lines
client_lines-some conf conf₁ cmd arg lines e = rw (client_lines, e) refl

client_lines-none :
    (conf : ClientConfInfo) (cmd arg : List ℕ) (lines : List (List ℕ × List ℕ))
    → client_line conf cmd arg ≡ none
    → client_lines conf ((cmd, arg) ∷ lines) ≡ none
unfolding client_lines
client_lines-none conf cmd arg lines e = rw (client_lines, e) refl

client_lines-nil : (conf : ClientConfInfo) → client_lines conf [] ≡ some (configured conf [])
unfolding client_lines configured or_else last_arg
client_lines-nil conf = refl

client_lines-configured :
    (conf : ClientConfInfo) (lines : List (List ℕ × List ℕ))
    → client_lines conf lines
      ≡ (if all_known tracker_cmd device_cmd lines then some (configured conf lines) else none)
unfolding client_line all_known
client_lines-configured conf [] = client_lines-nil conf
client_lines-configured conf ((cmd, arg) ∷ lines) = elim (Bool-cases (same_name cmd tracker_cmd)) [
  | inl t ↦
      client_lines-some conf (record conf { tracker_host = arg }) cmd arg lines (rw t refl)
      ∙ rw (configured-line conf cmd arg lines, t, tracker_not_device cmd t)
          (client_lines-configured (record conf { tracker_host = arg }) lines)
  | inr t ↦ elim (Bool-cases (same_name cmd device_cmd)) [
    | inl d ↦
        client_lines-some conf (record conf { device_name = arg }) cmd arg lines (rw (t, d) refl)
        ∙ rw (configured-line conf cmd arg lines, t, d)
            (client_lines-configured (record conf { device_name = arg }) lines)
    | inr d ↦ client_lines-none conf cmd arg lines (rw (t, d) refl) ∙ rw (t, d) refl
  ]
]

add_targets-map :
    (conf : ClientConfInfo) (args : List (List ℕ))
    → add_targets conf args
      ≡ record conf { target_dirs = conf.target_dirs ++ map without_slash args }
unfolding add_targets
add_targets-map conf [] =
    ap (λ ds. record conf { target_dirs = ds }) (sym (append-nil conf.target_dirs))
add_targets-map conf (arg ∷ args) =
    add_targets-map (record conf { target_dirs = conf.target_dirs ++ without_slash arg ∷ [] }) args
    ∙ ap (λ ds. record conf { target_dirs = ds })
        (append_assoc conf.target_dirs (without_slash arg ∷ []) (map without_slash args))

-- A peer whose two files can be opened gets a configuration exactly if every line of the first is one of
-- the two commands; then the last line of each command counts, a host or a device that is not given is
-- empty, and the targets are the words of the other file in order, each without the slash at its end.
pub parse_conf_files-last :
    (lines : List (List ℕ × List ℕ)) (args : List (List ℕ))
    → parse_conf_files (some lines) (some args) ≡ (
        if all_known tracker_cmd device_cmd lines
        then some (record {
          tracker_host = or_else (λ arg. arg) [] (last_arg tracker_cmd lines);
          device_name = or_else (λ arg. arg) [] (last_arg device_cmd lines);
          target_dirs = map without_slash args;
        })
        else none)
unfolding parse_conf_files with_targets configured
parse_conf_files-last lines args =
    let empty : ClientConfInfo = record { tracker_host = []; device_name = []; target_dirs = [] } in
    ap (with_targets (some args)) (client_lines-configured empty lines)
    ∙ elim (Bool-cases (all_known tracker_cmd device_cmd lines)) [
      | inl known ↦ rw known (ap some (add_targets-map (configured empty lines) args))
      | inr unknown ↦ rw unknown refl
    ]
