-- ===== src/Config/Control.antt =====
-- The configuration of the tracker, in server/start.c.
use tele_sync.Prelude.{
  ℕ, ◌≡◌, refl, ◌∙◌, List, [], ◌∷◌, none, some, true, false, if◌then◌else◌, same_name, same_name→eq,
  Bool-cases, inl, inr,
}
use tele_sync.Server.{ControlInfo}
use tele_sync.Config.{interval_cmd, piece_length_cmd, control_line, control_lines, parse_conf_file}
use tele_sync.Config.Last.{last_arg, all_known, or_else, or_else-last_arg}

interval_not_piece_length :
    (cmd : List ℕ) → same_name cmd interval_cmd ≡ true → same_name cmd piece_length_cmd ≡ false
unfolding same_name
interval_not_piece_length cmd h = rw (same_name→eq cmd interval_cmd h) refl

-- What the lines leave of the two numbers.
unfoldable controlled : (List ℕ → ℕ) → ControlInfo → List (List ℕ × List ℕ) → ControlInfo
controlled atoi control lines = record control {
  interval = or_else atoi control.interval (last_arg interval_cmd lines);
  piece_len = or_else atoi control.piece_len (last_arg piece_length_cmd lines);
}

controlled-line :
    (atoi : List ℕ → ℕ) (control : ControlInfo) (cmd arg : List ℕ) (lines : List (List ℕ × List ℕ))
    → controlled atoi control ((cmd, arg) ∷ lines)
      ≡ controlled atoi
          (record control {
            interval = if same_name cmd interval_cmd then atoi arg else control.interval;
            piece_len = if same_name cmd piece_length_cmd then atoi arg else control.piece_len;
          })
          lines
unfolding controlled
controlled-line atoi control cmd arg lines =
    rw
      (
        or_else-last_arg atoi control.interval interval_cmd cmd arg lines,
        or_else-last_arg atoi control.piece_len piece_length_cmd cmd arg lines,
      )
      refl

control_lines-some :
    (atoi : List ℕ → ℕ) (control control₁ : ControlInfo) (cmd arg : List ℕ)
    (lines : List (List ℕ × List ℕ))
    → control_line atoi control cmd arg ≡ some control₁
    → control_lines atoi control ((cmd, arg) ∷ lines) ≡ control_lines atoi control₁ lines
unfolding control_lines
control_lines-some atoi control control₁ cmd arg lines e = rw (control_lines, e) refl

control_lines-none :
    (atoi : List ℕ → ℕ) (control : ControlInfo) (cmd arg : List ℕ) (lines : List (List ℕ × List ℕ))
    → control_line atoi control cmd arg ≡ none
    → control_lines atoi control ((cmd, arg) ∷ lines) ≡ none
unfolding control_lines
control_lines-none atoi control cmd arg lines e = rw (control_lines, e) refl

control_lines-nil :
    (atoi : List ℕ → ℕ) (control : ControlInfo)
    → control_lines atoi control [] ≡ some (controlled atoi control [])
unfolding control_lines controlled or_else last_arg
control_lines-nil atoi control = refl

control_lines-controlled :
    (atoi : List ℕ → ℕ) (control : ControlInfo) (lines : List (List ℕ × List ℕ))
    → control_lines atoi control lines ≡ (
        if all_known interval_cmd piece_length_cmd lines
        then some (controlled atoi control lines)
        else none)
unfolding control_line all_known
control_lines-controlled atoi control [] = control_lines-nil atoi control
control_lines-controlled atoi control ((cmd, arg) ∷ lines) =
    elim (Bool-cases (same_name cmd interval_cmd)) [
      | inl t ↦
          control_lines-some atoi control (record control { interval = atoi arg }) cmd arg lines
            (rw t refl)
          ∙ rw (controlled-line atoi control cmd arg lines, t, interval_not_piece_length cmd t)
              (control_lines-controlled atoi (record control { interval = atoi arg }) lines)
      | inr t ↦ elim (Bool-cases (same_name cmd piece_length_cmd)) [
        | inl d ↦
            control_lines-some atoi control (record control { piece_len = atoi arg }) cmd arg lines
              (rw (t, d) refl)
            ∙ rw (controlled-line atoi control cmd arg lines, t, d)
                (control_lines-controlled atoi (record control { piece_len = atoi arg }) lines)
        | inr d ↦ control_lines-none atoi control cmd arg lines (rw (t, d) refl) ∙ rw (t, d) refl
      ]
    ]

-- A tracker whose file can be opened gets its two numbers exactly if every line is one of the two
-- commands; then the last line of each command counts, and a number that is not given stays as it was.
pub parse_conf_file-last :
    (atoi : List ℕ → ℕ) (lines : List (List ℕ × List ℕ)) (control : ControlInfo)
    → parse_conf_file atoi (some lines) control ≡ (
        if all_known interval_cmd piece_length_cmd lines
        then some (record {
          interval = or_else atoi control.interval (last_arg interval_cmd lines);
          piece_len = or_else atoi control.piece_len (last_arg piece_length_cmd lines);
        })
        else none)
unfolding parse_conf_file controlled
parse_conf_file-last atoi lines control = control_lines-controlled atoi control lines
