-- ===== src/Systemd.antt =====
-- internal/service/systemdunit/unit.go: the systemd user unit that installs the agent.
pub mod Quoting
pub mod Rendering
use home_pc_agent.Common.{
  ℕ, ◌+◌, Bool, true, false, not, ◌&&◌, ◌||◌, Option, none, some, List, [], ◌∷◌, ◌++◌, Text, codes,
  Err, Result, ok, err, ◌>>=◌, service_name_required, exec_start_required, service_name_dot,
  bad_service_name, unit_field_required, control_characters, bad_description, bad_exec_start,
  has_char, every, is_lower, is_upper, is_digit, nat_eq, leb, ltb, if◌then◌else◌, is_empty,
}

pub record SystemdUnit : Type 0 where
  pub description : Text
  pub exec_start : List Text

abbrev pub name_head : ℕ → Bool
name_head c = is_lower c || is_upper c || is_digit c

abbrev pub name_tail : ℕ → Bool
name_tail c = name_head c || nat_eq c b'_' || nat_eq c b'-'

-- serviceNamePattern
unfoldable pub name_matches : Text → Bool
unfolding every
name_matches [] = false
name_matches (c ∷ cs) = name_head c && every name_tail cs

unfoldable pub validate_service_name : Text → Option Err
unfolding has_char name_matches
validate_service_name name =
    if is_empty name
    then some service_name_required
    else if has_char b'.' name
    then some (service_name_dot name)
    else if name_matches name
    then none
    else some (bad_service_name name)

-- unicode.IsControl, which includes the newline and the carriage return
abbrev pub is_control : ℕ → Bool
is_control c = ltb c 32 || (leb 127 c && leb c 159)

abbrev pub not_control : ℕ → Bool
not_control c = not (is_control c)

unfoldable pub validate_unit_field : Text → Text → Option Err
unfolding every
validate_unit_field field value =
    if is_empty value
    then some (unit_field_required field)
    else if every not_control value
    then none
    else some (control_characters field)

-- the characters of strings.ContainsAny
abbrev pub is_special : ℕ → Bool
is_special c =
    nat_eq c b' ' || nat_eq c 9 || nat_eq c b'"' || nat_eq c b'\\' || nat_eq c b'%' || nat_eq c b'$'

abbrev pub plain_char : ℕ → Bool
plain_char c = not (is_special c)

-- the `switch` on a rune
abbrev pub escape_char : ℕ → Text → Text
escape_char c rest =
    if nat_eq c b'\\'
    then b'\\' ∷ b'\\' ∷ rest
    else if nat_eq c b'"'
    then b'\\' ∷ b'"' ∷ rest
    else if nat_eq c 9
    then b'\\' ∷ b't' ∷ rest
    else if nat_eq c b'%'
    then b'%' ∷ b'%' ∷ rest
    else if nat_eq c b'$'
    then b'$' ∷ b'$' ∷ rest
    else c ∷ rest

-- the loop, followed by the rest of the output
unfoldable pub escape_chars : Text → Text → Text
escape_chars [] rest = rest
escape_chars (c ∷ s) rest = escape_char c (escape_chars s rest)

unfoldable pub escape_systemd_value : Text → Text
unfolding every escape_chars
escape_systemd_value value =
    if every plain_char value then escape_chars value [] else b'"' ∷ escape_chars value (b'"' ∷ [])

abbrev pub value_field : Text
value_field = codes "unit value"

abbrev pub unless : Option Err → Text → Result Text
unless none v = ok v
unless (some e) v = err e

unfoldable pub escape_unit_value : Text → Result Text
unfolding validate_unit_field escape_systemd_value
escape_unit_value value =
    unless (validate_unit_field value_field value) (escape_systemd_value value)

abbrev pub argument_result : ℕ → Result Text → Result Text
argument_result i (ok v) = ok v
argument_result i (err e) = err (bad_exec_start i e)

-- the loop over ExecStart, from index i
unfoldable pub escape_arguments : ℕ → List Text → Result (List Text)
unfolding escape_unit_value
escape_arguments i [] = ok []
escape_arguments i (arg ∷ args) = argument_result i (escape_unit_value arg) >>= λ v.
    escape_arguments (i + 1) args >>= λ vs. ok (v ∷ vs)

-- strings.Join by a space
unfoldable pub join_words : List Text → Text
join_words [] = []
join_words (w ∷ []) = w
join_words (w ∷ v ∷ ws) = w ++ (b' ' ∷ join_words (v ∷ ws))

unfoldable pub template : Text → Text → Text
template description exec =
    codes "[Unit]\nDescription="
    ++ (description
        ++ (codes "\nAfter=network-online.target\n\n[Service]\nType=simple\nExecStart="
            ++ (exec ++ codes "\nRestart=on-failure\n\n[Install]\nWantedBy=default.target\n")))

abbrev pub described : Option Err → Result Text → Result Text
described none r = r
described (some e) r = err (bad_description e)

abbrev pub with_arguments : List Text → Result Text → Result Text
with_arguments [] r = err exec_start_required
with_arguments (_ ∷ _) r = r

unfoldable pub render : SystemdUnit → Result Text
unfolding validate_unit_field escape_arguments escape_systemd_value join_words template
render unit = described (validate_unit_field (codes "Description") unit.description) (
    with_arguments unit.exec_start (
      escape_arguments 0 unit.exec_start >>= λ words.
      ok (template (escape_systemd_value unit.description) (join_words words))))
