-- ===== src/Runner/Params.antt =====
-- internal/plugins/runner/params.go: what a parameter's schema accepts. What floats
-- are and how regular expressions match is a parameter.
pub mod Typing
pub mod Accepting
use home_pc_agent.Common.{
  ℕ, suc, ◌-◌, ◌+◌, ◌^◌, Bool, true, false, not, ◌&&◌, ◌||◌, Option, none, some, List, [], ◌∷◌,
  Text, codes, ◌==◌, contains, Dict, lookup, has, Err, bad_parameter_value, unknown_parameter,
  parameter_required, payload_too_large, setting_error, Result, ok, err, ℤ, pos, negsuc, less,
  positive, trim_space, every, is_lower, is_upper, is_digit, nat_eq, leb, ltb, length, is_empty,
  is_some, if◌then◌else◌, or_else,
}
use home_pc_agent.Selects.Numbers.{read_decimal}
use home_pc_agent.Runner.Settings.{
  Param, nil, boolean_param, text_param, json_number, float, integer, other, ParameterSchema, Json,
}
use home_pc_agent.Runner.Invocation.{normalize_switch_state}

-- `^[A-Za-z_][A-Za-z0-9_]*$`
abbrev pub name_head : ℕ → Bool
name_head c = is_lower c || is_upper c || nat_eq c b'_'

unfoldable pub name_matches : Text → Bool
unfolding every
name_matches [] = false
name_matches (c ∷ s) = name_head c && every (λ d. name_head d || is_digit d) s

abbrev pub digits_of : Text → Option ℕ
digits_of [] = none
digits_of (c ∷ s) = if every is_digit (c ∷ s) then some (read_decimal 0 (c ∷ s)) else none

abbrev pub positive_in_range : Option ℕ → Option ℤ
positive_in_range none = none
positive_in_range (some n) = if ltb n (2 ^ 63) then some (pos n) else none

abbrev pub negated : ℕ → ℤ
negated n = if nat_eq n 0 then pos 0 else negsuc (n - 1)

abbrev pub negative_in_range : Option ℕ → Option ℤ
negative_in_range none = none
negative_in_range (some n) = if leb n (2 ^ 63) then some (negated n) else none

-- strconv.ParseInt(s, 10, 64)
unfoldable pub parse_int : Text → Option ℤ
unfolding every read_decimal
parse_int [] = none
parse_int (c ∷ s) =
    if nat_eq c b'-'
    then negative_in_range (digits_of s)
    else if nat_eq c b'+'
    then positive_in_range (digits_of s)
    else positive_in_range (digits_of (c ∷ s))

-- A float is a text here. `parse_float` is strconv.ParseFloat, `trunc` math.Trunc; `of_int` converts
-- an int64 to the nearest float, and `to_int` a float to an int64; out of range, what it gives is up
-- to Go's implementation.
pub record Floats : Type 0 where
  pub parse_float : Text → Option Text
  pub trunc : Text → Text
  pub to_int : Text → ℤ
  pub of_int : ℤ → Text
  pub float_less : Text → Text → Bool
  pub float_equal : Text → Text → Bool

-- math.MinInt64 and math.MaxInt64
abbrev pub min_int64 : ℤ
min_int64 = negsuc (2 ^ 63 - 1)

abbrev pub max_int64 : ℤ
max_int64 = pos (2 ^ 63 - 1)

unfoldable pub float_integer : Floats → Text → Option ℤ
float_integer f t =
    if not (f.float_equal (f.trunc t) t)
      || f.float_less t (f.of_int min_int64)
      || f.float_less (f.of_int max_int64) t
    then none
    else some (f.to_int t)

unfoldable pub as_int64 : Floats → Param → Option ℤ
unfolding parse_int trim_space float_integer
as_int64 f (integer n) = some n
as_int64 f (float t) = float_integer f t
as_int64 f (json_number t) = parse_int t
as_int64 f (text_param t) = parse_int (trim_space t)
as_int64 f _ = none

unfoldable pub as_float64 : Floats → Param → Option Text
unfolding trim_space
as_float64 f (float t) = some t
as_float64 f (integer n) = some (f.of_int n)
as_float64 f (json_number t) = f.parse_float t
as_float64 f (text_param t) = f.parse_float (trim_space t)
as_float64 f _ = none

abbrev pub below_min : ℤ → Option ℤ → Bool
below_min n none = false
below_min n (some min) = less n min

abbrev pub above_max : ℤ → Option ℤ → Bool
above_max n none = false
above_max n (some max) = less max n

abbrev pub float_below : Floats → Text → Option ℤ → Bool
float_below f x none = false
float_below f x (some min) = f.float_less x (f.of_int min)

abbrev pub float_above : Floats → Text → Option ℤ → Bool
float_above f x none = false
float_above f x (some max) = f.float_less (f.of_int max) x

abbrev pub bad : Text → Text → Option Err
bad name what = some (bad_parameter_value name what)

abbrev pub check_bounds : Text → Bool → Bool → Option Err
check_bounds name true above = bad name (codes "value below min")
check_bounds name false true = bad name (codes "value above max")
check_bounds name false false = none

abbrev pub check_integer : Text → ParameterSchema → Option ℤ → Option Err
check_integer name schema none = bad name (codes "expected integer")
check_integer name schema (some n) =
    check_bounds name (below_min n schema.min) (above_max n schema.max)

abbrev pub check_number : Floats → Text → ParameterSchema → Option Text → Option Err
check_number f name schema none = bad name (codes "expected number")
check_number f name schema (some x) =
    check_bounds name (float_below f x schema.min) (float_above f x schema.max)

abbrev pub check_enum : Text → ParameterSchema → Text → Option Err
check_enum name schema t =
    if is_empty schema.enum || contains schema.enum t
    then none
    else bad name (codes "value is not in enum")

abbrev pub check_match : Text → ParameterSchema → Text → Result Bool → Option Err
check_match name schema t (err e) = some e
check_match name schema t (ok false) = bad name (codes "value does not match pattern")
check_match name schema t (ok true) = check_enum name schema t

abbrev pub or_not_boolean : Text → Result Bool → Option Err
or_not_boolean name (ok a) = none
or_not_boolean name (err e) = bad name (codes "expected boolean")

-- `matches` is regexp.MatchString
module _ (floats : Floats) (matches : Text → Text → Result Bool)
    (lower_other upper_other : ℕ → ℕ) where
  abbrev pub check_string : Text → ParameterSchema → Param → Option Err
  check_string name schema (text_param t) =
      if is_empty schema.pattern
      then check_enum name schema t
      else check_match name schema t (matches schema.pattern t)
  check_string name schema _ = bad name (codes "expected string")

  abbrev pub check_boolean : Text → Param → Option Err
  check_boolean name (boolean_param b) = none
  check_boolean name (text_param t) =
      or_not_boolean name (normalize_switch_state lower_other upper_other (text_param t))
  check_boolean name _ = bad name (codes "expected boolean")

  -- the switch of validateParameterValue over the schema's type
  unfoldable pub check_type : Text → Text → ParameterSchema → Param → Option Err
  unfolding contains normalize_switch_state as_int64 as_float64 ◌==◌
  check_type param_type name schema value =
      if param_type == codes "string"
      then check_string name schema value
      else if param_type == codes "boolean"
      then check_boolean name value
      else if param_type == codes "integer"
      then check_integer name schema (as_int64 floats value)
      else if param_type == codes "number"
      then check_number floats name schema (as_float64 floats value)
      else bad name (codes "unsupported schema type")

  unfoldable pub validate_parameter_value : Text → ParameterSchema → Param → Option Err
  unfolding name_matches check_type
  validate_parameter_value name schema value =
      if name_matches name
      then check_type schema.param_type name schema value
      else bad name (codes "parameter name is invalid")

  abbrev pub check_known : Bool → Text → Param → Option ParameterSchema → Option Err
  check_known true key value none = some (unknown_parameter key)
  check_known false key value none = none
  check_known strict key value (some schema) = validate_parameter_value key schema value

  -- the loop over the parameters; `strict` refuses those that are not in the schema
  unfoldable pub check_params : Bool → Dict ParameterSchema → Dict Param → Option Err
  unfolding validate_parameter_value lookup
  check_params strict schema [] = none
  check_params strict schema ((key, value) ∷ later) =
      or_else (check_known strict key value (lookup key schema)) (check_params strict schema later)

  -- the loop over the schema
  unfoldable pub check_required : Dict ParameterSchema → Dict Param → Option Err
  unfolding lookup
  check_required [] params = none
  check_required ((key, schema) ∷ later) params =
      or_else
        (if schema.required && not (has key params) then some (parameter_required key) else none)
        (check_required later params)

  unfoldable pub validate_structured_parameters : Dict ParameterSchema → Dict Param → Option Err
  unfolding check_params check_required
  validate_structured_parameters schema params =
      if is_empty schema
      then none
      else or_else (check_params true schema params) (check_required schema params)

  -- `raw` is the payload's bytes
  abbrev pub exceeds : Text → ℤ → Bool
  exceeds raw (pos n) = ltb n (length raw)
  exceeds raw (negsuc n) = true

  unfoldable pub validate_json_parameters :
      Dict ParameterSchema → Dict Param → Json → Text → Option Err
  unfolding check_params check_required validate_structured_parameters
  validate_json_parameters schema params json raw =
      if exceeds raw json.max_bytes
      then some payload_too_large
      else if is_empty schema
      then none
      else if json.strict
      then validate_structured_parameters schema params
      else or_else (check_params false schema params) (check_required schema params)
