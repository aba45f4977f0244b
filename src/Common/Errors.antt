-- ===== src/Common/Errors.antt =====
-- The errors of the modelled code: one constructor for each message, with its arguments.
use Prim.Native.Nat.{ℕ}
use mathlib.Core.Option.{Option, none, some}
use home_pc_agent.Common.Strings.{Text}
use home_pc_agent.Common.Ints.{ℤ}

pub data Err : Type 0 where
  -- internal/core/entity
  bad_entity_id name_required bad_kind no_options empty_option_value : Text → Err
  duplicate_option_name : Text → Text → Err
  -- internal/core/registry.go, internal/core/command_router.go
  duplicate_entity entity_not_found duplicate_handler no_command_handler : Text → Err
  entity_id_required handler_required command_entity_id_required : Err
  -- internal/core/plugin_scope.go
  scope_closed cleanup_timed_out : Text → Err
  unowned_entity : Text → Text → Err
  canceled : Err
  task_panicked : Text → Err
  -- internal/core/plugin_manager.go, internal/core/transport_manager.go
  already_running : Text → Err
  create_plugin start_plugin stop_plugin cleanup_plugin start_transport stop_transport :
      Text → Err → Err
  -- internal/core/runtime.go
  stop_transports_after : Err → Err → Err
  watch_config : Err → Err
  -- internal/service/systemdunit/unit.go
  service_name_required exec_start_required : Err
  service_name_dot bad_service_name unit_field_required control_characters : Text → Err
  bad_description : Err → Err
  bad_exec_start : ℕ → Err → Err
  -- internal/plugins/inhibit_freedesktop
  boolean_required : Text → Err
  enable_failed disable_failed bad_cookie release_failed : Text → Err → Err
  close_session_bus connect_session_bus connect_system_bus : Err → Err
  -- internal/plugins/catalog
  unknown_plugin : Text → Err
  plugin_error unresolved_entities : Text → Err → Err
  unsupported_plugin : Text → Text → Err
  entity_taken : Text → Text → Text → Err
  -- the plugins of power plans, power profiles and fans
  string_option_required nothing_available : Text → Err
  unknown_option item_gone : Text → Text → Err
  bad_mode_key : Text → Err
  bad_mode discover_failed set_failed : Text → Err → Err
  no_schemes : Err
  enumeration_failed : ℕ → Err → Err
  name_size_failed name_failed : Text → Err → Err
  path_required : Text → Err
  config_name_is_path profile_is_empty bad_profile_key is_directory no_config_name : Text → Err
  invalid_field : Text → Err → Err
  invalid_profile_path : Text → Err → Err
  connect_ipc switch_through_ipc switch_after_start start_fan_control wait_for_ipc : Err → Err
  ipc_unavailable : Err
  start_after : Err → Err → Err
  property_missing bad_signature : Text → Err
  no_profiles service_unavailable : Err
  service_error : Text → Err → Err
  read_failed watch_failed : Text → Err → Err
  -- internal/plugins/runner
  invalid_setting : Text → Text → Err
  setting_error : Text → Err → Err
  actions_required : Err
  unsupported_interpreter unknown_switch_state unsupported_kind unsupported_input : Text → Err
  not_a_switch_state marshal_failed output_empty value_empty not_an_object : Err
  missing_json_key unmatched_value unknown_parameter parameter_required : Text → Err
  bad_parameter_value : Text → Text → Err
  exit_code : ℤ → Text → Err
  run_failed : Text → Err → Err
  payload_too_large : Err
  name_missing : ℕ → Err
  -- errors.Join, and an error of code outside this repository
  join : Err → Err → Err
  external : Text → Err

-- What a Go function returns with its error: the error, if it is not nil, or the value.
pub data Result {ℓ} (Value : Type ℓ) : Type ℓ where
  err : Err → Result Value
  ok : Value → Result Value

-- `if err != nil { return …, err }` and what follows it
infixl 5 ◌>>=◌
abbrev pub ◌>>=◌ {ℓ κ} : {V : Type ℓ} {W : Type κ} → Result V → (V → Result W) → Result W
err e >>= next = err e
ok value >>= next = next value

-- errors.Join of two errors that may be nil
abbrev pub join_errors : Option Err → Option Err → Option Err
join_errors none b = b
join_errors (some a) none = some a
join_errors (some a) (some b) = some (join a b)
