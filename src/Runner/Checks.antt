-- ===== src/Runner/Checks.antt =====
-- internal/plugins/runner/config.go: the checks of the configuration. What os.Stat answers, the check of
-- an interpreter by ozzo-validation, and regexp.Compile are parameters.
pub mod Entities
use home_pc_agent.Common.{
  ℕ, zero, suc, ◌+◌, Bool, true, false, not, ◌&&◌, ◌||◌, Option, none, some, List, [], ◌∷◌, ◌++◌,
  map, Text, codes, ◌==◌, contains, Dict, Err, invalid_setting, setting_error, actions_required, ℤ,
  is_zero, positive, trim_space, is_empty, is_some, is_none, if◌then◌else◌,
}
use home_pc_agent.Entity.{id_matches}
use home_pc_agent.PowerPlan.{key_matches}
use home_pc_agent.FanControl.Settings.{Stat, file_error}
use home_pc_agent.Runner.Settings.{
  Getter, Setter, Side, OptionSettings, ParameterSchema, StateSettings, Action, Config,
  resolved_entity_id, has_options_getter,
}

-- Checks in a row, of which the first error is returned.
unfoldable pub first_of : List (Option Err) → Option Err
first_of [] = none
first_of (none ∷ checks) = first_of checks
first_of (some e ∷ checks) = some e

abbrev pub require : Bool → Text → Text → Option Err
require true path what = none
require false path what = some (invalid_setting path what)

abbrev pub has_words : Text → Bool
has_words t = not (is_empty (trim_space t))

abbrev pub within : Text → Option Err → Option Err
within path none = none
within path (some e) = some (setting_error path e)

abbrev pub one_of : List Text → Text → Bool
one_of texts t = contains texts t

-- resolveCommand
unfoldable pub resolve_command : Text → Text → Text
unfolding trim_space
resolve_command command default =
    if is_empty (trim_space command) then trim_space default else trim_space command

unfoldable pub validate_tag : Text → Text → ℕ → Option Err
unfolding trim_space key_matches
validate_tag prefix tag index = first_of (
    require (has_words tag) prefix (codes "required")
    ∷ require (key_matches (trim_space tag)) prefix (codes "must match")
    ∷ [])

unfoldable pub validate_tags : Text → List Text → ℕ → List (Option Err)
unfolding validate_tag
validate_tags prefix [] index = []
validate_tags prefix (tag ∷ tags) index =
    validate_tag prefix tag index ∷ validate_tags prefix tags (suc index)

unfoldable pub validate_state : Text → StateSettings → Option Err
unfolding contains
validate_state prefix s =
    require (one_of (codes "none" ∷ codes "last_success" ∷ codes "getter" ∷ []) s.source)
      (prefix ++ codes ".state.source") (codes "must be none, last_success, or getter")

-- the loop over the options of a select action
unfoldable pub validate_options : Text → Dict OptionSettings → List (Option Err)
unfolding key_matches trim_space
validate_options prefix [] = []
validate_options prefix ((key, o) ∷ os) =
    require (key_matches key) (prefix ++ (codes ".options." ++ key)) (codes "option key must match")
    ∷ require (has_words o.name) (prefix ++ (codes ".options." ++ (key ++ codes ".name")))
        (codes "required")
    ∷ validate_options prefix os

module _ (stat : Text → Stat) (check_interpreter compile : Text → Option Err) where
  unfoldable pub ensure_file_exists : Text → Option Err
  ensure_file_exists path = file_error path (stat path)

  unfoldable pub validate_command_or_interpreter : Text → Text → Text → Option Err
  unfolding ensure_file_exists
  validate_command_or_interpreter prefix command interpreter =
      if is_empty command
      then within (prefix ++ codes ".interpreter") (check_interpreter interpreter)
      else within (prefix ++ codes ".command") (ensure_file_exists command)

  -- `s.Input == inputJSON && s.JSON.MaxBytes <= 0`
  abbrev pub lacks_limit : Setter → Bool
  lacks_limit s = s.input == codes "json" && is_none (positive s.json.max_bytes)

  unfoldable pub validate_setter : Text → Config → Setter → Option Err
  unfolding validate_command_or_interpreter resolve_command ensure_file_exists
  validate_setter prefix c s = first_of (
      require (has_words s.path) (prefix ++ codes ".path") (codes "required")
      ∷ within (prefix ++ codes ".path") (ensure_file_exists s.path)
      ∷ validate_command_or_interpreter prefix (resolve_command s.command c.default_command)
          s.interpreter
      ∷ require (one_of (codes "none" ∷ codes "structured" ∷ codes "json" ∷ []) s.input)
          (prefix ++ codes ".input") (codes "must be none, structured, or json")
      ∷ require (one_of (codes "args" ∷ codes "stdin_json" ∷ codes "env" ∷ []) s.delivery)
          (prefix ++ codes ".delivery") (codes "must be args, stdin_json, or env")
      ∷ require (not (lacks_limit s)) (prefix ++ codes ".json.max_bytes")
          (codes "required when input is json")
      ∷ [])

  unfoldable pub validate_getter : Text → Config → Getter → Option Err
  unfolding validate_command_or_interpreter resolve_command ensure_file_exists
  validate_getter prefix c g = first_of (
      require (has_words g.path) (prefix ++ codes ".path") (codes "required")
      ∷ within (prefix ++ codes ".path") (ensure_file_exists g.path)
      ∷ validate_command_or_interpreter prefix (resolve_command g.command c.default_command)
          g.interpreter
      ∷ require (one_of (codes "plain" ∷ codes "json" ∷ []) g.format) (prefix ++ codes ".format")
          (codes "must be plain or json")
      ∷ require (not (g.format == codes "json") || has_words g.json_path)
          (prefix ++ codes ".json_path") (codes "required when format is json")
      ∷ [])

  -- validateOptionsList, which looks at neither the command nor the interpreter
  unfoldable pub validate_options_list : Text → Getter → Option Err
  unfolding ensure_file_exists
  validate_options_list prefix g = first_of (
      require (has_words g.path) (prefix ++ codes ".path") (codes "required")
      ∷ within (prefix ++ codes ".path") (ensure_file_exists g.path)
      ∷ require (is_empty g.format || g.format == codes "json") (prefix ++ codes ".format")
          (codes "must be json")
      ∷ [])

  abbrev pub pattern_error : Text → Text → Option Err
  pattern_error prefix pattern =
      if is_empty pattern then none else within (prefix ++ codes ".pattern") (compile pattern)

  unfoldable pub validate_schema : Text → ParameterSchema → Option Err
  validate_schema prefix p = first_of (
      require
        (one_of (codes "string" ∷ codes "integer" ∷ codes "number" ∷ codes "boolean" ∷ [])
          p.param_type)
        (prefix ++ codes ".type") (codes "must be string, integer, number, or boolean")
      ∷ pattern_error prefix p.pattern
      ∷ [])

  unfoldable pub validate_schemas : Text → Dict ParameterSchema → List (Option Err)
  unfolding validate_schema
  validate_schemas prefix [] = []
  validate_schemas prefix ((key, p) ∷ ps) =
      validate_schema (prefix ++ key) p ∷ validate_schemas prefix ps

  abbrev pub options_getter_error : Text → Option Getter → Option Err
  options_getter_error prefix none = none
  options_getter_error prefix (some g) = validate_options_list prefix g

  -- the second switch of validate, by the kind
  unfoldable pub kind_error : Text → Action → Option Err
  unfolding validate_options has_options_getter ◌==◌
  kind_error prefix a =
      if a.kind == codes "select"
      then first_of (
          require (not (is_empty a.options) || has_options_getter a) prefix
            (codes "select actions require options or options_getter")
          ∷ validate_options prefix a.options)
      else if a.kind == codes "switch"
      then first_of (
          require (not (is_empty a.setter.on.parameters)) (prefix ++ codes ".setter.on.parameters")
            (codes "required")
          ∷ require (not (is_empty a.setter.off.parameters))
              (prefix ++ codes ".setter.off.parameters") (codes "required")
          ∷ [])
      else if a.kind == codes "button"
      then require (not (a.setter.input == codes "json" && is_zero a.setter.json.max_bytes))
          (prefix ++ codes ".setter.json.max_bytes") (codes "required when input is json")
      else none

  unfoldable pub validate_action : Config → Text → Action → Option Err
  unfolding key_matches trim_space id_matches resolved_entity_id validate_state validate_setter
      validate_getter kind_error validate_schemas validate_tags has_options_getter
  validate_action c key a =
      let prefix = codes "actions." ++ key in
      first_of (
        require (key_matches key) prefix (codes "action key must match")
        ∷ require (has_words a.name) (prefix ++ codes ".name") (codes "required")
        ∷ require (id_matches (resolved_entity_id key a)) (prefix ++ codes ".entity_id")
            (codes "must match")
        ∷ require (one_of (codes "button" ∷ codes "select" ∷ codes "switch" ∷ []) a.kind)
            (prefix ++ codes ".kind") (codes "must be button, select, or switch")
        ∷ validate_state prefix a.state
        ∷ validate_setter (prefix ++ codes ".setter") c a.setter
        ∷ (if a.state.source == codes "getter"
            then validate_getter (prefix ++ codes ".getter") c a.getter
            else none)
        ∷ (if has_options_getter a
            then options_getter_error (prefix ++ codes ".options_getter") a.options_getter
            else none)
        ∷ require (one_of (codes "refresh" ∷ codes "last_success" ∷ []) a.state.after_set)
            (prefix ++ codes ".state.after_set") (codes "must be refresh or last_success")
        ∷ kind_error prefix a
        ∷ first_of (validate_schemas (prefix ++ codes ".setter.parameters.") a.setter.parameters)
        ∷ first_of (validate_tags (prefix ++ codes ".tags") a.tags 0)
        ∷ first_of (validate_tags (prefix ++ codes ".refresh_tags") a.refresh_tags 0)
        ∷ [])

  unfoldable pub validate_actions : Config → Dict Action → List (Option Err)
  unfolding validate_action
  validate_actions c [] = []
  validate_actions c ((key, a) ∷ acts) = validate_action c key a ∷ validate_actions c acts

  unfoldable pub validate : Config → Option Err
  unfolding validate_actions first_of
  validate c =
      if is_empty c.actions then some actions_required else first_of (validate_actions c c.actions)
