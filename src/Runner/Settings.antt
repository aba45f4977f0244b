-- ===== src/Runner/Settings.antt =====
-- internal/plugins/runner/config.go: the configuration of actions and its defaults. The strings of a
-- setting are kept as they are; a duration is its nanoseconds.
pub mod Defaults
use home_pc_agent.Common.{
  ℕ, ◌*◌, Bool, true, false, not, ◌&&◌, ◌||◌, Option, none, some, List, [], ◌∷◌, ◌++◌, Text, codes,
  ◌==◌, Dict, ℤ, pos, negsuc, is_zero, positive, trim_space, is_empty, is_some, if◌then◌else◌,
}

-- A value of a parameter, as the configuration or a payload gives it. A float is what %v prints.
pub data Param : Type 0 where
  nil : Param
  boolean_param : Bool → Param
  text_param json_number float : Text → Param
  integer : ℤ → Param
  other : Text → Param

pub record Side : Type 0 where
  pub parameters : Dict Param

pub record Getter : Type 0 where
  pub path : Text
  pub command : Text
  pub args : List Text
  pub interpreter : Text
  pub static_args : List Text
  pub timeout : ℤ
  pub format : Text
  pub json_path : Text
  pub refresh : ℤ

pub record ParameterSchema : Type 0 where
  pub param_type : Text
  pub required : Bool
  pub enum : List Text
  pub pattern : Text
  pub min : Option ℤ
  pub max : Option ℤ

pub record Json : Type 0 where
  pub max_bytes : ℤ
  pub strict : Bool

pub record Setter : Type 0 where
  pub path : Text
  pub command : Text
  pub args : List Text
  pub interpreter : Text
  pub static_args : List Text
  pub input : Text
  pub delivery : Text
  pub timeout : ℤ
  pub parameters : Dict ParameterSchema
  pub json : Json
  pub on : Side
  pub off : Side

pub record StateSettings : Type 0 where
  pub source : Text
  pub after_set : Text

pub record OptionSettings : Type 0 where
  pub name : Text
  pub parameters : Dict Param

-- `max_bytes` is that of the output
pub record Action : Type 0 where
  pub name : Text
  pub kind : Text
  pub entity_id : Text
  pub icon : Text
  pub tags : List Text
  pub refresh_tags : List Text
  pub optional : Bool
  pub timeout : ℤ
  pub state : StateSettings
  pub setter : Setter
  pub getter : Getter
  pub options_getter : Option Getter
  pub max_bytes : ℤ
  pub options : Dict OptionSettings

pub record Config : Type 0 where
  pub enabled : Bool
  pub default_timeout : ℤ
  pub default_getter_refresh : ℤ
  pub default_command : Text
  pub default_args : List Text
  pub actions : Dict Action

abbrev pub or_number : ℤ → ℤ → ℤ
or_number default n = if is_zero n then default else n

abbrev pub or_text : Text → Text → Text
or_text default [] = default
or_text default (c ∷ t) = c ∷ t

abbrev pub or_command : Text → Text → Text
or_command default command = if is_empty (trim_space command) then default else command

abbrev pub or_args : List Text → List Text → List Text
or_args default [] = default
or_args default (a ∷ args) = a ∷ args

abbrev pub seconds : ℕ → ℤ
seconds n = pos (n * 1_000_000_000)

-- SetterConfig.withPluginDefaults, GetterConfig.withPluginDefaults
unfoldable pub setter_defaults : Config → Setter → Setter
unfolding trim_space
setter_defaults c s = record s {
  command = or_command c.default_command s.command;
  args = or_args c.default_args s.args;
}

unfoldable pub getter_defaults : Config → Getter → Getter
unfolding trim_space
getter_defaults c g = record g {
  command = or_command c.default_command g.command;
  args = or_args c.default_args g.args;
}

-- what withDefaults sets of the two getters
abbrev pub filled_getter : Text → ℤ → Getter → Getter
filled_getter format refresh g = record g {
  format = or_text format g.format;
  timeout = or_number (seconds 30) g.timeout;
  refresh = refresh;
}

abbrev pub filled_options_getter : Config → Option Getter → Option Getter
filled_options_getter c none = none
filled_options_getter c (some g) =
    some (filled_getter (codes "json") g.refresh (getter_defaults c g))

-- `a.State.Source == stateGetter && a.Getter.Refresh == 0 && cfg.DefaultGetterRefresh > 0`
abbrev pub refresh_of : Config → Text → ℤ → ℤ
refresh_of c source refresh =
    if source == codes "getter" && is_zero refresh && is_some (positive c.default_getter_refresh)
    then c.default_getter_refresh
    else refresh

unfoldable pub action_defaults : Config → Action → Action
unfolding setter_defaults getter_defaults ◌==◌
action_defaults c a =
    let timeout = or_number c.default_timeout a.timeout in
    let source = or_text (codes "last_success") a.state.source in
    record a {
      timeout = timeout;
      state = record { source = source; after_set = or_text (codes "refresh") a.state.after_set };
      setter = setter_defaults c (record a.setter {
        input = or_text (codes "none") a.setter.input;
        delivery = or_text (codes "args") a.setter.delivery;
        timeout = or_number timeout a.setter.timeout;
      });
      getter =
          filled_getter (codes "plain") (refresh_of c source a.getter.refresh)
            (getter_defaults c a.getter);
      options_getter = filled_options_getter c a.options_getter;
      max_bytes = or_number (pos 65_536) a.max_bytes;
    }

-- the loop of withDefaults, which writes each key once
unfoldable pub actions_defaults : Config → Dict Action → Dict Action
unfolding action_defaults
actions_defaults c [] = []
actions_defaults c ((key, a) ∷ later) = (key, action_defaults c a) ∷ actions_defaults c later

unfoldable pub with_defaults : Config → Config
unfolding actions_defaults
with_defaults c =
    let c' = record c { default_timeout = or_number (seconds 120) c.default_timeout } in
    record c' { actions = actions_defaults c' c'.actions }

-- resolvedEntityID
unfoldable pub resolved_entity_id : Text → Action → Text
resolved_entity_id key a = if is_empty a.entity_id then codes "runner." ++ key else a.entity_id

-- hasOptionsGetter of options_getter.go
abbrev pub has_path : Option Getter → Bool
has_path none = false
has_path (some g) = not (is_empty (trim_space g.path))

unfoldable pub has_options_getter : Action → Bool
unfolding trim_space
has_options_getter a = has_path a.options_getter

unfoldable pub uses_getter_refresh : Action → Bool
unfolding ◌==◌
uses_getter_refresh a = a.state.source == codes "getter" && is_some (positive a.getter.refresh)

unfoldable pub entity_category : Action → Text
unfolding ◌==◌
entity_category a =
    if a.state.source == codes "none" && (a.kind == codes "select" || a.kind == codes "button")
    then codes "config"
    else []
