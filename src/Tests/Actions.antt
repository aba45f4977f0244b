-- ===== src/Tests/Actions.antt =====
-- The command runner: an action for brightness, its options, and outside code for it.
use home_pc_agent.Common.{
  true, false, Option, none, some, [], ◌∷◌, Text, codes, Dict, Err, external, Result, ok, err, pos,
}
use home_pc_agent.FanControl.Settings.{Stat, file}
use home_pc_agent.Runner.Settings.{
  Param, text_param, integer, Side, Getter, ParameterSchema, OptionSettings, Action, Config,
}
use home_pc_agent.Runner.Invocation.{CommandSpec}
use home_pc_agent.Runner.Params.{Floats}
use home_pc_agent.Runner.States.{Runtime, RunResult, Library}
use home_pc_agent.Runner.Commands.{spec_of}
use home_pc_agent.Tests.Data.{no_lower}

abbrev pub level : ParameterSchema
level = record {
  param_type = codes "integer";
  required = true;
  enum = [];
  pattern = [];
  min = some (pos 0);
  max = some (pos 100);
}

abbrev pub no_getter : Getter
no_getter = record {
  path = [];
  command = [];
  args = [];
  interpreter = [];
  static_args = [];
  timeout = pos 0;
  format = [];
  json_path = [];
  refresh = pos 0;
}

abbrev pub low_level : Dict Param
low_level = (codes "level", integer (pos 20)) ∷ []

abbrev pub options : Dict OptionSettings
options =
    (codes "low", record { name = codes "Low"; parameters = low_level })
    ∷ (
      codes "high",
      record { name = codes "High"; parameters = (codes "level", integer (pos 120)) ∷ [] },
    )
    ∷ []

abbrev pub no_side : Side
no_side = record { parameters = [] }

abbrev pub brightness : Action
brightness = record {
  name = codes "Brightness";
  kind = codes "select";
  entity_id = [];
  icon = [];
  tags = [];
  refresh_tags = [];
  optional = false;
  timeout = pos 0;
  state = record { source = codes "none"; after_set = codes "refresh" };
  setter = record {
    path = codes "/b.sh";
    command = [];
    args = [];
    interpreter = codes "sh";
    static_args = [];
    input = codes "structured";
    delivery = codes "args";
    timeout = pos 0;
    parameters = (codes "level", level) ∷ [];
    json = record { max_bytes = pos 0; strict = false };
    on = no_side;
    off = no_side;
  };
  getter = no_getter;
  options_getter = none;
  max_bytes = pos 10;
  options = options;
}

abbrev pub config : Config
config = record {
  enabled = true;
  default_timeout = pos 0;
  default_getter_refresh = pos 0;
  default_command = [];
  default_args = [];
  actions = (codes "brightness", brightness) ∷ [];
}

abbrev pub all_there : Text → Stat
all_there path = file

abbrev pub no_error : Text → Option Err
no_error t = none

abbrev pub floats : Floats
floats = record {
  parse_float = λ t. none;
  trunc = λ t. t;
  to_int = λ t. pos 0;
  of_int = λ n. [];
  float_less = λ a b. false;
  float_equal = λ a b. true;
}

abbrev pub library : Library
library = record {
  lower_other = no_lower;
  upper_other = no_lower;
  fold_other = no_lower;
  floats = floats;
  matches = λ pattern t. ok true;
  close = λ a b. false;
  scalar = λ t. t;
  sprint = λ v. [];
  decode = λ t. err (external (codes "no JSON"));
}

abbrev pub runtime : Runtime
runtime = record {
  action = brightness;
  action_key = codes "brightness";
  entity_id = codes "a.lamp";
  discovered = [];
}

abbrev pub done : RunResult
done = record {
  exit = pos 0;
  stdout = codes "ok";
  stderr = [];
  truncated = false;
  duration_ms = 3;
  finished_at = codes "now";
}

abbrev pub runs : CommandSpec → Result RunResult
runs s = ok done

abbrev pub no_value : Result Param
no_value = err (external (codes "no getter"))

abbrev pub two : Dict Param
two = (codes "b", text_param (codes "2")) ∷ (codes "a", text_param (codes "1")) ∷ []

abbrev pub two_swapped : Dict Param
two_swapped = (codes "a", text_param (codes "1")) ∷ (codes "b", text_param (codes "2")) ∷ []

abbrev pub marshal : Dict Param → Result Text
marshal m = ok []

abbrev pub spec : CommandSpec
spec = record (spec_of library brightness two) { delivery = codes "env" }
