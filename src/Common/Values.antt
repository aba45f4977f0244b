-- ===== src/Common/Values.antt =====
-- Values of Go's `any`, as plugins publish them and as JSON payloads decode to.
use mathlib.Core.Bool.{Bool}
use mathlib.Core.Option.{Option, none, some}
use home_pc_agent.Common.Bools.{if◌then◌else◌}
use home_pc_agent.Common.Strings.{Text, ◌==◌}

mutual
  -- `number` is a json.Number; `opaque_value` is a value of any other dynamic type, by its name.
  -- `any_object` is a map[any]any: of a key it has what fmt.Sprint prints, so that a key can be there twice.
  pub data Value : Type 0 where
    null : Value
    boolean : Bool → Value
    text : Text → Value
    number : Text → Value
    opaque_value : Text → Value
    array : Items → Value
    object : Fields → Value
    any_object : Fields → Value

  pub data Items : Type 0 where
    no_items : Items
    item : Value → Items → Items

  pub data Fields : Type 0 where
    no_fields : Fields
    field : Text → Value → Fields → Fields

-- v, ok := object[k]
unfoldable pub get_field : Text → Fields → Option Value
get_field k no_fields = none
get_field k (field j v fs) = if j == k then some v else get_field k fs
