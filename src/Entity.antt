-- ===== src/Entity.antt =====
-- internal/core/entity/entity.go: entity definitions, their validation, and the translation
-- between the values of a select entity and the names that a user sees.
pub mod Validation
pub mod Options
use home_pc_agent.Common.{
  ℕ, Bool, true, false, ◌&&◌, ◌||◌, Option, none, some, List, [], ◌∷◌, Text, ◌==◌, Err,
  bad_entity_id, name_required, bad_kind, no_options, empty_option_value, duplicate_option_name,
  if◌then◌else◌, contains, is_lower, is_digit, nat_eq, all, is_empty,
}

-- `type Kind string`; `unknown` is a string that is none of the constants.
pub data Kind : Type 0 where
  sensor binary_sensor switch select number_kind button text_kind event : Kind
  unknown : Text → Kind

-- `type Availability string`; `unset` is the zero value "".
pub data Availability : Type 0 where
  online offline unavailable unset : Availability

pub record Choice : Type 0 where
  pub value : Text
  pub name : Text

pub record Entity : Type 0 where
  pub id : Text
  pub name : Text
  pub kind : Kind
  pub options : List Choice
  pub icon : Text
  pub device_class : Text
  pub state_class : Text
  pub unit : Text
  pub category : Text

-- Go's zero value
abbrev pub zero_entity : Entity
zero_entity = record {
  id = [];
  name = [];
  kind = unknown [];
  options = [];
  icon = [];
  device_class = [];
  state_class = [];
  unit = [];
  category = [];
}

abbrev pub entity_or_zero : Option Entity → Entity
entity_or_zero none = zero_entity
entity_or_zero (some e) = e

-- `^[a-z0-9][a-z0-9_.-]*$`
unfoldable pub id_head : ℕ → Bool
id_head c = is_lower c || is_digit c

unfoldable pub id_tail : ℕ → Bool
unfolding id_head
id_tail c = id_head c || nat_eq c b'_' || nat_eq c b'.' || nat_eq c b'-'

unfoldable pub id_matches : Text → Bool
unfolding id_head id_tail all
id_matches [] = false
id_matches (c ∷ cs) = id_head c && all id_tail cs

unfoldable pub valid_kind : Kind → Bool
valid_kind (unknown _) = false
valid_kind sensor = true
valid_kind binary_sensor = true
valid_kind switch = true
valid_kind select = true
valid_kind number_kind = true
valid_kind button = true
valid_kind text_kind = true
valid_kind event = true

abbrev pub is_select : Kind → Bool
is_select select = true
is_select _ = false

-- `name := opt.Name; if name == "" { name = opt.Value }`
unfoldable pub display_name : Choice → Text
display_name o = if is_empty o.name then o.value else o.name

-- the loop of Validate over the options, with the names that it has seen
unfoldable pub check_options : Text → List Text → List Choice → Option Err
unfolding display_name contains
check_options id seen [] = none
check_options id seen (o ∷ os) =
    let rest = check_options id (display_name o ∷ seen) os in
    if is_empty o.value
    then some (empty_option_value id)
    else if contains seen (display_name o)
    then some (duplicate_option_name id (display_name o))
    else rest

unfoldable pub validate : Entity → Option Err
unfolding id_matches valid_kind check_options
validate e =
    if id_matches e.id
    then (if is_empty e.name
        then some (name_required e.id)
        else if valid_kind e.kind
        then (if is_select e.kind && is_empty e.options
            then some (no_options e.id)
            else check_options e.id [] e.options)
        else some (bad_kind e.id))
    else some (bad_entity_id e.id)

-- the loop of OptionNames
unfoldable pub option_names_from : List Text → List Choice → List Text
unfolding display_name contains
option_names_from seen [] = []
option_names_from seen (o ∷ os) =
    let skipped = option_names_from seen os in
    let kept = display_name o ∷ option_names_from (display_name o ∷ seen) os in
    if contains seen (display_name o) then skipped else kept

unfoldable pub option_names : List Choice → List Text
unfolding option_names_from
option_names options = option_names_from [] options

unfoldable pub option_value : List Choice → Text → Option Text
unfolding ◌==◌
option_value [] input = none
option_value (o ∷ os) input =
    if input == o.value || input == o.name then some o.value else option_value os input

unfoldable pub option_name : List Choice → Text → Text
unfolding ◌==◌ display_name
option_name [] value = value
option_name (o ∷ os) value = if o.value == value then display_name o else option_name os value
