-- ===== src/Tests/Entities.antt =====
-- Entities, their options, and the plugin sections of a configuration.
use home_pc_agent.Common.{
  true, false, none, some, List, [], ◌∷◌, ◌≡◌, ◌↔◌, refl, codes, ◌==◌, contains, all, lookup, Value,
  object, any_object, field, no_fields, boolean, text, Dict,
}
use home_pc_agent.Entity.{Choice, validate, option_value, option_name}
use home_pc_agent.Entity.Validation.{entity_ok, validate-entity_ok}
use home_pc_agent.Entity.Options.{option_value-option_name, values, Unambiguous}
use home_pc_agent.Config.{plugin_enabled, enabled_plugin_ids}
use home_pc_agent.Config.Sections.{
  entry_of, Enables, plugin_enabled_iff, contains-enabled_plugin_ids,
}
use home_pc_agent.Tests.Data.{mode, mode_options}

validate-entity_ok_example : (validate mode ≡ none) ↔ (entity_ok mode ≡ true)
validate-entity_ok_example = validate-entity_ok mode

low_there : contains (values mode_options) (codes "1") ≡ true
unfolding contains ◌==◌
low_there = refl

low-Unambiguous : Unambiguous (codes "1") mode_options
unfolding all option_name ◌==◌
low-Unambiguous = refl

option_value-option_name_example :
    option_value mode_options (option_name mode_options (codes "1")) ≡ some (codes "1")
option_value-option_name_example =
    option_value-option_name mode_options (codes "1") low_there low-Unambiguous

-- an option named "2" hides the option whose value is "2"
abbrev crossed : List Choice
crossed =
    record { value = codes "1"; name = codes "2" }
    ∷ record { value = codes "2"; name = codes "x" }
    ∷ []

crossed_value : option_value crossed (codes "2") ≡ some (codes "1")
unfolding option_value ◌==◌
crossed_value = refl

abbrev sections : Dict Value
sections =
    (
      codes "runner",
      any_object (
          field (codes "enabled") (boolean false)
            (field (codes "enabled") (text (codes "TRUE")) no_fields)),
    )
    ∷ (codes "powerplan", object (field (codes "enabled") (boolean false) no_fields))
    ∷ []

plugin_enabled_iff_example :
    (plugin_enabled (codes "runner") sections ≡ true)
    ↔ Enables (entry_of (codes "enabled") (lookup (codes "runner") sections))
plugin_enabled_iff_example = plugin_enabled_iff (codes "runner") sections

contains-enabled_plugin_ids_example :
    contains (enabled_plugin_ids sections) (codes "powerplan")
    ≡ plugin_enabled (codes "powerplan") sections
contains-enabled_plugin_ids_example = contains-enabled_plugin_ids (codes "powerplan") sections
