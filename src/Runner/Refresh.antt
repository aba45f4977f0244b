-- ===== src/Runner/Refresh.antt =====
-- internal/plugins/runner/refresh.go and options_getter.go: reading states and options again.
use home_pc_agent.Common.{
  Bool, false, ◌&&◌, ◌||◌, Option, none, some, List, [], ◌∷◌, Text, codes, ◌==◌, contains, Dict,
  Err, Result, ok, err, trim_space, is_empty, if◌then◌else◌,
}
use home_pc_agent.Entity.{Entity}
use home_pc_agent.Mqtt.Topics.{to_lower}
use home_pc_agent.Core.Scope.{World, publish_state, update_entity}
use home_pc_agent.Runner.Settings.{Param, OptionSettings, Action, has_options_getter}
use home_pc_agent.Runner.Options.{build_entity, options_equal}
use home_pc_agent.Runner.States.{Runtime, options_of, Library, format_ha_state, state_only}

module _ (l : Library) where
  -- effectiveRefreshTags of refresh.go
  abbrev pub effective_refresh_tags : Action → List Text
  effective_refresh_tags a = if is_empty a.refresh_tags then a.tags else a.refresh_tags

  -- refreshGetterState
  unfoldable pub refresh_getter_state : Runtime → Result Param → World → World × Option Err
  unfolding format_ha_state publish_state
  refresh_getter_state r (err e) w = (w, some e)
  refresh_getter_state r (ok value) w =
      publish_state r.entity_id (state_only l r.action.kind value) w

  abbrev pub update_with : Runtime → Result Entity → World → Runtime × World × Option Err
  update_with r (err e) w = (r, w, some e)
  update_with r (ok e) w = let (w', error) = update_entity e w in (r, w', error)

  -- refreshDiscoveredOptions, by what runOptionsGetter returns
  unfoldable pub refresh_discovered_options :
      Runtime → Result (Dict OptionSettings) → World → Runtime × World × Option Err
  unfolding options_equal build_entity update_entity has_options_getter
  refresh_discovered_options r found w =
      if has_options_getter r.action
      then elim found [
        | err e ↦ (r, w, some e)
        | ok options ↦
            if options_equal r.discovered options
            then (r, w, none)
            else (let r' = record r { discovered = options } in
                update_with r' (build_entity r'.entity_id r'.action (options_of r')) w)
      ]
      else (r, w, none)

  -- normalizedTagSet, as a list
  abbrev pub normalized_tag : Text → Text
  normalized_tag tag = to_lower l.lower_other (trim_space tag)

  unfoldable pub normalized_tag_set : List Text → List Text
  unfolding to_lower trim_space
  normalized_tag_set [] = []
  normalized_tag_set (tag ∷ tags) =
      let rest = normalized_tag_set tags in
      if is_empty (normalized_tag tag) then rest else normalized_tag tag ∷ rest

  unfoldable pub action_matches_tag_set : List Text → List Text → Bool
  unfolding contains to_lower trim_space
  action_matches_tag_set [] set = false
  action_matches_tag_set (tag ∷ tags) set =
      contains set (normalized_tag tag) || action_matches_tag_set tags set

  -- the targets of refreshByTags: those whose options, and those whose states are read again
  unfoldable pub option_targets : List Text → Dict Runtime → List Text
  unfolding action_matches_tag_set has_options_getter
  option_targets set [] = []
  option_targets set ((id, r) ∷ later) =
      let rest = option_targets set later in
      if action_matches_tag_set r.action.tags set && has_options_getter r.action
      then id ∷ rest
      else rest

  unfoldable pub state_targets : List Text → Dict Runtime → List Text
  unfolding action_matches_tag_set ◌==◌
  state_targets set [] = []
  state_targets set ((id, r) ∷ later) =
      let rest = state_targets set later in
      if action_matches_tag_set r.action.tags set && r.action.state.source == codes "getter"
      then id ∷ rest
      else rest
