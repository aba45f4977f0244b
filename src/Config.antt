-- ===== src/Config.antt =====
-- internal/config/config.go: the loaded configuration and its plugin sections.
pub mod Sections
use home_pc_agent.Common.{
  ℕ, ◌+◌, Bool, true, false, not, ◌&&◌, ◌||◌, Option, none, some, List, [], ◌∷◌, map, Text, codes,
  ◌==◌, Dict, lookup, Value, null, boolean, text, number, opaque_value, array, object, Items,
  no_items, item, Fields, no_fields, field, any_object, is_some, get_field, all, is_empty, is_lower,
  is_upper, is_digit, nat_eq, if◌then◌else◌, is_none, sort, insert_sorted, text_lt,
}

pub record MqttConfig : Type 0 where
  pub enabled : Bool
  pub broker : Text
  pub client_id : Text
  pub username : Text
  pub password : Text
  pub topic_prefix : Text
  pub discovery_base : Text
  pub connect_timeout : ℕ

pub record Config : Type 0 where
  pub agent_id : Text
  pub agent_name : Text
  pub data_dir : Text
  pub mqtt : MqttConfig
  pub plugins : Dict Value

-- normalizeMap; a value of any other type stays as it is.
unfoldable mutual
  pub normalize : Value → Value
  normalize null = null
  normalize (boolean b) = boolean b
  normalize (text t) = text t
  normalize (number n) = number n
  normalize (opaque_value t) = opaque_value t
  normalize (array xs) = array (normalize_items xs)
  normalize (object fs) = object (normalize_fields fs)
  normalize (any_object fs) = object (normalize_entries fs)

  pub normalize_items : Items → Items
  normalize_items no_items = no_items
  normalize_items (item v xs) = item (normalize v) (normalize_items xs)

  pub normalize_fields : Fields → Fields
  normalize_fields no_fields = no_fields
  normalize_fields (field k v fs) = field k (normalize v) (normalize_fields fs)

  -- the loop over a map[any]any: of the entries with one printed key, the last is kept
  pub normalize_entries : Fields → Fields
  normalize_entries no_fields = no_fields
  normalize_entries (field k v fs) =
      let rest = normalize_entries fs in
      if is_some (get_field k rest) then rest else field k (normalize v) rest

-- out, ok := value.(map[string]any)
abbrev pub as_object : Value → Option Fields
as_object (object fs) = some fs
as_object _ = none

abbrev pub raw_section : Option Value → Option Fields
raw_section none = none
raw_section (some v) = as_object (normalize v)

-- PluginRaw; `none` is the nil map.
unfoldable pub plugin_raw : Text → Dict Value → Option Fields
plugin_raw id plugins = raw_section (lookup id plugins)

-- strings.EqualFold with "true": none of its letters has a fold outside ASCII.
unfoldable pub lower_ascii : ℕ → ℕ
lower_ascii c = if is_upper c then c + 32 else c

abbrev pub folds_to_true : Text → Bool
folds_to_true t = map lower_ascii t == codes "true"

abbrev pub enabled_value : Option Value → Bool
enabled_value none = false
enabled_value (some (boolean b)) = b
enabled_value (some (text t)) = folds_to_true t
enabled_value (some _) = false

abbrev pub enabled_section : Option Fields → Bool
enabled_section none = false
enabled_section (some fs) = enabled_value (get_field (codes "enabled") fs)

unfoldable pub plugin_enabled : Text → Dict Value → Bool
unfolding plugin_raw
plugin_enabled id plugins = enabled_section (plugin_raw id plugins)

-- EnabledPluginIDs
unfoldable pub enabled_ids_from : Dict Value → Dict Value → List Text
enabled_ids_from all_plugins [] = []
enabled_ids_from all_plugins ((id, _) ∷ rest) =
    let ids = enabled_ids_from all_plugins rest in
    if plugin_enabled id all_plugins then id ∷ ids else ids

unfoldable pub enabled_plugin_ids : Dict Value → List Text
unfolding enabled_ids_from sort
enabled_plugin_ids plugins = sort (enabled_ids_from plugins plugins)
