-- ===== src/Tests/Sections.antt =====
-- Two plugins of a catalog, both enabled.
use home_pc_agent.Common.{
  true, none, some, List, [], ◌∷◌, Text, codes, Dict, lookup, insert, keys, sort, insert_sorted,
  text_lt, contains, has, ok, Value, boolean, object, field, no_fields, entity_taken, get_field,
  ◌==◌, ◌≡◌, ◌≢◌, false, arith, refl,
}
use home_pc_agent.Config.{plugin_raw, plugin_enabled, normalize, normalize_fields}
use home_pc_agent.Catalog.{
  CatalogFactory, resolve_ids, validate_factory, supported_on, by_id, claim_ids, check_found,
  check_all, validate_plugins,
}
use home_pc_agent.Catalog.Conflicts.{validate_plugins_exclusive}

abbrev factory : Text → List Text → CatalogFactory
factory id ids = record {
  id = id;
  operating_systems = codes "linux" ∷ [];
  entity_ids = ids;
  build_error = λ raw. none;
  configured_ids = none;
  validate_configured = none;
}

abbrev lamps : CatalogFactory
lamps = factory (codes "lamps") (codes "a.lamp" ∷ [])

abbrev modes : CatalogFactory
modes = factory (codes "modes") (codes "b.mode" ∷ [])

abbrev builtin : List CatalogFactory
builtin = lamps ∷ modes ∷ []

abbrev enabled : Value
enabled = object (field (codes "enabled") (boolean true) no_fields)

abbrev sections : Dict Value
sections = (codes "modes", enabled) ∷ (codes "lamps", enabled) ∷ []

no_errors : validate_plugins (codes "linux") builtin sections ≡ []
unfolding validate_plugins check_all check_found claim_ids by_id plugin_raw plugin_enabled normalize
    normalize_fields supported_on validate_factory resolve_ids lookup insert keys sort insert_sorted
    text_lt contains get_field ◌==◌
no_errors = refl

lamps_there : has (codes "lamps") sections ≡ true
unfolding lookup ◌==◌
lamps_there = refl

lamps_enabled : plugin_enabled (codes "lamps") sections ≡ true
unfolding plugin_enabled plugin_raw normalize normalize_fields get_field lookup ◌==◌
lamps_enabled = refl

lamps_found : lookup (codes "lamps") (by_id builtin []) ≡ some lamps
unfolding lookup by_id insert ◌==◌
lamps_found = refl

lamps_ids : resolve_ids lamps (plugin_raw (codes "lamps") sections) ≡ ok (codes "a.lamp" ∷ [])
unfolding resolve_ids
lamps_ids = refl

lamp_among : contains (codes "a.lamp" ∷ []) (codes "a.lamp") ≡ true
unfolding contains ◌==◌
lamp_among = refl

modes_there : has (codes "modes") sections ≡ true
unfolding lookup ◌==◌
modes_there = refl

modes_enabled : plugin_enabled (codes "modes") sections ≡ true
unfolding plugin_enabled plugin_raw normalize normalize_fields get_field lookup ◌==◌
modes_enabled = refl

modes_found : lookup (codes "modes") (by_id builtin []) ≡ some modes
unfolding lookup by_id insert ◌==◌
modes_found = refl

modes_ids : resolve_ids modes (plugin_raw (codes "modes") sections) ≡ ok (codes "b.mode" ∷ [])
unfolding resolve_ids
modes_ids = refl

different : codes "lamps" ≢ codes "modes"
different h = absurd (ground (arith, h))

validate_plugins_exclusive_example : contains (codes "b.mode" ∷ []) (codes "a.lamp") ≡ false
validate_plugins_exclusive_example =
    validate_plugins_exclusive (codes "linux") builtin sections (codes "lamps") (codes "modes")
      lamps modes (codes "a.lamp" ∷ []) (codes "b.mode" ∷ []) (codes "a.lamp") no_errors
      (lamps_there, lamps_enabled) (modes_there, modes_enabled) lamps_found modes_found lamps_ids
      modes_ids different lamp_among

-- With the same id in both factories the second section, by name, is refused.
abbrev crossing : List CatalogFactory
crossing = lamps ∷ factory (codes "modes") (codes "a.lamp" ∷ []) ∷ []

taken :
    validate_plugins (codes "linux") crossing sections
    ≡ entity_taken (codes "modes") (codes "a.lamp") (codes "lamps") ∷ []
unfolding validate_plugins check_all check_found claim_ids by_id plugin_raw plugin_enabled normalize
    normalize_fields supported_on validate_factory resolve_ids lookup insert keys sort insert_sorted
    text_lt contains get_field ◌==◌
taken = refl
