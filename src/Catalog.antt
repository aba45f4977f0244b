-- ===== src/Catalog.antt =====
-- internal/plugins/catalog/catalog.go: the check of the plugins' sections of a configuration, with
-- the factories of internal/core/plugin/plugin.go.
pub mod Owners
pub mod Conflicts
use home_pc_agent.Common.{
  Bool, true, false, Option, none, some, List, [], ◌∷◌, ◌++◌, Text, Dict, lookup, insert, keys,
  sort, contains, Err, Result, ok, err, unknown_plugin, plugin_error, unresolved_entities,
  unsupported_plugin, entity_taken, Value, Fields, if◌then◌else◌, is_empty,
}
use home_pc_agent.Config.{plugin_raw, plugin_enabled}

-- A factory with its descriptor. `build_error` is the error of New, `configured_ids` and
-- `validate_configured` are none where the functions are nil.
pub record CatalogFactory : Type 0 where
  pub id : Text
  pub operating_systems : List Text
  pub entity_ids : List Text
  pub build_error : Option Fields → Option Err
  pub configured_ids : Option (Option Fields → Result (List Text))
  pub validate_configured : Option (Option Fields → Option Err)

-- Factory.EntityIDs
unfoldable pub resolve_ids : CatalogFactory → Option Fields → Result (List Text)
resolve_ids f raw = elim f.configured_ids [ none ↦ ok f.entity_ids | some ids ↦ ids raw ]

-- Factory.Validate
unfoldable pub validate_factory : CatalogFactory → Option Fields → Option Err
validate_factory f raw = elim f.validate_configured [ none ↦ none | some check ↦ check raw ]

unfoldable pub supported_on : CatalogFactory → Text → Bool
unfolding contains
supported_on f goos =
    if is_empty f.operating_systems then true else contains f.operating_systems goos

-- the map byID
unfoldable pub by_id : List CatalogFactory → Dict CatalogFactory → Dict CatalogFactory
unfolding insert
by_id [] m = m
by_id (f ∷ fs) m = by_id fs (insert f.id f m)

-- The errors of a part of the loop, and the owners of entity ids after it.
abbrev pub Checked : Type 0
Checked = List Err × Dict Text

abbrev pub with_error : Err → Checked → Checked
with_error e (es, owners) = (e ∷ es, owners)

-- one round of the inner loop, with the rest of it
abbrev pub claim_one : Text → Text → Option Text → (Dict Text → Checked) → Dict Text → Checked
claim_one id x (some owner) rest owners = with_error (entity_taken id x owner) (rest owners)
claim_one id x none rest owners = rest (insert x id owners)

unfoldable pub claim_ids : Text → List Text → Dict Text → Checked
unfolding lookup insert
claim_ids id [] owners = ([], owners)
claim_ids id (x ∷ xs) owners =
    claim_one id x (lookup x owners) (λ later. claim_ids id xs later) owners

abbrev pub refused : Err → Dict Text → Checked
refused e owners = (e ∷ [], owners)

abbrev pub after_ids : Text → Result (List Text) → Dict Text → Checked
after_ids id (err e) owners = refused (unresolved_entities id e) owners
after_ids id (ok xs) owners = claim_ids id xs owners

abbrev pub after_validate : Text → Option Err → Result (List Text) → Dict Text → Checked
after_validate id (some e) ids owners = refused (plugin_error id e) owners
after_validate id none ids owners = after_ids id ids owners

abbrev pub after_build :
    Text → Text → Bool → Bool → Option Err → Option Err → Result (List Text) → Dict Text → Checked
after_build goos id enabled supported (some e) invalid ids owners =
    refused (plugin_error id e) owners
after_build goos id false supported none invalid ids owners = ([], owners)
after_build goos id true false none invalid ids owners = refused (unsupported_plugin id goos) owners
after_build goos id true true none invalid ids owners = after_validate id invalid ids owners

unfoldable pub check_found : Text → Text → Option CatalogFactory → Dict Value → Dict Text → Checked
unfolding claim_ids plugin_raw plugin_enabled supported_on validate_factory resolve_ids
check_found goos id none sections owners = refused (unknown_plugin id) owners
check_found goos id (some f) sections owners =
    let raw = plugin_raw id sections in
    after_build goos id (plugin_enabled id sections) (supported_on f goos) (f.build_error raw)
      (validate_factory f raw) (resolve_ids f raw) owners

abbrev pub joined : Checked → (Dict Text → Checked) → Checked
joined (es, owners) rest = let (fs, later) = rest owners in (es ++ fs, later)

-- the loop over the sorted ids
unfoldable pub check_all : Text → Dict CatalogFactory → Dict Value → List Text → Dict Text → Checked
unfolding check_found lookup
check_all goos factories sections [] owners = ([], owners)
check_all goos factories sections (id ∷ ids) owners =
    joined (check_found goos id (lookup id factories) sections owners)
      (λ later. check_all goos factories sections ids later)

unfoldable pub validate_plugins : Text → List CatalogFactory → Dict Value → List Err
unfolding check_all by_id sort keys
validate_plugins goos builtin sections =
    (check_all goos (by_id builtin []) sections (sort (keys sections)) []).0
