-- ===== src/PowerProfile.antt =====
-- internal/plugins/powerprofile_ppd/powerprofile_ppd.go: the select entity of power-profiles-daemon. Texts
-- are lists of bytes here. `lower` is strings.ToLower; what D-Bus answers is an argument. The plugin's
-- mutex makes each operation one step.
pub mod Parsing
pub mod Steady
pub mod Running
use home_pc_agent.Common.{
  ℕ, ◌-◌, Bool, true, false, not, ◌&&◌, ◌||◌, Option, none, some, List, [], ◌∷◌, ◌++◌, map, Text,
  codes, ◌==◌, contains, Dict, lookup, Err, Result, ok, err, ◌>>=◌, string_option_required,
  unknown_option, set_failed, property_missing, bad_signature, no_profiles, service_unavailable,
  service_error, read_failed, connect_session_bus, watch_failed, join_errors, Value, text, is_lower,
  ltb, nat_eq, is_empty, is_none, if◌then◌else◌, or_else,
}
use home_pc_agent.Entity.{Choice, Entity, option_value, option_name, online, unavailable}
use home_pc_agent.Mqtt.Topics.{replace_char}
use home_pc_agent.FanControl.Names.{join_words}
use home_pc_agent.Selects.{sort_choices, select_entity, string_payload}
use home_pc_agent.Core.Router.{Handler}
use home_pc_agent.Core.Scope.{
  World, update_entity, publish_state, set_availability, Script, finish, call, registers_entity,
  subscribes_command, updates_entity, publishes_state, sets_availability, goes,
}
use home_pc_agent.Inhibit.{unless_error}

pub record Service : Type 0 where
  pub name : Text
  pub path : Text
  pub interface_name : Text

abbrev pub services : List Service
services =
    record {
      name = codes "org.freedesktop.UPower.PowerProfiles";
      path = codes "/org/freedesktop/UPower/PowerProfiles";
      interface_name = codes "org.freedesktop.UPower.PowerProfiles";
    }
    ∷ record {
      name = codes "net.hadess.PowerProfiles";
      path = codes "/net/hadess/PowerProfiles";
      interface_name = codes "net.hadess.PowerProfiles";
    }
    ∷ []

abbrev pub placeholder_profiles : List Text
placeholder_profiles = codes "power-saver" ∷ codes "balanced" ∷ []

-- A D-Bus variant: a string, the value of an entry's key otherwise, or the list of the entries.
pub data Variant : Type 0 where
  string_variant : Text → Variant
  other_variant : Text → Variant

pub data Property : Type 0 where
  plain : Variant → Property
  entries : List (Dict Variant) → Property

pub record Snapshot : Type 0 where
  pub profiles : List Text
  pub active : Text

-- `id, ok := value.Value().(string)` of a key that may be missing
abbrev pub string_of : Option Variant → Option Text
string_of (some (string_variant s)) = some s
string_of _ = none

abbrev pub active_of : Option Property → Option Text
active_of (some (plain (string_variant s))) = some s
active_of _ = none

-- the body of the loop of parseProfiles
abbrev pub add_profile : List Text → Option Text → List Text
add_profile profiles none = profiles
add_profile profiles (some id) =
    if is_empty id || contains profiles id then profiles else profiles ++ id ∷ []

unfoldable pub collect : List Text → List (Dict Variant) → List Text
unfolding lookup contains
collect profiles [] = profiles
collect profiles (entry ∷ rest) =
    collect (add_profile profiles (string_of (lookup (codes "Profile") entry))) rest

abbrev pub some_profiles : List Text → Result (List Text)
some_profiles [] = err no_profiles
some_profiles (id ∷ ids) = ok (id ∷ ids)

unfoldable pub parse_profiles : Property → Result (List Text)
unfolding collect
parse_profiles (plain (string_variant s)) = err (bad_signature (codes "s"))
parse_profiles (plain (other_variant signature)) = err (bad_signature signature)
parse_profiles (entries es) = some_profiles (collect [] es)

abbrev pub snapshot_of : List Text → Option Text → Result Snapshot
snapshot_of profiles none = err (property_missing (codes "ActiveProfile"))
snapshot_of profiles (some active) = ok (record { profiles = profiles; active = active })

abbrev pub parse_found : Dict Property → Option Property → Result Snapshot
parse_found props none = err (property_missing (codes "Profiles"))
parse_found props (some value) = parse_profiles value >>= λ profiles.
    snapshot_of profiles (active_of (lookup (codes "ActiveProfile") props))

unfoldable pub parse_snapshot : Dict Property → Result Snapshot
unfolding parse_profiles lookup
parse_snapshot props = parse_found props (lookup (codes "Profiles") props)

-- strings.Split(s, " "), `word` having been read
unfoldable pub split_spaces : Text → Text → List Text
split_spaces word [] = word ∷ []
split_spaces word (c ∷ s) =
    let ended = word ∷ split_spaces [] s in
    let more = split_spaces (word ++ c ∷ []) s in if nat_eq c b' ' then ended else more

-- strings.ToUpper of one byte: a byte that is no ASCII is no rune alone, and becomes U+FFFD
abbrev pub upper_byte : ℕ → Text
upper_byte c =
    if is_lower c then (c - 32) ∷ [] else if ltb c 128 then c ∷ [] else 239 ∷ 191 ∷ 189 ∷ []

abbrev pub capitalized : Text → Text
capitalized [] = []
capitalized (c ∷ word) = upper_byte c ++ word

unfoldable pub friendly_profile_name : Text → Text
unfolding replace_char split_spaces join_words
friendly_profile_name id =
    join_words (map capitalized (split_spaces [] (replace_char b'-' b' ' id)))

-- whether two lists of options are equal, as slices.Equal compares them
unfoldable pub same_options : List Choice → List Choice → Bool
unfolding ◌==◌
same_options [] [] = true
same_options (o ∷ os) (p ∷ ps) = o.value == p.value && o.name == p.name && same_options os ps
same_options _ _ = false

-- what `load` comes to: the first service that answers and its state, or the errors
pub data Loaded : Type 0 where
  answered : Service → Snapshot → Loaded
  unanswered : Option Err → Loaded

abbrev pub load_one : Service → Result Snapshot → (Option Err → Loaded) → Option Err → Loaded
load_one svc (ok snap) next errs = answered svc snap
load_one svc (err e) next errs = next (join_errors errs (some (service_error svc.name e)))

-- `get_all` is the answer of a service to GetAll
unfoldable pub load_from : (Service → Result (Dict Property)) → List Service → Option Err → Loaded
unfolding parse_snapshot
load_from get_all [] errs = unanswered errs
load_from get_all (svc ∷ svcs) errs =
    load_one svc (get_all svc >>= parse_snapshot) (load_from get_all svcs) errs

unfoldable pub load : (Service → Result (Dict Property)) → Loaded
unfolding load_from
load get_all = load_from get_all services none

-- the plugin, whose `service` is nil while no daemon answers
pub record Plugin : Type 0 where
  pub service : Option Service
  pub options : List Choice
  pub active : Text
  pub world : World

abbrev pub entity_id : Text
entity_id = codes "powerprofile.profile"

abbrev pub profile_entity : List Choice → Entity
profile_entity options =
    select_entity entity_id (codes "Power Profile") options (codes "mdi:power-plug")

unfoldable pub set_online : Plugin → Plugin
unfolding set_availability
set_online p = record p { world = (set_availability entity_id online p.world).0 }

unfoldable pub publish_active : Text → Plugin → Plugin
unfolding publish_state option_name
publish_active active p =
    let p' = record p { active = active } in
    if is_empty active then p' else record p' {
      world = (publish_state entity_id (text (option_name p.options active)) p.world).0;
    }

module _ (lower : Text → Text) where
  unfoldable pub profile_options : List Text → List Choice
  unfolding friendly_profile_name sort_choices
  profile_options ids =
      sort_choices lower (map (λ id. record { value = id; name = friendly_profile_name id }) ids)

  -- after UpdateEntity, by its error
  abbrev pub updated : Plugin → World × Option Err → Plugin × Bool
  updated p (w, some e) = (record p { world = w }, false)
  updated p (w, none) = (set_online (record p { world = w }), true)

  unfoldable pub set_profiles : List Text → Plugin → Plugin × Bool
  unfolding profile_options same_options update_entity set_online
  set_profiles profiles p =
      let options = profile_options profiles in
      if same_options options p.options
      then (p, false)
      else updated (record p { options = options }) (update_entity (profile_entity options) p.world)

  abbrev pub online_unless : Plugin × Bool → Plugin
  online_unless (p, true) = p
  online_unless (p, false) = set_online p

  unfoldable pub apply_snapshot : Service → Snapshot → Plugin → Plugin
  unfolding set_profiles publish_active set_online
  apply_snapshot svc snap p =
      publish_active snap.active
        (online_unless (set_profiles snap.profiles (record p { service = some svc })))

  abbrev pub lost : Option Service → Plugin → Plugin
  lost none p = p
  lost (some svc) p = record p {
    service = none;
    world = (set_availability entity_id unavailable p.world).0;
  }

  -- reload, by what `load` comes to
  unfoldable pub apply_loaded : Loaded → Plugin → Plugin
  unfolding apply_snapshot set_availability
  apply_loaded (answered svc snap) p = apply_snapshot svc snap p
  apply_loaded (unanswered errs) p = lost p.service p

  abbrev pub is_from : Text → Text → Option Service → Bool
  is_from path interface_name none = false
  is_from path interface_name (some svc) = svc.path == path && svc.interface_name == interface_name

  abbrev pub with_profiles : Result (List Text) → Plugin → Plugin × Bool
  with_profiles (err e) p = (p, false)
  with_profiles (ok profiles) p = set_profiles profiles p

  abbrev pub changed_profiles : Option Property → Plugin → Plugin × Bool
  changed_profiles none p = (p, false)
  changed_profiles (some value) p = with_profiles (parse_profiles value) p

  abbrev pub restate : Plugin × Bool → Plugin
  restate (p, true) = publish_active p.active p
  restate (p, false) = p

  -- a new active profile, if it is a string and not empty; otherwise the old one is restated after
  -- an update
  abbrev pub changed_active : Option Text → Plugin × Bool → Plugin
  changed_active none (p, updated) = restate (p, updated)
  changed_active (some []) (p, updated) = restate (p, updated)
  changed_active (some (c ∷ active)) (p, updated) = publish_active (c ∷ active) p

  unfoldable pub apply_changes : Text → Text → Dict Property → Plugin → Plugin
  unfolding set_profiles parse_profiles publish_active lookup ◌==◌
  apply_changes path interface_name changed p =
      if is_from path interface_name p.service
      then changed_active (active_of (lookup (codes "ActiveProfile") changed))
          (changed_profiles (lookup (codes "Profiles") changed) p)
      else p
