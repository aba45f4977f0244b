-- ===== src/Inhibit.antt =====
-- internal/plugins/inhibit_freedesktop: two switches, each holding an inhibitor of a D-Bus service.
-- What the services answer is an argument; the calls on the host are those of the plugin's scope.
pub mod Switching
use home_pc_agent.Common.{
  ℕ, Bool, true, false, Option, none, some, List, [], ◌∷◌, Text, codes, Dict, lookup, insert, Err,
  boolean_required, enable_failed, disable_failed, bad_cookie, release_failed, close_session_bus,
  connect_session_bus, join_errors, Value, boolean, if◌then◌else◌,
}
use home_pc_agent.Entity.{Entity, Availability, unset, online, offline, unavailable, switch}
use home_pc_agent.Core.Router.{Handler}
use home_pc_agent.Core.Scope.{
  World, publish_state, set_availability, Script, finish, call, registers_entity,
  subscribes_command, publishes_state, sets_availability, goes,
}

pub record Inhibitor : Type 0 where
  pub cookie : ℕ
  pub active : Bool
  pub availability : Availability

-- The plugin's map, and its host.
pub record Plugin : Type 0 where
  pub inhibitors : Dict Inhibitor
  pub world : World

-- what the call of Inhibit comes to, with the reading of its cookie
pub data InhibitAnswer : Type 0 where
  call_failed store_failed : Err → InhibitAnswer
  cookie_given : ℕ → InhibitAnswer

abbrev pub same_bool : Bool → Bool → Bool
same_bool true b = b
same_bool false true = false
same_bool false false = true

abbrev pub is_online : Availability → Bool
is_online online = true
is_online _ = false

abbrev pub is_unavailable : Availability → Bool
is_unavailable unavailable = true
is_unavailable _ = false

-- the new item, the host after the calls, and the handler's answer
abbrev pub Handled : Type 0
Handled = Inhibitor × World × Option Err

-- a D-Bus call failed: the item is unavailable from here on
unfoldable pub gone : Text → Err → Inhibitor → World → Handled
unfolding set_availability
gone id e item w =
    (record item { availability = unavailable }, (set_availability id unavailable w).0, some e)

-- the end of handleCommand
unfoldable pub switched : Text → Bool → Inhibitor → World → Handled
unfolding set_availability publish_state
switched id enabled item w =
    let w' = (set_availability id online w).0 in
    let (w'', error) = publish_state id (boolean enabled) w' in
    (record item { availability = online }, w'', error)

unfoldable pub enable : Text → InhibitAnswer → Inhibitor → World → Handled
unfolding gone switched
enable id (call_failed e) item w = gone id (enable_failed id e) item w
enable id (store_failed e) item w = gone id (bad_cookie id e) item w
enable id (cookie_given c) item w = switched id true (record item { cookie = c; active = true }) w

unfoldable pub disable : Text → Option Err → Inhibitor → World → Handled
unfolding gone switched
disable id (some e) item w = gone id (disable_failed id e) item w
disable id none item w = switched id false (record item { active = false }) w

abbrev pub switch_to : Text → Bool → InhibitAnswer → Option Err → Inhibitor → World → Handled
switch_to id true on off item w = enable id on item w
switch_to id false on off item w = disable id off item w

abbrev pub republish : Text → Bool → Inhibitor → World → Handled
republish id enabled item w =
    let (w', error) = publish_state id (boolean enabled) w in (item, w', error)

-- handleCommand, on the item of the id
unfoldable pub handle_item : Text → Value → InhibitAnswer → Option Err → Inhibitor → World → Handled
unfolding enable disable publish_state
handle_item id (boolean enabled) on off item w =
    if same_bool item.active enabled
    then republish id enabled item w
    else switch_to id enabled on off item w
handle_item id _ on off item w = (item, w, some (boolean_required id))

abbrev pub put : Text → Plugin → Handled → Plugin × Option Err
put id p (item, w, error) = (record { inhibitors = insert id item p.inhibitors; world = w }, error)

abbrev handle_found :
    Text
    → Value
    → InhibitAnswer
    → Option Err
    → Plugin
    → Option Inhibitor
    → Option (Plugin × Option Err)
handle_found id payload on off p none = none
handle_found id payload on off p (some item) =
    some (put id p (handle_item id payload on off item p.world))

-- The handler; `none` where a missing item would be dereferenced.
unfoldable pub handle_command :
    Text → Value → InhibitAnswer → Option Err → Plugin → Option (Plugin × Option Err)
unfolding handle_item insert lookup
handle_command id payload on off p = handle_found id payload on off p (lookup id p.inhibitors)

-- the availability of an item that a refresh sets anew
unfoldable pub lose : Text → Inhibitor → World → Inhibitor × World
unfolding set_availability publish_state
lose id item w =
    let w' = (set_availability id unavailable w).0 in
    if item.active
    then (
      record { cookie = 0; active = false; availability = unavailable },
      (publish_state id (boolean false) w').0,
    )
    else (record item { availability = unavailable }, w')

-- the body of the loop of refreshAvailability; `true` is a Ping that is answered
unfoldable pub refresh_item : Text → Bool → Inhibitor → World → Inhibitor × World
unfolding lose set_availability
refresh_item id true item w =
    if is_online item.availability
    then (item, w)
    else (record item { availability = online }, (set_availability id online w).0)
refresh_item id false item w =
    if is_unavailable item.availability then (item, w) else lose id item w

unfoldable pub refresh_availability :
    (Text → Bool) → Dict Inhibitor → World → Dict Inhibitor × World
unfolding refresh_item
refresh_availability pings [] w = ([], w)
refresh_availability pings ((id, item) ∷ items) w =
    let (item', w') = refresh_item id (pings id) item w in
    let (items', w'') = refresh_availability pings items w' in ((id, item') ∷ items', w'')

abbrev pub release_error : Text → Option Err → Option Err
release_error id none = none
release_error id (some e) = some (release_failed id e)

-- the loop of Stop
unfoldable pub release_all : (Text → Option Err) → Dict Inhibitor → Dict Inhibitor × Option Err
release_all releases [] = ([], none)
release_all releases ((id, item) ∷ items) =
    let (items', later) = release_all releases items in
    (
      (id, record item { active = false }) ∷ items',
      (if item.active then join_errors (release_error id (releases id)) later else later),
    )

abbrev pub close_error : Option Err → Option Err
close_error none = none
close_error (some e) = some (close_session_bus e)

unfoldable pub stop_inhibitors : (Text → Option Err) → Option Err → Plugin → Plugin × Option Err
unfolding release_all
stop_inhibitors releases closing p =
    let (items, error) = release_all releases p.inhibitors in
    (record p { inhibitors = items }, join_errors error (close_error closing))

-- What Start does with the host: a plugin's script, each call continued if it returns no error.
abbrev pub switch_entity : Text → Text → Text → Entity
switch_entity id name icon = record {
  id = id;
  name = name;
  kind = switch;
  options = [];
  icon = icon;
  device_class = [];
  state_class = [];
  unit = [];
  category = [];
}

abbrev pub inhibitor_entities : List Entity
inhibitor_entities =
    switch_entity (codes "session.lock_inhibited") (codes "Lock Inhibited") (codes "mdi:lock-clock")
    ∷ switch_entity (codes "display.dim_inhibited") (codes "Screen Dim Inhibited")
        (codes "mdi:brightness-6")
    ∷ []

abbrev pub unless_error : Script → Option Err → Script
unless_error next none = next
unless_error next (some e) = finish (some e)

-- the loop over the items; `handler` is the closure that calls handleCommand
unfoldable pub offer_all : (Text → Handler) → List Entity → Script → Script
offer_all handler [] next = next
offer_all handler (e ∷ es) next =
    let rest = offer_all handler es next in
    call (registers_entity e) (
      unless_error (
        call (subscribes_command e.id (some (handler e.id)))
          (unless_error (call (publishes_state e.id (boolean false)) (unless_error rest)))))

abbrev pub ping_result : Bool → Availability
ping_result true = online
ping_result false = unavailable

-- the first refreshAvailability, which finds no availability set and no item active
unfoldable pub first_refresh : (Text → Bool) → List Entity → Script → Script
first_refresh pings [] next = next
first_refresh pings (e ∷ es) next =
    let rest = first_refresh pings es next in
    call (sets_availability e.id (ping_result (pings e.id))) (λ _. rest)

-- `connected` is the error of the session bus
unfoldable pub start_inhibitors : Option Err → (Text → Handler) → (Text → Bool) → Script
unfolding offer_all first_refresh
start_inhibitors (some e) handler pings = finish (some (connect_session_bus e))
start_inhibitors none handler pings = offer_all handler inhibitor_entities (
    first_refresh pings inhibitor_entities
      (call (goes (codes "inhibitor-availability") true) (λ _. finish none)))
