-- ===== src/Core/Scope.antt =====
-- internal/core/plugin_scope.go: what one plugin may do with the registry and the router, and what
-- is undone when its scope closes. The mutex makes each call one step.
pub mod Releases
pub mod Ownership
pub mod Held
pub mod Open
use home_pc_agent.Common.{
  Bool, true, false, Option, none, some, List, [], ◌∷◌, ◌++◌, Text, Dict, lookup, insert, Err,
  Result, ok, err, scope_closed, unowned_entity, cleanup_timed_out, canceled, task_panicked, Value,
  contains, if◌then◌else◌,
}
use home_pc_agent.Entity.{Entity, Availability}
use home_pc_agent.Events.{Event, state_changed, availability_changed, publish}
use home_pc_agent.Core.Registry.{Registry, register, update, remove}
use home_pc_agent.Core.Router.{Router, Handler, Unsub, subscribe, call_unsub}

pub record Scope : Type 0 where
  pub plugin_id : Text
  pub closed : Bool
  pub entity_ids : List Text
  pub unsubs : Dict (List Unsub)
  pub tasks : List Text
  pub context_canceled : Bool

-- The scope beside the registry and the router that it shares with all others.
pub record World : Type 0 where
  pub registry : Registry
  pub router : Router
  pub scope : Scope

unfoldable pub new_scope : Text → Scope
new_scope id = record {
  plugin_id = id;
  closed = false;
  entity_ids = [];
  unsubs = [];
  tasks = [];
  context_canceled = false;
}

-- s.entityIDs[id] = struct{}{}
unfoldable pub add_id : Text → List Text → List Text
unfolding contains
add_id id ids = if contains ids id then ids else id ∷ ids

owned_id : Text → World → Option Err → World
unfolding add_id
owned_id id w none = record w {
  scope = record w.scope { entity_ids = add_id id w.scope.entity_ids };
}
owned_id id w (some _) = w

unfoldable pub register_entity : Entity → World → World × Option Err
unfolding register owned_id
register_entity e w =
    if w.scope.closed
    then (w, some (scope_closed w.scope.plugin_id))
    else (let (r, error) = register e w.registry in
        (owned_id e.id (record w { registry = r }) error, error))

-- the guard of the calls on an entity: the scope is open and owns it
unfoldable pub guarded : Text → World → World × Option Err → World × Option Err
unfolding contains
guarded id w run =
    if w.scope.closed
    then (w, some (scope_closed w.scope.plugin_id))
    else if contains w.scope.entity_ids id
    then run
    else (w, some (unowned_entity w.scope.plugin_id id))

unfoldable pub update_entity : Entity → World → World × Option Err
unfolding guarded update
update_entity e w =
    guarded e.id w (let (r, error) = update e w.registry in (record w { registry = r }, error))

announce : Event → World → World
unfolding publish
announce ev w = record w { registry = record w.registry { bus = publish ev w.registry.bus } }

unfoldable pub publish_state : Text → Value → World → World × Option Err
unfolding guarded announce
publish_state id state w = guarded id w (
  announce
      (record {
        event_type = state_changed;
        entity_id = id;
        entity = none;
        state = some state;
        availability = none;
        time = 0;
      })
      w,
  none,
)

unfoldable pub set_availability : Text → Availability → World → World × Option Err
unfolding guarded announce
set_availability id availability w = guarded id w (
  announce
      (record {
        event_type = availability_changed;
        entity_id = id;
        entity = none;
        state = none;
        availability = some availability;
        time = 0;
      })
      w,
  none,
)

-- a missing key reads as the nil slice
abbrev pub unsubs_of : Option (List Unsub) → List Unsub
unsubs_of none = []
unsubs_of (some us) = us

-- s.unsubs[id] = append(s.unsubs[id], unsub)
unfoldable pub append_unsub : Text → Unsub → Dict (List Unsub) → Dict (List Unsub)
unfolding insert lookup
append_unsub id u m = insert id (unsubs_of (lookup id m) ++ u ∷ []) m

subscribed : Text → World → Router → Result Unsub → World × Option Err
unfolding append_unsub
subscribed id w r (err e) = (record w { router = r }, some e)
subscribed id w r (ok u) = (
  record w { router = r; scope = record w.scope { unsubs = append_unsub id u w.scope.unsubs } },
  none,
)

unfoldable pub subscribe_command : Text → Option Handler → World → World × Option Err
unfolding guarded subscribe subscribed
subscribe_command id handler w =
    guarded id w (let (r, result) = subscribe id handler w.router in subscribed id w r result)

-- Go starts a task; `false` is a nil function.
unfoldable pub go : Text → Bool → World → World
go name false w = w
go name true w =
    if w.scope.closed
    then w
    else record w { scope = record w.scope { tasks = name ∷ w.scope.tasks } }

-- How a task's function ended, and what the errgroup is told.
pub data TaskEnd : Type 0 where
  returned : Option Err → TaskEnd
  panicked : TaskEnd

unfoldable pub task_result : Text → TaskEnd → Option Err
task_result name (returned (some canceled)) = none
task_result name (returned error) = error
task_result name panicked = some (task_panicked name)

-- How the wait for the tasks ends.
pub data WaitEnd : Type 0 where
  finished : Option Err → WaitEnd
  context_done : Err → WaitEnd
  timed_out : WaitEnd

unfoldable pub wait_result : Text → WaitEnd → Option Err
wait_result id (finished error) = error
wait_result id (context_done e) = some e
wait_result id timed_out = some (cleanup_timed_out id)

unfoldable pub flatten_unsubs : Dict (List Unsub) → List Unsub
flatten_unsubs [] = []
flatten_unsubs ((_, us) ∷ m) = us ++ flatten_unsubs m

unfoldable pub call_unsubs : List Unsub → Router → Router
unfolding call_unsub
call_unsubs [] r = r
call_unsubs (u ∷ us) r = call_unsubs us (call_unsub u r).1

-- An entity that is no longer registered is only logged.
unfoldable pub remove_all : List Text → Registry → Registry
unfolding remove
remove_all [] r = r
remove_all (id ∷ ids) r = remove_all ids (remove id r).0

unfoldable pub close_scope : WaitEnd → World → World × Option Err
unfolding flatten_unsubs call_unsubs remove_all wait_result
close_scope end w = if w.scope.closed then (w, none) else (
  record {
    registry = remove_all w.scope.entity_ids w.registry;
    router = call_unsubs (flatten_unsubs w.scope.unsubs) w.router;
    scope = record w.scope { closed = true; entity_ids = []; unsubs = []; context_canceled = true };
  },
  wait_result w.scope.plugin_id end,
)

-- plugin.PluginHost: the calls that a plugin can make.
pub data HostCall : Type 0 where
  registers_entity updates_entity : Entity → HostCall
  publishes_state : Text → Value → HostCall
  sets_availability : Text → Availability → HostCall
  subscribes_command : Text → Option Handler → HostCall
  goes : Text → Bool → HostCall

unfoldable pub host_call : HostCall → World → World × Option Err
host_call (registers_entity e) w = register_entity e w
host_call (updates_entity e) w = update_entity e w
host_call (publishes_state id state) w = publish_state id state w
host_call (sets_availability id availability) w = set_availability id availability w
host_call (subscribes_command id handler) w = subscribe_command id handler w
host_call (goes name fn) w = (go name fn w, none)

-- A plugin's code, as the host sees it: calls, each continued by its result, and an end.
pub data Script : Type 0 where
  finish : Option Err → Script
  call : HostCall → (Option Err → Script) → Script

unfoldable pub run_script : Script → World → World × Option Err
run_script (finish error) w = (w, error)
run_script (call c k) w = let (w', error) = host_call c w in run_script (k error) w'
