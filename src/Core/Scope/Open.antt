-- ===== src/Core/Scope/Open.antt =====
-- Only Close closes a scope.
use home_pc_agent.Common.{true, false, Option, Text, Err, Result, ok, err, ◌≡◌, refl, arith, ◌∙◌}
use home_pc_agent.Core.Router.{Router, Unsub, subscribe}
use home_pc_agent.Core.Scope.{
  World, HostCall, goes, registers_entity, updates_entity, publishes_state, sets_availability,
  subscribes_command, host_call, guarded, register_entity, update_entity, publish_state,
  set_availability, subscribe_command, go, owned_id, announce, subscribed, Script, finish, call,
  run_script,
}

closed-guarded :
    (id : Text) (w : World) (run : World × Option Err)
    → run.0.scope.closed ≡ w.scope.closed
    → (guarded id w run).0.scope.closed ≡ w.scope.closed
unfolding guarded
closed-guarded id w run h = ground arith

closed-subscribed :
    (id : Text) (w : World) (r : Router) (res : Result Unsub)
    → (subscribed id w r res).0.scope.closed ≡ w.scope.closed
unfolding subscribed
closed-subscribed id w r (ok u) = refl
closed-subscribed id w r (err e) = refl

closed-host_call : (c : HostCall) (w : World) → (host_call c w).0.scope.closed ≡ w.scope.closed
unfolding host_call register_entity owned_id update_entity publish_state set_availability announce
    subscribe_command go
closed-host_call (registers_entity e) w = ground arith
closed-host_call (updates_entity e) w = closed-guarded e.id w _ refl
closed-host_call (publishes_state id v) w = closed-guarded id w _ refl
closed-host_call (sets_availability id a) w = closed-guarded id w _ refl
closed-host_call (subscribes_command id f) w =
    closed-guarded id w _
      (closed-subscribed id w (subscribe id f w.router).0 (subscribe id f w.router).1)
closed-host_call (goes name false) w = refl
closed-host_call (goes name true) w = ground arith

pub closed-run_script : (s : Script) (w : World) → (run_script s w).0.scope.closed ≡ w.scope.closed
unfolding run_script
closed-run_script (finish e) w = refl
closed-run_script (call c f) w =
    let (w', error) = host_call c w in closed-run_script (f error) w' ∙ closed-host_call c w
