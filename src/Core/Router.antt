-- ===== src/Core/Router.antt =====
-- internal/core/command_router.go: one handler for each entity id.
pub mod Laws
use home_pc_agent.Common.{
  ℕ, Bool, true, false, Option, none, some, List, [], ◌∷◌, Text, Dict, lookup, insert, delete, Err,
  Result, ok, err, duplicate_handler, no_command_handler, entity_id_required, handler_required,
  command_entity_id_required, Value, is_empty, if◌then◌else◌, nat_eq,
}

pub record Command : Type 0 where
  pub entity_id : Text
  pub payload : Value
  pub raw : Text
  pub transport : Text
  pub received_at : ℕ

-- What a plugin answers to a command; what it does meanwhile is the plugin's.
abbrev pub Handler : Type 0
Handler = Command → Option Err

pub record Router : Type 0 where
  pub handlers : Dict Handler

-- the closure that Subscribe returns, with its `sync.Once`
pub record Unsub : Type 0 where
  pub entity_id : Text
  pub done : Bool

unfoldable pub claim : Option Handler → Text → Handler → Router → Router × Result Unsub
unfolding insert
claim (some _) id h r = (r, err (duplicate_handler id))
claim none id h r =
    (record { handlers = insert id h r.handlers }, ok (record { entity_id = id; done = false }))

-- `none` is a nil handler.
unfoldable pub subscribe : Text → Option Handler → Router → Router × Result Unsub
unfolding claim lookup
subscribe [] handler r = (r, err entity_id_required)
subscribe (c ∷ id) none r = (r, err handler_required)
subscribe (c ∷ id) (some h) r = claim (lookup (c ∷ id) r.handlers) (c ∷ id) h r

unfoldable pub call_unsub : Unsub → Router → Unsub × Router
unfolding delete
call_unsub u r =
    if u.done
    then (u, r)
    else (record u { done = true }, record { handlers = delete u.entity_id r.handlers })

-- the handler's answer, or the error of a command that reaches none
dispatch : Option Handler → Command → Option Err
dispatch none c = some (no_command_handler c.entity_id)
dispatch (some h) c = h c

-- `now` is what time.Now returns.
unfoldable pub route : ℕ → Command → Router → Option Err
unfolding dispatch lookup
route now c r =
    if is_empty c.entity_id
    then some command_entity_id_required
    else dispatch (lookup c.entity_id r.handlers)
        (if nat_eq c.received_at 0 then record c { received_at = now } else c)
