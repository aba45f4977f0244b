-- ===== src/PowerProfile/Running/Commands.antt =====
-- What a command to the power profile's entity does, and what the watcher keeps.
use home_pc_agent.Common.{
  Bool, true, false, ◌&&◌, Option, none, some, Text, contains, Err, Result, ok, err, Value, is_none,
  ◌≡◌, refl, ap, ◌∙◌, arith,
}
use home_pc_agent.Entity.{option_value}
use home_pc_agent.Entity.Options.{values}
use home_pc_agent.Selects.{string_payload}
use home_pc_agent.Selects.Sorting.{option_value-contains}
use home_pc_agent.PowerProfile.{Service, Plugin, publish_active}
use home_pc_agent.PowerProfile.Running.{
  choose, chosen_id, chosen_of, chosen_payload, is_same, publish_read, command_error,
  finish_command, handle_command,
}

abbrev pub is_ok : Result Text → Bool
is_ok (err e) = false
is_ok (ok value) = true

module _ (lower : Text → Text) where
  command_error-none :
      (id : Text) (set_error : Option Err) (read : Result Text)
      → is_none (command_error lower id set_error read) ≡ (is_none set_error && is_ok read)
  command_error-none id (some e) read = refl
  command_error-none id none (err e) = refl
  command_error-none id none (ok active) = refl

  -- the service in use, and the value of an option
  abbrev pub Chosen : Service → Text → Plugin → Type 0
  Chosen svc id p = (p.service ≡ some svc) × (contains (values p.options) id ≡ true)

  chosen_id-Chosen :
      (shown : Text) (current svc : Service) (id : Text) (p : Plugin) (found : Option Text)
      → p.service ≡ some current
      → option_value p.options shown ≡ found
      → chosen_id lower shown current found ≡ ok (svc, id)
      → Chosen svc id p
  chosen_id-Chosen shown current svc id p none s f h = absurd (ground (arith, h))
  chosen_id-Chosen shown current svc id p (some v) s f h =
      let pair : (current, v) ≡ (svc, id) = cc h in
      (
        s ∙ ap (λ (r : Service × Text). some r.0) pair,
        option_value-contains p.options shown id (f ∙ ap (λ (r : Service × Text). some r.1) pair),
      )

  chosen_of-Chosen :
      (shown : Text) (current : Option Service) (svc : Service) (id : Text) (p : Plugin)
      → p.service ≡ current
      → chosen_of lower shown p.options current ≡ ok (svc, id)
      → Chosen svc id p
  chosen_of-Chosen shown none svc id p s h = absurd (ground (arith, h))
  chosen_of-Chosen shown (some current) svc id p s h =
      chosen_id-Chosen shown current svc id p (option_value p.options shown) s refl h

  chosen_payload-Chosen :
      (payload : Option Text) (svc : Service) (id : Text) (p : Plugin)
      → chosen_payload lower payload p ≡ ok (svc, id)
      → Chosen svc id p
  chosen_payload-Chosen none svc id p h = absurd (ground (arith, h))
  chosen_payload-Chosen (some shown) svc id p h = chosen_of-Chosen shown p.service svc id p refl h

  -- what the plugin is after the D-Bus calls: `p` is what it is before the lock is taken again
  abbrev pub ShowsRead : Service → Result Text → Plugin → Plugin → Type 0
  ShowsRead svc read p p' =
      ((active : Text)
        → read ≡ ok active
        → is_same lower svc p.service ≡ true
        → p' ≡ publish_active active p)
      × ((is_ok read && is_same lower svc p.service) ≡ false → p' ≡ p)

  publish_read-ShowsRead :
      (svc : Service) (read : Result Text) (p : Plugin)
      → ShowsRead svc read p (publish_read lower svc read p)
  publish_read-ShowsRead svc (err e) p = ((λ active r s. absurd (ground (arith, r))), (λ h. refl))
  publish_read-ShowsRead svc (ok found) p = (
    (λ active r s. let e : found ≡ active = cc r in rw (s) (ap (λ t. publish_active t p) e)),
    (λ h. rw (h) refl),
  )

  -- A command that `choose` refuses fails and keeps the plugin. Any other sets the value of an option at the service in use. Whatever Set returns, the
  -- plugin then shows the profile that the service gives as active, if it can be read and that
  -- service is still in use, and else nothing; the command fails exactly if Set or the reading did.
  pub handle_command-ShowsRead :
      (sets : Service → Text → Option Err) (gets : Service → Result Text)
      (meanwhile : Plugin → Plugin) (payload : Value) (p : Plugin)
      → ((e : Err)
          → choose lower payload p ≡ err e
          → handle_command lower sets gets meanwhile payload p ≡ (p, some e))
        × ((svc : Service) (id : Text)
            → choose lower payload p ≡ ok (svc, id)
            → Chosen svc id p
              × ShowsRead svc
                  (gets svc)
                  (meanwhile p)
                  (handle_command lower sets gets meanwhile payload p).0
              × (is_none (handle_command lower sets gets meanwhile payload p).1
                  ≡ (is_none (sets svc id) && is_ok (gets svc))))
  unfolding handle_command choose finish_command
  handle_command-ShowsRead sets gets meanwhile payload p = (
    (λ e h. rw (h) refl),
    (λ svc id h. (
      chosen_payload-Chosen (string_payload payload) svc id p h,
      rw (h) (publish_read-ShowsRead svc (gets svc) (meanwhile p)),
      rw (h) (command_error-none id (sets svc id) (gets svc)),
    )),
  )
