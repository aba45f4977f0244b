-- ===== src/Inhibit/Switching.antt =====
-- When an inhibitor is held, as its commands, refreshes and the plugin's Stop change it.
use home_pc_agent.Common.{
  Bool, true, false, not, ◌&&◌, ◌||◌, Option, none, some, [], ◌∷◌, Text, Dict, Err, join_errors,
  boolean, is_none, ◌≡◌, ◌≢◌, refl, ap, ◌∙◌, arith, All,
}
use home_pc_agent.Entity.{online, unavailable}
use home_pc_agent.Core.Scope.{World}
use home_pc_agent.Inhibit.{
  Inhibitor, Plugin, InhibitAnswer, call_failed, store_failed, cookie_given, Handled, same_bool,
  is_unavailable, gone, switched, enable, disable, switch_to, handle_item, lose, refresh_item,
  release_all, stop_inhibitors, close_error,
}

-- what the services answer to the call that the switch makes
abbrev pub granted : Bool → InhibitAnswer → Option Err → Bool
granted true (cookie_given _) off = true
granted true _ off = false
granted false on none = true
granted false on (some _) = false

-- A switch to `enabled` holds or releases the inhibitor exactly if the service grants it; it then
-- counts as online, and otherwise as unavailable.
abbrev pub Switched : Bool → Bool → Inhibitor → Handled → Type 0
Switched enabled true item (item', w, e) = (item'.active ≡ enabled) × (item'.availability ≡ online)
Switched enabled false item (item', w, e) =
    (item'.active ≡ item.active) × (item'.availability ≡ unavailable) × (e ≢ none)

switch_to-Switched :
    (id : Text) (enabled : Bool) (on : InhibitAnswer) (off : Option Err) (item : Inhibitor)
    (w : World)
    → Switched enabled (granted enabled on off) item (switch_to id enabled on off item w)
unfolding enable disable gone switched
switch_to-Switched id true (cookie_given c) off item w = (refl, refl)
switch_to-Switched id true (call_failed e) off item w = (refl, refl, λ h. cc)
switch_to-Switched id true (store_failed e) off item w = (refl, refl, λ h. cc)
switch_to-Switched id false on none item w = (refl, refl)
switch_to-Switched id false on (some e) item w = (refl, refl, λ h. cc)

-- A command that asks for what is already so keeps the item. One that asks for
-- a change has the inhibitor held or released exactly if the service grants it, and the item is
-- then online; if not, the item keeps its state, becomes unavailable, and the command fails.
pub handle_item-Switched :
    (id : Text) (enabled : Bool) (on : InhibitAnswer) (off : Option Err) (item : Inhibitor)
    (w : World)
    → (same_bool item.active enabled ≡ true
        → (handle_item id (boolean enabled) on off item w).0 ≡ item)
      × (same_bool item.active enabled ≡ false
          → Switched enabled
              (granted enabled on off)
              item
              (handle_item id (boolean enabled) on off item w))
unfolding handle_item
handle_item-Switched id enabled on off item w =
    (λ h. rw (h) refl, λ h. rw (h) (switch_to-Switched id enabled on off item w))

-- A refresh releases the plugin's hold exactly when the service does not answer and the item was
-- not already counted as unavailable: an item that a failed call has made unavailable stays held.
pub refresh_item-active :
    (id : Text) (ping : Bool) (item : Inhibitor) (w : World)
    → (refresh_item id ping item w).0.active
      ≡ (item.active && (ping || is_unavailable item.availability))
unfolding refresh_item lose
refresh_item-active id true item w = ground arith
refresh_item-active id false item w = ground arith

-- whether every held item's release is answered without an error
unfoldable pub all_released : (Text → Option Err) → Dict Inhibitor → Bool
all_released releases [] = true
all_released releases ((id, item) ∷ items) =
    (not item.active || is_none (releases id)) && all_released releases items

abbrev pub AllInactive : Dict Inhibitor → Type 0
AllInactive items = All (λ (entry : Text × Inhibitor). entry.1.active ≡ false) items

release_all-AllInactive :
    (releases : Text → Option Err) (items : Dict Inhibitor)
    → AllInactive (release_all releases items).0
unfolding release_all
release_all-AllInactive releases [] = tt
release_all-AllInactive releases ((id, item) ∷ items) =
    (refl, release_all-AllInactive releases items)

release_all-error :
    (releases : Text → Option Err) (items : Dict Inhibitor)
    → is_none (release_all releases items).1 ≡ all_released releases items
unfolding release_all all_released
release_all-error releases [] = refl
release_all-error releases ((id, item) ∷ items) = ground (arith, release_all-error releases items)

joined_none :
    (error : Option Err) (closing : Option Err)
    → is_none (join_errors error (close_error closing)) ≡ (is_none error && is_none closing)
joined_none error closing = ground arith

-- Stop releases every held inhibitor: afterwards none counts as held, whatever the services answer, and
-- Stop returns no error exactly if every release and the closing of the bus succeeded.
pub stop_inhibitors-AllInactive :
    (releases : Text → Option Err) (closing : Option Err) (p : Plugin)
    → AllInactive (stop_inhibitors releases closing p).0.inhibitors
      × (is_none (stop_inhibitors releases closing p).1
          ≡ (all_released releases p.inhibitors && is_none closing))
unfolding stop_inhibitors
stop_inhibitors-AllInactive releases closing p = (
  release_all-AllInactive releases p.inhibitors,
  joined_none (release_all releases p.inhibitors).1 closing
      ∙ ap (λ b. b && is_none closing) (release_all-error releases p.inhibitors),
)
