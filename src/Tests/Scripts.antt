-- ===== src/Tests/Scripts.antt =====
-- The command runner: what becomes of the commands to an action.
use home_pc_agent.Common.{ltb, ◌||◌}
use home_pc_agent.Runner.Settings.{OptionSettings}
use home_pc_agent.Runner.Invocation.Delivery.{IsCut}
use home_pc_agent.Runner.Starting.Serving.{
  Every, IsConfigured, HasOptions, IsAccepting, runtimes_after-IsConfigured,
}
use home_pc_agent.Common.{
  ℕ, true, false, none, some, List, [], ◌∷◌, map, Text, codes, ◌==◌, keys, lookup, contains,
  distinct, length, ok, ◌>>=◌, pos, positive, is_empty, trim_right, trim_left, text_lt, ◌≡◌, refl,
  sym, ◌∙◌, ==_iff, Bool-cases, inl, inr,
}
use home_pc_agent.Entity.{Entity, validate, display_name}
use home_pc_agent.Runner.Settings.{resolved_entity_id}
use home_pc_agent.Runner.Checks.{validate_action, first_of}
use home_pc_agent.Runner.Checks.Entities.{validate_action-Accepted}
use home_pc_agent.Runner.Options.{Discovered, add_options, build_entity, option_names_from_map}
use home_pc_agent.Runner.Invocation.{build_invocation, truncate_output}
use home_pc_agent.Runner.Invocation.Delivery.{
  SameMap, build_invocation-SameMap, truncate_output_lem,
}
use home_pc_agent.Runner.Starting.{runtimes_after}
use home_pc_agent.Tests.Data.{no_lower}
use home_pc_agent.Tests.Actions.{
  low_level, options, brightness, config, all_there, no_error, two, two_swapped, marshal, spec,
}

accepted : validate_action all_there no_error no_error config (codes "brightness") brightness ≡ none
unfolding validate_action distinct first_of trim_right trim_left
accepted = refl

named :
    (brightness.kind == codes "select") ≡ true
    → (is_empty options ≡ false)
      × (distinct (map display_name (option_names_from_map options)) ≡ true)
unfolding option_names_from_map distinct ◌==◌ text_lt contains display_name
named h = (refl, refl)

validate_action-Accepted_example :
    (e : Entity) × (build_entity
        (resolved_entity_id (codes "brightness") brightness)
        brightness
        options
      ≡ ok e)
    × (validate e ≡ none)
validate_action-Accepted_example =
    validate_action-Accepted all_there no_error no_error config (codes "brightness") brightness
      accepted named

looked_up : (k : Text) → lookup k two ≡ lookup k two_swapped
unfolding lookup ◌==◌
looked_up k = elim (Bool-cases (codes "b" == k)) [
  | inl b ↦ elim (Bool-cases (codes "a" == k)) [
    | inl a ↦ absurd (
        let q : false ≡ true =
          (==_iff (codes "a") (codes "b")).1
            ((==_iff (codes "a") k).0 a ∙ sym ((==_iff (codes "b") k).0 b)) in
        cc q)
    | inr a ↦ rw (a, b) refl
  ]
  | inr b ↦ rw (b) refl
]

same_two : SameMap two two_swapped
unfolding distinct keys contains ◌==◌
same_two = (refl, refl, looked_up)

build_invocation-SameMap_example :
    build_invocation no_lower no_lower marshal [] spec
    ≡ build_invocation no_lower no_lower marshal [] (record spec { params = two_swapped })
build_invocation-SameMap_example =
    build_invocation-SameMap no_lower no_lower marshal [] spec two_swapped same_two
      (λ m n same. refl)

-- An option whose key a later one makes with its index is overwritten by it.
abbrev listed : List Discovered
listed =
    record { value = codes "a_2"; name = codes "First"; parameters = none }
    ∷ record { value = codes "a"; name = codes "Second"; parameters = none }
    ∷ record { value = codes "a"; name = codes "Third"; parameters = none }
    ∷ []

overwritten :
    (add_options no_lower 0 [] [] listed >>= λ found. ok (keys found))
    ≡ ok (codes "a_2" ∷ codes "a" ∷ [])
unfolding add_options keys trim_right trim_left ◌==◌
overwritten = refl

-- the runner does serve the action
served :
    keys (runtimes_after (λ key. ok []) config.actions (codes "brightness" ∷ []) [])
    ≡ codes "runner.brightness" ∷ []
unfolding runtimes_after keys ◌==◌
served = refl

truncate_output_lem_example :
    (positive (pos 3) ≡ none
      → truncate_output (codes "hello") [] (pos 3) ≡ (codes "hello", [], false))
    × ((n : ℕ)
        → positive (pos 3) ≡ some n
        → IsCut n (codes "hello") (truncate_output (codes "hello") [] (pos 3)).0
          × IsCut n [] (truncate_output (codes "hello") [] (pos 3)).1
          × ((truncate_output (codes "hello") [] (pos 3)).2
              ≡ (ltb n (length (codes "hello")) || ltb n (length {A = ℕ} []))))
truncate_output_lem_example = truncate_output_lem (codes "hello") [] (pos 3)

runtimes_after-IsConfigured_example :
    Every
      (IsConfigured config.actions)
      (runtimes_after (λ key. ok []) config.actions (codes "brightness" ∷ []) [])
    × (IsAccepting (λ key. ok []) config.actions (codes "brightness" ∷ [])
        → Every HasOptions
            (runtimes_after (λ key. ok []) config.actions (codes "brightness" ∷ []) []))
runtimes_after-IsConfigured_example =
    runtimes_after-IsConfigured (λ key. ok []) config.actions (codes "brightness" ∷ [])

abbrev low_option : OptionSettings
low_option = record { name = codes "Low"; parameters = low_level }
