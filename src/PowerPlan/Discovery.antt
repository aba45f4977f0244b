-- ===== src/PowerPlan/Discovery.antt =====
-- internal/plugins/powerplan/discover_windows.go: the enumeration of power schemes. What the calls of
-- powrprof.dll answer is an argument; a GUID is its text in braces.
use home_pc_agent.Common.{
  ℕ, zero, suc, ◌+◌, ◌%◌, ◌^◌, ◌≤◌, ◌<◌, Bool, true, ◌||◌, Option, none, some, List, [], ◌∷◌, ◌++◌,
  Text, Err, Result, ok, err, no_schemes, enumeration_failed, name_size_failed, name_failed, trim,
  trim_space, nat_eq, is_empty, ◌≡◌, refl, arith, if◌then◌else◌, append-nil, append_assoc, is_some,
  ap, ◌∙◌, Bool-cases, inl, inr, ◌⊎◌,
}
use home_pc_agent.PowerPlan.{Mode}

abbrev is_brace : ℕ → Bool
is_brace c = nat_eq c b'{' || nat_eq c b'}'

-- the two calls of PowerReadFriendlyName: the first's error, save ERROR_MORE_DATA, and its size; the
-- second's error, and the text in the buffer up to its first zero
pub record NameAnswer : Type 0 where
  pub size_error : Option Err
  pub size : ℕ
  pub read_error : Option Err
  pub content : Text

unfoldable pub plain_guid : Text → Text
unfolding trim
plain_guid guid = trim is_brace guid

abbrev pub name_read : Text → NameAnswer → Option Err → Result Text
name_read guid a (some e) = err (name_failed guid e)
name_read guid a none =
    let name = trim_space a.content in if is_empty name then ok (plain_guid guid) else ok name

abbrev pub name_sized : Text → NameAnswer → Option Err → Result Text
name_sized guid a (some e) = err (name_size_failed guid e)
name_sized guid a none =
    if nat_eq a.size 0 then ok (plain_guid guid) else name_read guid a a.read_error

unfoldable pub power_plan_friendly_name : Text → NameAnswer → Result Text
unfolding plain_guid trim_space
power_plan_friendly_name guid a = name_sized guid a a.size_error

-- what PowerEnumerate answers at an index
pub data EnumAnswer : Type 0 where
  scheme : Text → NameAnswer → EnumAnswer
  no_more_items : EnumAnswer
  failed : Err → EnumAnswer

-- the mode of a scheme
abbrev pub named_mode : Text → Result Text → Result Mode
named_mode guid (err e) = err e
named_mode guid (ok name) = ok (record { name = name; guid = plain_guid guid })

unfoldable pub scheme_mode : Text → NameAnswer → Result Mode
unfolding power_plan_friendly_name plain_guid
scheme_mode guid a = named_mode guid (power_plan_friendly_name guid a)

abbrev pub found_modes : List Mode → Result (List Mode)
found_modes [] = err no_schemes
found_modes (mode ∷ modes) = ok (mode ∷ modes)

-- the loop of discoverPowerPlans: `done` is ctx.Err() of the round, the index a uint32; `none` is a
-- loop that has not ended with its fuel
abbrev pub if_found :
    (List Mode → Option (Result (List Mode)))
    → List Mode
    → Result Mode
    → Option (Result (List Mode))
if_found next modes (err e) = some (err e)
if_found next modes (ok mode) = next (modes ++ mode ∷ [])

abbrev pub by_answer :
    (List Mode → Option (Result (List Mode)))
    → ℕ
    → List Mode
    → EnumAnswer
    → Option (Result (List Mode))
by_answer next index modes (scheme guid a) = if_found next modes (scheme_mode guid a)
by_answer next index modes no_more_items = some (found_modes modes)
by_answer next index modes (failed e) = some (err (enumeration_failed index e))

abbrev pub unless_done : Option Err → Option (Result (List Mode)) → Option (Result (List Mode))
unless_done (some e) next = some (err e)
unless_done none next = next

unfoldable pub discover_from :
    (ℕ → Option Err) → (ℕ → EnumAnswer) → ℕ → ℕ → List Mode → Option (Result (List Mode))
unfolding scheme_mode
discover_from done enumerate zero index modes = none
discover_from done enumerate (suc fuel) index modes =
    let next = discover_from done enumerate fuel ((index + 1) % 2 ^ 32) in
    unless_done (done index) (by_answer next index modes (enumerate index))

unfoldable pub discover_power_plans :
    (ℕ → Option Err) → (ℕ → EnumAnswer) → ℕ → Option (Result (List Mode))
unfolding discover_from
discover_power_plans done enumerate fuel = discover_from done enumerate fuel 0 []

-- what a round makes of a scheme; `none` is an answer that ends the loop
abbrev pub round_mode : EnumAnswer → Option (Result Mode)
round_mode (scheme guid a) = some (scheme_mode guid a)
round_mode no_more_items = none
round_mode (failed e) = none

-- the modes of `count` indices
unfoldable pub modes_from : (ℕ → Mode) → ℕ → ℕ → List Mode
modes_from mode_at index zero = []
modes_from mode_at index (suc count) = mode_at index ∷ modes_from mode_at (index + 1) count

by_answer-mode :
    (next : List Mode → Option (Result (List Mode))) (index : ℕ) (modes : List Mode)
    (answer : EnumAnswer) (mode : Mode)
    → round_mode answer ≡ some (ok mode)
    → by_answer next index modes answer ≡ next (modes ++ mode ∷ [])
by_answer-mode next index modes (scheme guid a) mode h =
    let e : scheme_mode guid a ≡ ok mode = cc h in rw (e) refl
by_answer-mode next index modes no_more_items mode h = absurd (ground (arith, h))
by_answer-mode next index modes (failed e) mode h = absurd (ground (arith, h))

discover_from-modes :
    (done : ℕ → Option Err) (enumerate : ℕ → EnumAnswer) (mode_at : ℕ → Mode) (count index end : ℕ)
    (modes : List Mode)
    → index + count ≡ end
    → end < 2 ^ 32
    → ((i : ℕ) → i ≤ end → done i ≡ none)
    → ((i : ℕ) → i < end → round_mode (enumerate i) ≡ some (ok (mode_at i)))
    → enumerate end ≡ no_more_items
    → discover_from done enumerate (suc count) index modes
      ≡ some (found_modes (modes ++ modes_from mode_at index count))
unfolding discover_from modes_from
discover_from-modes done enumerate mode_at zero index end modes e b d m z =
    let i : index ≡ end = omega arith in rw (i, d end (omega arith), z, append-nil modes) refl
discover_from-modes done enumerate mode_at (suc count) index end modes e b d m z =
    let next = discover_from done enumerate (suc count) ((index + 1) % 2 ^ 32) in
    let w : (index + 1) % 2 ^ 32 ≡ index + 1 = omega arith in
    rw (d index (omega arith)) (
      by_answer-mode next index modes (enumerate index) (mode_at index) (m index (omega arith))
      ∙ ap (λ i. discover_from done enumerate (suc count) i (modes ++ mode_at index ∷ [])) w
      ∙ discover_from-modes done enumerate mode_at count (index + 1) end
          (modes ++ mode_at index ∷ []) (omega arith) b d m z
      ∙ ap (λ t. some (found_modes t))
          (append_assoc modes (mode_at index ∷ []) (modes_from mode_at (index + 1) count)))

unless_done-some :
    (done : Option Err) (o : Option (Result (List Mode)))
    → is_some o ≡ true
    → is_some (unless_done done o) ≡ true
unless_done-some none o h = h
unless_done-some (some e) o h = refl

if_found-some :
    (next : List Mode → Option (Result (List Mode))) (modes : List Mode) (found : Result Mode)
    → ((ms : List Mode) → is_some (next ms) ≡ true)
    → is_some (if_found next modes found) ≡ true
if_found-some next modes (err e) h = refl
if_found-some next modes (ok mode) h = h (modes ++ mode ∷ [])

by_answer-some :
    (next : List Mode → Option (Result (List Mode))) (index : ℕ) (modes : List Mode)
    (answer : EnumAnswer)
    → (round_mode answer ≡ none) ⊎ ((ms : List Mode) → is_some (next ms) ≡ true)
    → is_some (by_answer next index modes answer) ≡ true
by_answer-some next index modes (scheme guid a) (inl e) = absurd (ground (arith, e))
by_answer-some next index modes (scheme guid a) (inr h) =
    if_found-some next modes (scheme_mode guid a) h
by_answer-some next index modes no_more_items h = refl
by_answer-some next index modes (failed e) h = refl

ends_at :
    (done : ℕ → Option Err) (enumerate : ℕ → EnumAnswer) (fuel index end : ℕ) (modes : List Mode)
    → index ≤ end
    → end < index + fuel
    → end < 2 ^ 32
    → round_mode (enumerate end) ≡ none
    → is_some (discover_from done enumerate fuel index modes) ≡ true
unfolding discover_from
ends_at done enumerate zero index end modes lo hi b z = absurd (omega arith)
ends_at done enumerate (suc fuel) index end modes lo hi b z = unless_done-some (done index) _ (
    by_answer-some (discover_from done enumerate fuel ((index + 1) % 2 ^ 32)) index modes
      (enumerate index)
      (elim (Bool-cases (nat_eq index end)) [
        | inl e ↦ inl (let i : index ≡ end = ground (arith, e) in rw (i) z)
        | inr e ↦ inr (λ ms.
            ends_at done enumerate fuel ((index + 1) % 2 ^ 32) end ms (ground (arith, e))
              (ground (arith, e)) b z)
      ]))

-- The enumeration ends by the first index at which powrprof.dll answers with no scheme. If every
-- answer before that one is a scheme whose name can be read, that one says that there are no more
-- items, and the context is not done, then the result is the modes of these schemes in order, or
-- the error that there is none.
pub discover_power_plans_lem :
    (done : ℕ → Option Err) (enumerate : ℕ → EnumAnswer) (mode_at : ℕ → Mode) (end : ℕ)
    → end < 2 ^ 32
    → (round_mode (enumerate end) ≡ none
        → is_some (discover_power_plans done enumerate (suc end)) ≡ true)
      × (((i : ℕ) → i ≤ end → done i ≡ none)
          → ((i : ℕ) → i < end → round_mode (enumerate i) ≡ some (ok (mode_at i)))
          → enumerate end ≡ no_more_items
          → discover_power_plans done enumerate (suc end)
            ≡ some (found_modes (modes_from mode_at 0 end)))
unfolding discover_power_plans
discover_power_plans_lem done enumerate mode_at end b = (
  (λ z. ends_at done enumerate (suc end) 0 end [] (omega arith) (omega arith) b z),
  (λ d m z. discover_from-modes done enumerate mode_at end 0 end [] (omega arith) b d m z),
)
