-- ===== src/Selects.antt =====
-- What the plugins with one select entity share: options sorted by what the user sees
-- (powerplan.go, fancontrol.go, powerprofile_ppd.go of internal/plugins), fresh keys for what is
-- discovered, and the numbers in them as fmt prints them.
pub mod Sorting
pub mod Numbers
pub mod Fresh
pub mod Options
use home_pc_agent.Common.{
  ℕ, zero, suc, ◌+◌, ◌/◌, ◌%◌, Bool, true, false, Option, none, some, List, [], ◌∷◌, ◌++◌, Text,
  codes, ◌==◌, text_lt, contains, length, ltb, Value, text, Err, if◌then◌else◌, is_empty,
}
use home_pc_agent.Entity.{Choice, Entity, select}
use home_pc_agent.Mqtt.Topics.{to_lower}

-- the comparison that sort.Slice is given; `lower` is strings.ToLower
unfoldable pub before : (Text → Text) → Choice → Choice → Bool
unfolding ◌==◌ text_lt
before lower a b =
    let left = lower a.name in
    let right = lower b.name in
    if left == right then text_lt a.value b.value else text_lt left right

unfoldable pub insert_choice : (Text → Text) → Choice → List Choice → List Choice
unfolding before
insert_choice lower o [] = o ∷ []
insert_choice lower o (p ∷ ps) =
    if before lower p o then p ∷ insert_choice lower o ps else o ∷ p ∷ ps

-- sort.Slice
unfoldable pub sort_choices : (Text → Text) → List Choice → List Choice
unfolding insert_choice
sort_choices lower [] = []
sort_choices lower (o ∷ os) = insert_choice lower o (sort_choices lower os)

-- %d: the digits of `n` before `rest`; a number has at most as many digits as it counts, or one
unfoldable pub digits : ℕ → ℕ → Text → Text
digits zero n rest = (b'0' + n % 10) ∷ rest
digits (suc fuel) n rest =
    let more = digits fuel (n / 10) ((b'0' + n % 10) ∷ rest) in
    if ltb n 10 then (b'0' + n) ∷ rest else more

unfoldable pub decimal : ℕ → Text
unfolding digits
decimal n = digits n n []

-- fmt.Sprintf("%s_%s_%d", base, suffix, i)
unfoldable pub numbered : Text → Text → ℕ → Text
unfolding decimal
numbered base suffix i = base ++ (b'_' ∷ suffix ++ (b'_' ∷ decimal i))

-- the loop over i, for at most `fuel` rounds
unfoldable pub search : List Text → (ℕ → Text) → ℕ → ℕ → Option Text
unfolding contains
search taken candidate zero i = none
search taken candidate (suc fuel) i =
    let rest = search taken candidate fuel (i + 1) in
    if contains taken (candidate i) then rest else some (candidate i)

abbrev pub key_or : Text → Option Text → Text
key_or default none = default
key_or default (some key) = key

-- the loop of uniqueModeKey and of uniqueProfileKey, after their base is known
unfoldable pub unique_key : List Text → Text → Text → Text
unfolding search numbered contains
unique_key taken base suffix =
    let key = base ++ (b'_' ∷ suffix) in
    if contains taken base
    then (if contains taken key
        then key_or key (search taken (numbered base suffix) (suc (length taken)) 2)
        else key)
    else base

-- strings.EqualFold; `fold_other` maps a code point outside ASCII to the least that it is taken for
unfoldable pub equal_fold : (ℕ → ℕ) → Text → Text → Bool
unfolding to_lower ◌==◌
equal_fold fold_other s t = to_lower fold_other s == to_lower fold_other t

abbrev pub select_entity : Text → Text → List Choice → Text → Entity
select_entity id name options icon = record {
  id = id;
  name = name;
  kind = select;
  options = options;
  icon = icon;
  device_class = [];
  state_class = [];
  unit = [];
  category = [];
}

-- `value, ok := command.Payload.(string); !ok || value == ""`
abbrev pub string_payload : Value → Option Text
string_payload (text s) = if is_empty s then none else some s
string_payload _ = none
