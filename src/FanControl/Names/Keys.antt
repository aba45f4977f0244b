-- ===== src/FanControl/Names/Keys.antt =====
-- The key of a discovered profile is one that the configuration's check accepts.
use home_pc_agent.Common.{
  ℕ, Bool, true, false, not, ◌||◌, [], ◌∷◌, ◌++◌, Text, codes, trim, trim_left, trim_right, every,
  all, nat_eq, is_lower, is_digit, is_empty, ◌≡◌, refl, arith, Bool-cases, List-cases, inl, inr,
  every-trim,
}
use home_pc_agent.Mqtt.Topics.{to_lower, replace_runs, is_underscore}
use home_pc_agent.PowerPlan.{key_matches}
use home_pc_agent.FanControl.Names.{stem_of, short_config_hash, profile_key_from_config_name}

abbrev pub part_char : ℕ → Bool
part_char c = (is_lower c || is_digit c) || nat_eq c b'_'

replace_runs-every :
    (in_run : Bool) (s : Text)
    → every part_char (replace_runs (λ c. is_lower c || is_digit c) in_run s) ≡ true
unfolding every replace_runs
replace_runs-every in_run [] = refl
replace_runs-every in_run (c ∷ s) =
    ground (arith, replace_runs-every false s, replace_runs-every true s)

every-tail :
    (s : Text)
    → every part_char s ≡ true
    → all (λ d. (is_lower d || is_digit d) || nat_eq d b'_' || nat_eq d b'-') s ≡ true
unfolding every all
every-tail [] h = refl
every-tail (c ∷ s) h = ground (arith, h, every-tail s)

-- what does not begin with an underscore
abbrev starts_well : Text → Bool
starts_well [] = true
starts_well (c ∷ s) = not (is_underscore c)

trim_left-starts : (s : Text) → starts_well (trim_left is_underscore s) ≡ true
unfolding trim_left
trim_left-starts [] = refl
trim_left-starts (c ∷ s) = ground (arith, trim_left-starts s)

trim_right-starts :
    (s : Text) → starts_well s ≡ true → starts_well (trim_right is_underscore s) ≡ true
unfolding trim_right
trim_right-starts [] h = refl
trim_right-starts (c ∷ s) h = elim (List-cases (trim_right is_underscore s)) [
  | inl e ↦ rw (e) (ground (arith, h))
  | inr (d, r, e) ↦ rw (e) h
]

key_matches-part :
    (s : Text)
    → every part_char s ≡ true
    → starts_well s ≡ true
    → is_empty s ≡ false
    → key_matches s ≡ true
unfolding key_matches every
key_matches-part [] e w n = ground (arith, n)
key_matches-part (c ∷ s) e w n = ground (arith, e, w, every-tail s)

every-append :
    (p : ℕ → Bool) (s t : Text) → every p s ≡ true → every p t ≡ true → every p (s ++ t) ≡ true
unfolding every
every-append p [] t h k = k
every-append p (c ∷ s) t h k = ground (arith, h, every-append p s t)

module _ (volume_rest : Text → Text) (short_hash : Text → Text) (lower_other : ℕ → ℕ) where
  -- The key made of a file's name matches the pattern of the configuration's keys, given that a
  -- hash is written with letters and digits.
  pub profile_key_from_config_name-matches :
      (config_name : Text)
      → ((t : Text) → every part_char (short_hash t) ≡ true)
      → key_matches (profile_key_from_config_name volume_rest short_hash lower_other config_name)
        ≡ true
  unfolding profile_key_from_config_name
  profile_key_from_config_name-matches config_name hash =
      let low = to_lower lower_other (stem_of volume_rest short_hash lower_other config_name) in
      let runs = replace_runs (λ c. is_lower c || is_digit c) false low in
      elim (Bool-cases (is_empty (trim is_underscore runs))) [
        | inl h ↦ rw (h) (
            key_matches-part
              (codes "profile_" ++ short_config_hash volume_rest short_hash lower_other config_name)
              (every-append part_char (codes "profile_") _ (unfold every in refl)
                (unfold short_config_hash in hash (to_lower lower_other config_name)))
              refl refl)
        | inr h ↦ rw (h) (
            key_matches-part (trim is_underscore runs)
              (every-trim is_underscore part_char runs (replace_runs-every false low))
              (unfold trim in
                trim_right-starts (trim_left is_underscore runs) (trim_left-starts runs))
              h)
      ]
