-- ===== src/FanControl/Names.antt =====
-- internal/plugins/fancontrol/fancontrol.go: what is made of the name of a configuration file. Paths
-- are those of Windows. `volume_rest` is a path without its filepath.VolumeName, `short_hash` the
-- first 8 digits of a text's SHA-256, `lower_other` unicode.ToLower outside ASCII.
pub mod Words
pub mod Keys
use home_pc_agent.Common.{
  ℕ, ◌-◌, ◌+◌, Bool, true, false, not, ◌&&◌, ◌||◌, List, [], ◌∷◌, ◌++◌, map, Text, codes, ◌==◌,
  trim, trim_left, trim_right, trim_space, is_space, is_lower, is_upper, is_digit, nat_eq, every,
  is_empty, if◌then◌else◌,
}
use home_pc_agent.Mqtt.Topics.{to_lower, replace_runs, is_underscore}

abbrev pub is_separator : ℕ → Bool
is_separator c = nat_eq c b'/' || nat_eq c 92

abbrev pub is_dot : ℕ → Bool
is_dot c = nat_eq c b'.'

unfoldable pub any_char : (ℕ → Bool) → Text → Bool
any_char p [] = false
any_char p (c ∷ s) = p c || any_char p s

-- the characters after the last one of a class, or all of them
unfoldable pub after_last : (ℕ → Bool) → Text → Text
unfolding any_char
after_last p [] = []
after_last p (c ∷ s) =
    let rest = after_last p s in if any_char p s then rest else if p c then s else c ∷ s

-- filepath.Ext
unfoldable pub extension : Text → Text
unfolding any_char after_last
extension path =
    let name = after_last is_separator path in
    if any_char is_dot name then b'.' ∷ after_last is_dot name else []

-- strings.TrimSuffix, the suffix second
unfoldable pub trim_suffix : Text → Text → Text
unfolding ◌==◌
trim_suffix [] suffix = []
trim_suffix (c ∷ s) suffix =
    let rest = c ∷ trim_suffix s suffix in if (c ∷ s) == suffix then [] else rest

-- the parts of strings.Fields; `word` has been read
abbrev pub emit : Text → List Text → List Text
emit [] words = words
emit (c ∷ word) words = (c ∷ word) ∷ words

unfoldable pub fields_from : Text → Text → List Text
fields_from word [] = emit word []
fields_from word (c ∷ s) =
    let ended = emit word (fields_from [] s) in
    let more = fields_from (word ++ c ∷ []) s in if is_space c then ended else more

abbrev pub is_word_separator : ℕ → Bool
is_word_separator c = nat_eq c b'-' || nat_eq c b'_'

-- profileNameSeparator.ReplaceAllString(stem, " "); the flag says that a run has begun
unfoldable pub separated : Bool → Text → Text
separated in_run [] = []
separated in_run (c ∷ s) =
    let kept = c ∷ separated false s in
    let begun = b' ' ∷ separated true s in
    let skipped = separated true s in
    if is_word_separator c then (if in_run then skipped else begun) else kept

-- the loop of splitCamelWord: `piece` is word[start:i], and `prev` its last character
unfoldable pub camel_from : Text → ℕ → Text → List Text
camel_from piece prev [] = piece ∷ []
camel_from piece prev (c ∷ s) =
    let split = piece ∷ camel_from (c ∷ []) c s in
    let more = camel_from (piece ++ c ∷ []) c s in
    if is_lower prev && is_upper c then split else more

unfoldable pub split_camel_word : Text → List Text
unfolding camel_from
split_camel_word [] = []
split_camel_word (c ∷ s) = camel_from (c ∷ []) c s

unfoldable pub split_words : List Text → List Text
unfolding split_camel_word
split_words [] = []
split_words (raw ∷ raws) = split_camel_word raw ++ split_words raws

abbrev pub upper_first : Text → Text
upper_first [] = []
upper_first (c ∷ s) = (if is_lower c then c - 32 else c) ∷ s

-- strings.Join(words, " ")
unfoldable pub join_words : List Text → Text
join_words [] = []
join_words (word ∷ []) = word
join_words (word ∷ next ∷ words) = word ++ (b' ' ∷ join_words (next ∷ words))

module _ (volume_rest : Text → Text) (short_hash : Text → Text) (lower_other : ℕ → ℕ) where
  -- filepath.Base
  unfoldable pub base_name : Text → Text
  unfolding trim_right after_last
  base_name path =
      let last = after_last is_separator (volume_rest (trim_right is_separator path)) in
      if is_empty path then codes "." else if is_empty last then codes "\\" else last

  unfoldable pub stem_of : Text → Text
  unfolding base_name extension trim_suffix
  stem_of config_name = trim_suffix (base_name config_name) (extension config_name)

  unfoldable pub title_ascii : Text → Text
  unfolding to_lower
  title_ascii word = upper_first (to_lower lower_other word)

  unfoldable pub words_of : Text → List Text
  unfolding separated fields_from split_words title_ascii
  words_of stem = map title_ascii (split_words (fields_from [] (separated false stem)))

  abbrev pub name_of_words : Text → List Text → Text
  name_of_words stem [] = stem
  name_of_words stem (word ∷ words) = join_words (word ∷ words)

  unfoldable pub friendly_profile_name : Text → Text
  unfolding stem_of trim_space words_of join_words
  friendly_profile_name config_name =
      let stem = trim_space (stem_of config_name) in
      if is_empty stem then codes "FanControl Profile" else name_of_words stem (words_of stem)

  unfoldable pub short_config_hash : Text → Text
  unfolding to_lower
  short_config_hash config_name = short_hash (to_lower lower_other config_name)

  abbrev pub key_char : ℕ → Bool
  key_char c = is_lower c || is_digit c

  unfoldable pub profile_key_from_config_name : Text → Text
  unfolding stem_of to_lower replace_runs trim short_config_hash
  profile_key_from_config_name config_name =
      let key =
        trim is_underscore
          (replace_runs key_char false (to_lower lower_other (stem_of config_name))) in
      if is_empty key then codes "profile_" ++ short_config_hash config_name else key
