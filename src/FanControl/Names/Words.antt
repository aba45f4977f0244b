-- ===== src/FanControl/Names/Words.antt =====
-- The name shown for a configuration file.
use home_pc_agent.Common.{
  ℕ, Bool, true, false, not, ◌&&◌, List, [], ◌∷◌, ◌++◌, map, Text, trim_space, is_lower, is_upper,
  is_empty, all, append_assoc, ◌≡◌, refl, ap, ◌∙◌, arith, Bool-cases, inl, inr,
}
use home_pc_agent.Mqtt.Topics.{to_lower}
use home_pc_agent.FanControl.Names.{
  camel_from, split_camel_word, split_words, join_words, title_ascii, words_of, name_of_words,
  stem_of, friendly_profile_name, fields_from, separated,
}

unfoldable pub concat : List Text → Text
concat [] = []
concat (t ∷ ts) = t ++ concat ts

-- no lower-case letter is followed by an upper-case one
unfoldable pub no_hump : Text → Bool
no_hump [] = true
no_hump (c ∷ []) = true
no_hump (c ∷ d ∷ s) = not (is_lower c && is_upper d) && no_hump (d ∷ s)

abbrev pub is_piece : Text → Bool
is_piece piece = not (is_empty piece) && no_hump piece

no_hump-snoc :
    (s : Text) (prev c : ℕ)
    → no_hump (s ++ prev ∷ []) ≡ true
    → (is_lower prev && is_upper c) ≡ false
    → no_hump ((s ++ prev ∷ []) ++ c ∷ []) ≡ true
unfolding no_hump
no_hump-snoc [] prev c h n = ground (arith, n)
no_hump-snoc (a ∷ []) prev c h n = ground (arith, h, n)
no_hump-snoc (a ∷ b ∷ s) prev c h n = ground (arith, h, no_hump-snoc (b ∷ s) prev c)

camel_from-concat :
    (piece : Text) (prev : ℕ) (s : Text) → concat (camel_from piece prev s) ≡ piece ++ s
unfolding concat camel_from
camel_from-concat piece prev [] = refl
camel_from-concat piece prev (c ∷ s) = elim (Bool-cases (is_lower prev && is_upper c)) [
  | inl h ↦ rw (h) (ap (λ t. piece ++ t) (camel_from-concat (c ∷ []) c s))
  | inr h ↦ rw (h) (camel_from-concat (piece ++ c ∷ []) c s ∙ append_assoc piece (c ∷ []) s)
]

snoc-nonempty : (s : Text) (c : ℕ) → is_empty (s ++ c ∷ []) ≡ false
snoc-nonempty [] c = refl
snoc-nonempty (a ∷ s) c = refl

camel_from-pieces :
    (s : Text) (prev : ℕ) (rest : Text)
    → no_hump (s ++ prev ∷ []) ≡ true
    → all is_piece (camel_from (s ++ prev ∷ []) prev rest) ≡ true
unfolding all camel_from
camel_from-pieces s prev [] h = ground (arith, h, snoc-nonempty s prev)
camel_from-pieces s prev (c ∷ rest) h = elim (Bool-cases (is_lower prev && is_upper c)) [
  | inl e ↦ rw (e) (
      ground (arith, h, snoc-nonempty s prev, camel_from-pieces [] c rest (unfold no_hump in refl)))
  | inr e ↦ rw (e) (camel_from-pieces (s ++ prev ∷ []) c rest (no_hump-snoc s prev c h e))
]

pub split_camel_word_lem :
    (word : Text)
    → (concat (split_camel_word word) ≡ word) × (all is_piece (split_camel_word word) ≡ true)
unfolding split_camel_word concat all
split_camel_word_lem [] = (refl, refl)
split_camel_word_lem (c ∷ s) =
    (camel_from-concat (c ∷ []) c s, camel_from-pieces [] c s (unfold no_hump in refl))

abbrev pub has_text : Text → Bool
has_text t = not (is_empty t)

all-has_text : (ts : List Text) → all is_piece ts ≡ true → all has_text ts ≡ true
unfolding all
all-has_text [] h = refl
all-has_text (t ∷ ts) h = ground (arith, h, all-has_text ts)

all-append :
    (ts us : List Text)
    → all has_text ts ≡ true
    → all has_text us ≡ true
    → all has_text (ts ++ us) ≡ true
unfolding all
all-append [] us h k = k
all-append (t ∷ ts) us h k = ground (arith, h, all-append ts us)

split_words-has_text : (raws : List Text) → all has_text (split_words raws) ≡ true
unfolding split_words
split_words-has_text [] = unfold all in refl
split_words-has_text (raw ∷ raws) =
    all-append (split_camel_word raw) (split_words raws)
      (all-has_text (split_camel_word raw) (split_camel_word_lem raw).1) (split_words-has_text raws)

module _ (volume_rest : Text → Text) (short_hash : Text → Text) (lower_other : ℕ → ℕ) where
  title_ascii-has_text :
      (word : Text)
      → has_text word ≡ true
      → has_text (title_ascii volume_rest short_hash lower_other word) ≡ true
  unfolding title_ascii to_lower
  title_ascii-has_text [] h = h
  title_ascii-has_text (c ∷ s) h = refl

  titles-have_text :
      (words : List Text)
      → all has_text words ≡ true
      → all has_text (map (title_ascii volume_rest short_hash lower_other) words) ≡ true
  unfolding all
  titles-have_text [] h = refl
  titles-have_text (word ∷ words) h =
      ground (arith, h, title_ascii-has_text word, titles-have_text words)

  name_of_words-has_text :
      (stem : Text) (words : List Text)
      → has_text stem ≡ true
      → all has_text words ≡ true
      → has_text (name_of_words volume_rest short_hash lower_other stem words) ≡ true
  unfolding join_words all
  name_of_words-has_text stem [] h k = h
  name_of_words-has_text stem (word ∷ []) h k = ground (arith, k)
  name_of_words-has_text stem ([] ∷ next ∷ words) h k = ground (arith, k)
  name_of_words-has_text stem ((c ∷ s) ∷ next ∷ words) h k = refl

  -- The name shown for a file is never empty, whatever the file's name.
  pub friendly_profile_name-has_text :
      (config_name : Text)
      → has_text (friendly_profile_name volume_rest short_hash lower_other config_name) ≡ true
  unfolding friendly_profile_name
  friendly_profile_name-has_text config_name =
      let stem = trim_space (stem_of volume_rest short_hash lower_other config_name) in
      elim (Bool-cases (is_empty stem)) [
        | inl h ↦ rw (h) refl
        | inr h ↦ rw (h) (
            name_of_words-has_text stem (words_of volume_rest short_hash lower_other stem)
              (ground (arith, h))
              (unfold words_of in
                titles-have_text (split_words (fields_from [] (separated false stem)))
                  (split_words-has_text (fields_from [] (separated false stem)))))
      ]
