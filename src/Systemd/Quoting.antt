-- ===== src/Systemd/Quoting.antt =====
-- Quoted command lines are read back as the arguments that they were made of. `words` reads a line
-- by the rules of systemd's manual: words between spaces, double quotes at a word's start,
-- backslash escapes and doubled "%" and "$" in them. It does not know what else that manual has:
-- single quotes, the word ";", and the prefixes of the first word.
use home_pc_agent.Common.{
  ℕ, true, false, ◌||◌, List, [], ◌∷◌, ◌++◌, Text, every, nat_eq, if◌then◌else◌, is_empty, ◌≡◌,
  refl, arith, All, map, Bool-cases, inl, inr, ◌∙◌, ap, sym, append-nil,
}
use home_pc_agent.Systemd.{plain_char, escape_chars, escape_systemd_value, join_words}

-- where the reader stands: between words, in a plain or a quoted word, or after a "\", a "%" or "$"
pub data Mode : Type 0 where
  between plain quoted escaped doubled : Mode

-- what a character adds to the words that follow it
pub data Emit : Type 0 where
  nothing ends : Emit
  adds : ℕ → Emit

abbrev pub emit : Emit → List Text → List Text
emit nothing ws = ws
emit ends ws = [] ∷ ws
emit (adds c) [] = (c ∷ []) ∷ []
emit (adds c) (w ∷ ws) = (c ∷ w) ∷ ws

abbrev pub read : Mode → ℕ → Emit × Mode
read between c =
    if nat_eq c b' '
    then (nothing, between)
    else if nat_eq c b'"'
    then (nothing, quoted)
    else (adds c, plain)
read plain c = if nat_eq c b' ' then (ends, between) else (adds c, plain)
read quoted c =
    if nat_eq c b'"'
    then (ends, between)
    else if nat_eq c b'\\'
    then (nothing, escaped)
    else if nat_eq c b'%' || nat_eq c b'$'
    then (nothing, doubled)
    else (adds c, quoted)
read escaped c = (adds (if nat_eq c b't' then 9 else c), quoted)
read doubled c = (adds c, quoted)

abbrev finish : Mode → List Text
finish between = []
finish _ = [] ∷ []

unfoldable pub words : Mode → Text → List Text
words m [] = finish m
words m (c ∷ s) = let (e, m') = read m c in emit e (words m' s)

quoted_word : (s rest : Text) → words quoted (escape_chars s (b'"' ∷ rest)) ≡ s ∷ words between rest
unfolding words escape_chars
quoted_word [] rest = refl
quoted_word (c ∷ s) rest = ground (arith, quoted_word s rest)

plain_escape : (s rest : Text) → every plain_char s ≡ true → escape_chars s rest ≡ s ++ rest
unfolding escape_chars every
plain_escape [] rest h = refl
plain_escape (c ∷ s) rest h = ground (arith, plain_escape s rest)

-- what follows a word: nothing, or a space
abbrev Follows : Text → Type 0
Follows [] = Unit
Follows (c ∷ rest) = c ≡ b' '

plain_word :
    (s rest : Text)
    → every plain_char s ≡ true
    → Follows rest
    → words plain (s ++ rest) ≡ s ∷ words between rest
unfolding words every
plain_word [] [] h f = refl
plain_word [] (c ∷ rest) h f = ground (arith, f)
plain_word (c ∷ s) rest h f = ground (arith, plain_word s rest, f)

escape_chars-append : (s r rest : Text) → escape_chars s r ++ rest ≡ escape_chars s (r ++ rest)
unfolding escape_chars
escape_chars-append [] r rest = refl
escape_chars-append (c ∷ s) r rest = ground (arith, escape_chars-append s r rest)

plain_first :
    (s rest : Text)
    → every plain_char s ≡ true
    → is_empty s ≡ false
    → Follows rest
    → words between (s ++ rest) ≡ s ∷ words between rest
unfolding every words
plain_first [] rest h n f = absurd (ground arith)
plain_first (c ∷ s) rest h n f = ground (arith, plain_word s rest, f)

escaped_first :
    (s rest : Text)
    → is_empty s ≡ false
    → Follows rest
    → words between (escape_systemd_value s ++ rest) ≡ s ∷ words between rest
unfolding escape_systemd_value
escaped_first s rest n f = elim (Bool-cases (every plain_char s)) [
  | inl h ↦
      rw (h, plain_escape s [] h)
        (ap (λ x. words between (x ++ rest)) (append-nil s) ∙ plain_first s rest h n f)
  | inr h ↦ rw (h) (
      ap (λ x. words between (b'"' ∷ x)) (escape_chars-append s (b'"' ∷ []) rest)
      ∙ (unfold words in quoted_word s rest))
]

space_skipped : (s : Text) → words between (b' ' ∷ s) ≡ words between s
unfolding words
space_skipped s = refl

-- A command line of non-empty arguments, each quoted where it has to be and joined by spaces, is
-- read back as exactly these arguments.
pub words-join_words :
    (args : List Text)
    → All (λ arg. is_empty arg ≡ false) args
    → words between (join_words (map escape_systemd_value args)) ≡ args
unfolding join_words
words-join_words [] h = unfold words in refl
words-join_words (a ∷ []) h =
    ap (words between) (sym (append-nil (escape_systemd_value a)))
    ∙ escaped_first a [] h.0 tt
    ∙ (unfold words in refl)
words-join_words (a ∷ b ∷ args) h =
    escaped_first a (b' ' ∷ join_words (map escape_systemd_value (b ∷ args))) h.0 refl
    ∙ ap (λ ws. a ∷ ws)
        (space_skipped (join_words (map escape_systemd_value (b ∷ args)))
          ∙ words-join_words (b ∷ args) h.1)
