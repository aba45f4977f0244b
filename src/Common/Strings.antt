-- ===== src/Common/Strings.antt =====
-- Go strings as lists of code points: equality, order, membership, trimming.
use Prim.Native.Nat.{ℕ}
use Prim.Native.String.{String}
use Prim.Native.Char.{code}
use mathlib.Core.Path.{◌≡◌, refl}
use mathlib.Core.Logic.{◌↔◌}
use mathlib.Core.Bool.{Bool, true, false, not, ◌&&◌, ◌||◌}
use mathlib.Core.Option.{Option, none, some}
use mathlib.Core.List.{List, [], ◌∷◌, ◌++◌}
use native.Mathlib.Omega.{arith}
use home_pc_agent.Common.Bools.{ltb, leb, nat_eq, if◌then◌else◌}

abbrev pub Text : Type 0
Text = List ℕ

-- The code points of a literal.
abbrev pub codes : String → Text
codes String.[] = []
codes (String.◌∷◌ c s) = code c ∷ codes s

infix 50 ◌==◌
unfoldable pub ◌==◌ : Text → Text → Bool
[] == [] = true
(a ∷ s) == (b ∷ t) = nat_eq a b && s == t
_ == _ = false

pub ==_iff : (s t : Text) → ((s == t) ≡ true) ↔ (s ≡ t)
unfolding ◌==◌
==_iff [] [] = ground arith
==_iff [] (b ∷ t) = ground arith
==_iff (a ∷ s) [] = ground arith
==_iff (a ∷ s) (b ∷ t) = ground (arith, ==_iff s t)

pub ==_refl : (s : Text) → (s == s) ≡ true
==_refl s = (==_iff s s).1 refl

pub ==_comm : (s t : Text) → (s == t) ≡ (t == s)
==_comm s t = ground (arith, ==_iff s t, ==_iff t s)

-- sort.Strings compares bytes; on UTF-8 that is the order of the code points.
unfoldable pub text_lt : Text → Text → Bool
text_lt [] [] = false
text_lt [] (_ ∷ _) = true
text_lt (_ ∷ _) [] = false
text_lt (a ∷ s) (b ∷ t) = ltb a b || (nat_eq a b && text_lt s t)

-- slices.Contains, stringIn
unfoldable pub contains : List Text → Text → Bool
contains [] t = false
contains (x ∷ xs) t = x == t || contains xs t

unfoldable pub distinct : List Text → Bool
distinct [] = true
distinct (x ∷ xs) = not (contains xs x) && distinct xs

pub contains-append :
    (xs ys : List Text) (t : Text) → contains (xs ++ ys) t ≡ (contains xs t || contains ys t)
unfolding contains
contains-append [] ys t = refl
contains-append (x ∷ xs) ys t = ground (arith, contains-append xs ys t)

pub distinct-snoc :
    (xs : List Text) (x : Text)
    → distinct xs ≡ true
    → contains xs x ≡ false
    → distinct (xs ++ x ∷ []) ≡ true
unfolding distinct contains
distinct-snoc [] x d n = refl
distinct-snoc (y ∷ ys) x d n =
    ground (arith, distinct-snoc ys x, contains-append ys (x ∷ []) y, ==_comm x y)

-- strings.ContainsRune
unfoldable pub has_char : ℕ → Text → Bool
has_char c [] = false
has_char c (x ∷ xs) = nat_eq x c || has_char c xs

-- strings.TrimLeft and strings.TrimRight by a set of characters
unfoldable pub trim_left : (ℕ → Bool) → Text → Text
trim_left p [] = []
trim_left p (c ∷ s) = let rest = trim_left p s in if p c then rest else c ∷ s

unfoldable pub trim_right : (ℕ → Bool) → Text → Text
trim_right p [] = []
trim_right p (c ∷ s) =
    let rest = trim_right p s in elim rest [ [] ↦ (if p c then [] else c ∷ []) | d ∷ r ↦ c ∷ d ∷ r ]

-- strings.Trim
unfoldable pub trim : (ℕ → Bool) → Text → Text
trim p s = trim_right p (trim_left p s)

-- strings.HasPrefix with strings.TrimPrefix: the rest after the prefix.
unfoldable pub strip_prefix : Text → Text → Option Text
strip_prefix [] s = some s
strip_prefix (a ∷ p) [] = none
strip_prefix (a ∷ p) (b ∷ s) = let rest = strip_prefix p s in if nat_eq a b then rest else none

pub strip_prefix-append : (p s : Text) → strip_prefix p (p ++ s) ≡ some s
unfolding strip_prefix
strip_prefix-append [] s = refl
strip_prefix-append (a ∷ p) s = ground (arith, strip_prefix-append p s)

pub strip_prefix_sound : (p s r : Text) → strip_prefix p s ≡ some r → s ≡ p ++ r
unfolding strip_prefix
strip_prefix_sound [] s r h = ground arith
strip_prefix_sound (a ∷ p) [] r h = ground arith
strip_prefix_sound (a ∷ p) (b ∷ s) r h = ground (arith, strip_prefix_sound p s r)

-- character classes of the regular expressions
abbrev pub is_lower : ℕ → Bool
is_lower c = leb 97 c && leb c 122

abbrev pub is_upper : ℕ → Bool
is_upper c = leb 65 c && leb c 90

abbrev pub is_digit : ℕ → Bool
is_digit c = leb 48 c && leb c 57

unfoldable pub every : (ℕ → Bool) → Text → Bool
every p [] = true
every p (c ∷ s) = p c && every p s

every-trim_left : (p q : ℕ → Bool) (s : Text) → every q s ≡ true → every q (trim_left p s) ≡ true
unfolding every trim_left
every-trim_left p q [] h = refl
every-trim_left p q (c ∷ s) h = ground (arith, every-trim_left p q s)

every-trim_right : (p q : ℕ → Bool) (s : Text) → every q s ≡ true → every q (trim_right p s) ≡ true
unfolding every trim_right
every-trim_right p q [] h = refl
every-trim_right p q (c ∷ s) h = ground (arith, every-trim_right p q s)

-- Trimming keeps the characters of a class.
pub every-trim : (p q : ℕ → Bool) (s : Text) → every q s ≡ true → every q (trim p s) ≡ true
unfolding trim
every-trim p q s h = every-trim_right p q (trim_left p s) (every-trim_left p q s h)

-- unicode.IsSpace, by which strings.TrimSpace trims and strings.Fields splits
abbrev pub is_space : ℕ → Bool
is_space c =
    (leb 9 c && leb c 13)
    || nat_eq c 32
    || nat_eq c 133
    || nat_eq c 160
    || nat_eq c 5760
    || (leb 8192 c && leb c 8202)
    || nat_eq c 8232
    || nat_eq c 8233
    || nat_eq c 8239
    || nat_eq c 8287
    || nat_eq c 12288

-- strings.TrimSpace
unfoldable pub trim_space : Text → Text
unfolding trim
trim_space s = trim is_space s

-- strings.HasPrefix
unfoldable pub has_prefix : Text → Text → Bool
has_prefix [] s = true
has_prefix (a ∷ p) [] = false
has_prefix (a ∷ p) (b ∷ s) = nat_eq a b && has_prefix p s

-- strings.Contains, the part second
unfoldable pub includes : Text → Text → Bool
unfolding has_prefix
includes [] part = has_prefix part []
includes (c ∷ s) part = has_prefix part (c ∷ s) || includes s part

-- strings.ReplaceAll of a character by nothing
unfoldable pub drop_char : ℕ → Text → Text
drop_char a [] = []
drop_char a (c ∷ s) = let rest = drop_char a s in if nat_eq c a then rest else c ∷ rest
