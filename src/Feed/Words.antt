-- ===== src/Feed/Words.antt =====
-- [FEED]/feed.c: what it uses of <string.h>, <stdlib.h> and <ctype.h>, on strings without their NUL.
use hail2_repos.Prelude.{
  ℕ, ◌+◌, ◌-◌, ◌*◌, Bool, ◌&&◌, ◌||◌, Option, none, some, [], ◌∷◌, ℤ, pos, negsuc, Text, leb, ◌==◌,
  if◌then◌else◌,
}

-- " \t\r\n"
abbrev pub is_delimiter : ℕ → Bool
is_delimiter c = c == 32 || (c == 9 || (c == 13 || c == 10))

-- isspace in the C locale
abbrev pub isspace : ℕ → Bool
isspace c = c == 32 || leb 9 c && leb c 13

abbrev pub skip_delimiters : Text → Text
skip_delimiters [] = []
skip_delimiters (c ∷ cs) = let rest = skip_delimiters cs in if is_delimiter c then rest else c ∷ cs

-- a token, and what follows the delimiter that ends it
abbrev pub split_token : Text → Text × Text
split_token [] = ([], [])
split_token (c ∷ cs) =
    let (token, rest) = split_token cs in if is_delimiter c then ([], cs) else (c ∷ token, rest)

abbrev pub token_of : Text → Option (Text × Text)
token_of [] = none
token_of (c ∷ cs) = some (split_token (c ∷ cs))

-- strtok with " \t\r\n": the token and where the next call starts, and `none` for NULL
abbrev pub strtok : Text → Option (Text × Text)
strtok text = token_of (skip_delimiters text)

abbrev pub skip_space : Text → Text
skip_space [] = []
skip_space (c ∷ cs) = let rest = skip_space cs in if isspace c then rest else c ∷ cs

abbrev pub is_digit : ℕ → Bool
is_digit c = leb 48 c && leb c 57

-- the number that the digits continue, and what follows them
abbrev pub digits_from : ℕ → Text → ℕ × Text
digits_from n [] = (n, [])
digits_from n (c ∷ cs) =
    let longer = digits_from (n * 10 + (c - 48)) cs in if is_digit c then longer else (n, c ∷ cs)

abbrev pub negated : ℕ → ℤ
negated n = if n == 0 then pos 0 else negsuc (n - 1)

-- a number without a sign, or none
abbrev pub unsigned : Text → Option (ℕ × Text)
unsigned [] = none
unsigned (c ∷ cs) = if is_digit c then some (digits_from 0 (c ∷ cs)) else none

abbrev pub with_sign : (ℕ → ℤ) → Option (ℕ × Text) → Option (ℤ × Text)
with_sign f none = none
with_sign f (some (n, rest)) = some (f n, rest)

abbrev pub signed : Text → Option (ℤ × Text)
signed [] = none
signed (c ∷ cs) =
    if c == 45
    then with_sign negated (unsigned cs)
    else if c == 43
    then with_sign pos (unsigned cs)
    else with_sign pos (unsigned (c ∷ cs))

-- `end` stays at the start when there is no number.
abbrev pub number_or : Text → Option (ℤ × Text) → ℤ × Text
number_or text none = (pos 0, text)
number_or text (some r) = r

-- strtol (text, &end, 10); the bounds of long are not reached by what is accepted
abbrev pub strtol : Text → ℤ × Text
strtol text = number_or text (signed (skip_space text))
