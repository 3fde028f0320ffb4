-- ===== src/Prelude/Texts.antt =====
-- C strings: the bytes before the terminating NUL.
use Prim.Native.Nat.{ℕ, zero, suc, ◌+◌, ◌-◌, ◌/◌, ◌%◌}
use Prim.Native.Char.{code}
use Prim.Native.String.{String}
use mathlib.Core.Path.{◌≡◌, refl}
use mathlib.Core.Logic.{◌↔◌}
use mathlib.Core.Bool.{Bool, true, false, ◌&&◌, ◌||◌}
use mathlib.Core.Option.{Option, none, some}
use mathlib.Core.List.{List, [], ◌∷◌, ◌++◌}
use native.Mathlib.Omega.{arith}
use hail2_repos.Prelude.Tests.{ltb, leb, ◌==◌, if◌then◌else◌}
use hail2_repos.Prelude.Lists.{length, take, replicate}
use hail2_repos.Prelude.Int.{ℤ, pos, negsuc}

abbrev pub Text : Type 0
Text = List ℕ

-- A string literal. It stays shut: most proofs treat a literal as a value that they never open.
unfoldable pub codes : String → Text
codes String.[] = []
codes (String.◌∷◌ c s) = code c ∷ codes s

-- strcmp (a, b) == 0
abbrev pub text_eq : Text → Text → Bool
text_eq [] [] = true
text_eq [] (b ∷ bs) = false
text_eq (a ∷ as') [] = false
text_eq (a ∷ as') (b ∷ bs) = a == b && text_eq as' bs

pub text_eq_iff : (a b : Text) → (text_eq a b ≡ true) ↔ (a ≡ b)
text_eq_iff [] [] = ground arith
text_eq_iff [] (b ∷ bs) = ground arith
text_eq_iff (a ∷ as') [] = ground arith
text_eq_iff (a ∷ as') (b ∷ bs) = ground (arith, text_eq_iff as' bs)

-- strchr (s, c) != NULL
abbrev pub has_byte : ℕ → Text → Bool
has_byte c [] = false
has_byte c (x ∷ xs) = x == c || has_byte c xs

-- the bytes that strlen counts
abbrev pub c_string : Text → Text
c_string [] = []
c_string (c ∷ cs) = let rest = c_string cs in if c == 0 then [] else c ∷ rest

-- What snprintf leaves in a buffer of `size` bytes.
abbrev pub snprintf : ℕ → Text → Text
snprintf size text = take (size - 1) text

-- "%s/%s"
abbrev pub joined : Text → Text → Text
joined directory name = directory ++ (47 ∷ name)

-- snprintf into a buffer of `size` bytes, `none` when the text does not fit
abbrev pub fitted : ℕ → Text → Option Text
fitted size text = if leb size (length text) then none else some text

unfoldable pub decimal_from : ℕ → ℕ → Text
decimal_from zero n = []
decimal_from (suc fuel) n =
    let rest = decimal_from fuel (n / 10) in
    if ltb n 10 then (48 + n) ∷ [] else rest ++ (48 + n % 10) ∷ []

-- %zu, and %d of a number that is not negative. A number has at most as many digits as the fuel given.
unfoldable pub decimal : ℕ → Text
decimal n = decimal_from (suc n) n

-- %d
unfoldable pub show_int : ℤ → Text
show_int (pos n) = decimal n
show_int (negsuc n) = 45 ∷ decimal (n + 1)

-- leading zeros
unfoldable pub pad : ℕ → Text → Text
pad width digits = replicate (width - length digits) 48 ++ digits

-- %0<width>d
unfoldable pub padded : ℕ → ℕ → Text
padded width n = pad width (decimal n)

pub text_eq_comm : (a b : Text) → text_eq a b ≡ text_eq b a
text_eq_comm [] [] = refl
text_eq_comm [] (b ∷ bs) = refl
text_eq_comm (a ∷ as') [] = refl
text_eq_comm (a ∷ as') (b ∷ bs) = ground (arith, text_eq_comm as' bs)
