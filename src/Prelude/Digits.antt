-- ===== src/Prelude/Digits.antt =====
-- What printf makes of numbers of up to four digits.
use Prim.Native.Nat.{ℕ, zero, suc, ◌+◌, ◌/◌, ◌%◌, ◌≤◌, ◌<◌}
use mathlib.Core.Path.{◌≡◌}
use mathlib.Core.List.{[], ◌∷◌, ◌++◌}
use native.Mathlib.Omega.{arith}
use native.Mathlib.Decide.{dec_lt}
use hail2_repos.Prelude.Texts.{Text, decimal, decimal_from, pad, padded}

digits_one : (f n : ℕ) → n < 10 → decimal_from (suc f) n ≡ (48 + n) ∷ []
unfolding decimal_from
digits_one f n h = ground arith

digits_more :
    (f n : ℕ) → 10 ≤ n → decimal_from (suc f) n ≡ decimal_from f (n / 10) ++ (48 + n % 10) ∷ []
unfolding decimal_from
digits_more f n h = ground arith

abbrev pub two_digits : ℕ → Text
two_digits n = (48 + n / 10) ∷ (48 + n % 10) ∷ []

abbrev pub four_digits : ℕ → Text
four_digits n =
    (48 + n / 10 / 10 / 10) ∷ (48 + n / 10 / 10 % 10) ∷ (48 + n / 10 % 10) ∷ (48 + n % 10) ∷ []

digits_two : (f n : ℕ) → 10 ≤ n → n < 100 → decimal_from (suc (suc f)) n ≡ two_digits n
digits_two f n l h = rw (digits_more (suc f) n l, digits_one f (n / 10) (omega arith))

digits_four :
    (f n : ℕ) → 1000 ≤ n → n < 10000 → decimal_from (suc (suc (suc (suc f)))) n ≡ four_digits n
digits_four f n l h = rw (
  digits_more _ n (omega arith),
  digits_more _ (n / 10) (omega arith),
  digits_two f (n / 10 / 10) (omega arith) (omega arith),
)

-- A number is at least its count of digits.
decimal_two : (n : ℕ) → 10 ≤ n → n < 100 → decimal n ≡ two_digits n
unfolding decimal
decimal_two zero l h = absurd (omega arith)
decimal_two (suc n) l h = digits_two n (suc n) l h

pub decimal_four : (n : ℕ) → 1000 ≤ n → n < 10000 → decimal n ≡ four_digits n
unfolding decimal
decimal_four (suc (suc (suc n))) l h = digits_four n (suc (suc (suc n))) l h
decimal_four n l h = absurd (omega arith)

pub padded_two : (n : ℕ) → n < 100 → padded 2 n ≡ two_digits n
unfolding padded pad
padded_two n h = elim (dec_lt n 10) [
  | yes p ↦ unfold decimal in rw (digits_one n n p) (ground arith)
  | no p ↦ rw (decimal_two n (omega arith) h)
]

pub padded_four : (n : ℕ) → 1000 ≤ n → n < 10000 → padded 4 n ≡ four_digits n
unfolding padded pad
padded_four n l h = rw (decimal_four n l h)
