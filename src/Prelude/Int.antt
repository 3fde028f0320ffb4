-- ===== src/Prelude/Int.antt =====
-- C's `int`, `pid_t` and `ssize_t`: the values that occur are small, so no wrap-around is written.
use Prim.Native.Nat.{ℕ}
use mathlib.Core.Path.{◌≡◌}
use mathlib.Core.Logic.{◌↔◌, ◌⊎◌, ◌≢◌, inl, inr}
use mathlib.Core.Bool.{Bool, true, false}
use native.Mathlib.Omega.{arith}
use hail2_repos.Prelude.Tests.{ltb, ◌==◌, Bool-cases}

-- `negsuc n` is -(n + 1).
pub data ℤ : Type 0 where
  pos : ℕ → ℤ
  negsuc : ℕ → ℤ

abbrev pub lt_ℤ : ℤ → ℤ → Bool
lt_ℤ (pos a) (pos b) = ltb a b
lt_ℤ (pos a) (negsuc b) = false
lt_ℤ (negsuc a) (pos b) = true
lt_ℤ (negsuc a) (negsuc b) = ltb b a

abbrev pub eq_ℤ : ℤ → ℤ → Bool
eq_ℤ (pos a) (pos b) = a == b
eq_ℤ (negsuc a) (negsuc b) = a == b
eq_ℤ (pos a) (negsuc b) = false
eq_ℤ (negsuc a) (pos b) = false

abbrev pub is_negative : ℤ → Bool
is_negative (pos a) = false
is_negative (negsuc a) = true

abbrev pub is_positive : ℤ → Bool
is_positive (pos a) = ltb 0 a
is_positive (negsuc a) = false

abbrev pub minus_one : ℤ
minus_one = negsuc 0

pub eq_ℤ_iff : (a b : ℤ) → (eq_ℤ a b ≡ true) ↔ (a ≡ b)
eq_ℤ_iff (pos a) (pos b) = ground arith
eq_ℤ_iff (pos a) (negsuc b) = ground arith
eq_ℤ_iff (negsuc a) (pos b) = ground arith
eq_ℤ_iff (negsuc a) (negsuc b) = ground arith

-- To split on a comparison and keep both forms of its outcome.
pub eq_ℤ-cases : (a b : ℤ) → ((a ≡ b) × (eq_ℤ a b ≡ true)) ⊎ ((a ≢ b) × (eq_ℤ a b ≡ false))
eq_ℤ-cases a b = elim (Bool-cases (eq_ℤ a b)) [
  | inl e ↦ inl ((eq_ℤ_iff a b).0 e, e)
  | inr e ↦ inr (λ p. cc (e, (eq_ℤ_iff a b).1 p), e)
]
