-- ===== src/Md/Md2/Leaving.antt =====
-- The operating mode ends, and how.
use hail2_repos.Prelude.{ℕ, ◌≡◌, ◌⊎◌, true, false, Option, some, ℤ, is_negative}
use hail2_repos.Kernel.{System, failed, Out}
use hail2_repos.Kernel.Watchful.{Watchful}
use hail2_repos.Log.{log_init}
use hail2_repos.Md.Md2.{Operator}
use hail2_repos.Md.Md2.Checking.{Broken}

-- The loop ended with EXIT_SUCCESS, and the flag was cleared, or with EXIT_FAILURE, and a check
-- failed.
abbrev pub Leaves : {W : Type 0} → System W → Operator W → Option ℕ × Operator W → Type 0
Leaves os s r =
    (r.1.out.trace ≡ s.out.trace)
    × (((r.0 ≡ some 0) × (r.1.running ≡ false)) ⊎ ((r.0 ≡ some 1) × Broken os))

-- What keeps the program from its loop.
pub data Unready {W : Type 0} (os : System W) : Type 0 where
  no_log : (o : Out W) → is_negative (log_init os o).0 ≡ true → Unready os
  no_handler : (sig : ℤ) (w : W) (e : ℕ) → (os.sigaction sig w).0 ≡ failed e → Unready os

-- The outcome of `main`.
abbrev pub Operates : {W : Type 0} → System W → Operator W → Option ℕ × Operator W → Type 0
Operates os s r = ((r.0 ≡ some 1) × (r.1.out.trace ≡ s.out.trace) × Unready os) ⊎ Leaves os s r
