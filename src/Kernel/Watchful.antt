-- ===== src/Kernel/Watchful.antt =====
-- What the loops of the supervisor need from the outside to end.
use hail2_repos.Prelude.{
  ℕ, ◌≤◌, ◌<◌, ◌≡◌, ◌⊎◌, Bool, true, false, List, [], ◌∷◌, ℤ, eq_ℤ, Text, if◌then◌else◌,
}
use hail2_repos.Kernel.{System, Settles, Timespec, failed}
use hail2_repos.Kernel.Errno.{eintr}
use hail2_repos.Kernel.SignalNumber.{sigterm}

abbrev pub has_sigterm : List ℤ → Bool
has_sigterm [] = false
has_sigterm (sig ∷ sigs) = if eq_ℤ sig sigterm then true else has_sigterm sigs

-- SIGTERM comes after finitely many looks, each interruption of a sleep is an event that is then
-- past, and no call makes such events.
pub record Watchful {W : Type 0} (os : System W) : Type 0 where
  pub settles : Settles os
  pub arrives :
      (w : W)
      → (has_sigterm (os.arrivals w).0 ≡ true) ⊎ (os.patience (os.arrivals w).1 < os.patience w)
  pub interrupted_sleep :
      (t : Timespec) (w : W)
      → (os.nanosleep t w).0.0 ≡ failed eintr
      → os.patience (os.nanosleep t w).1 < os.patience w
  pub quiet_arrivals : (w : W) → os.patience (os.arrivals w).1 ≤ os.patience w
  pub quiet_nanosleep : (t : Timespec) (w : W) → os.patience (os.nanosleep t w).1 ≤ os.patience w
  pub quiet_fork : (w : W) → os.patience (os.fork w).1 ≤ os.patience w
  pub quiet_waitpid :
      (pid : ℤ) (nohang : Bool) (w : W) → os.patience (os.waitpid pid nohang w).1 ≤ os.patience w
  pub quiet_kill : (pid sig : ℤ) (w : W) → os.patience (os.kill pid sig w).1 ≤ os.patience w
  pub quiet_access : (path : Text) (w : W) → os.patience (os.access path w).1 ≤ os.patience w
  pub quiet_sigaction : (sig : ℤ) (w : W) → os.patience (os.sigaction sig w).1 ≤ os.patience w
  pub quiet_stat : (path : Text) (w : W) → os.patience (os.stat path w).1 ≤ os.patience w
  pub quiet_getppid : (w : W) → os.patience (os.getppid w).1 ≤ os.patience w
  pub quiet_sleep : (seconds : ℕ) (w : W) → os.patience (os.sleep seconds w) ≤ os.patience w
