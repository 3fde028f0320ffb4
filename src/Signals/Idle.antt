-- ===== src/Signals/Idle.antt =====
-- signal_process in no mode.
use hail2_repos.Prelude.{ℕ, ◌≡◌, inl, inr, ℤ, pos, arith}
use hail2_repos.Kernel.{System, Forks}
use hail2_repos.Image.{Image, Controller}
use hail2_repos.Mode.{mode_start}
use hail2_repos.Mode.Exits.{mode_md0}
use hail2_repos.Mode.Frame.{Idle}
use hail2_repos.Mode.Transitions.{
  Transition, startup, operate, shutdown, refuse, mode_start-Transition,
}
use hail2_repos.Mode.Tracking.{mode_child_exit-mode}
use hail2_repos.Signals.{signal_process, child_exited, clear_sigterm}
use hail2_repos.Signals.Handling.{
  process_sigchld-keeps, process_sigterm-keeps, process_sigint-keeps, child_exited-mode,
}

-- A request for MD0 in no mode.
Transition-Idle : {c d : Controller} → Transition mode_md0 c d → Idle c → d ≡ c
Transition-Idle (startup p _ _ _ _) h = absurd cc
Transition-Idle (operate p _ _) h = absurd cc
Transition-Idle (shutdown _ p e) h = absurd cc
Transition-Idle (refuse _ _ _ e) h = e

module _ {W : Type 0} (os : System W) (fk : Forks os) where
  child_exited-Idle :
      (pid : ℤ) (status : ℕ) (s : Image W)
      → Idle s.mode
      → Idle (child_exited os pid status s).1.mode
  child_exited-Idle pid status s h =
      rw (child_exited-mode, mode_child_exit-mode os pid (pos status) s (inr (inl h)))
        (ground arith)

  request-Idle :
      (s : Image W) → Idle s.mode → Idle (mode_start os mode_md0 (clear_sigterm s).1).1.mode
  request-Idle s h =
      rw (Transition-Idle (mode_start-Transition os fk mode_md0 (clear_sigterm s).1) h) h

  -- In no mode, a request for shutdown is refused.
  pub signal_process-Idle : (s : Image W) → Idle s.mode → Idle (signal_process os s).1.mode
  unfolding signal_process
  signal_process-Idle s h =
      process_sigchld-keeps os (λ t. Idle t.mode) (λ t k. k) (λ t k. k) child_exited-Idle _
        (process_sigint-keeps os (λ t. Idle t.mode) (λ t k. k) _
          (process_sigterm-keeps os (λ t. Idle t.mode) request-Idle s h))
