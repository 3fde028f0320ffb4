-- ===== src/Signals/Draining.antt =====
-- The loop of signal_process that collects children.
use hail2_repos.Prelude.{
  ℕ, zero, suc, ◌<◌, ◌≤◌, ◌≡◌, true, false, ℤ, pos, is_positive, if_cases, arith,
}
use hail2_repos.Kernel.{System, Settles}
use hail2_repos.Process.{process_reap}
use hail2_repos.Process.Waiting.{process_reap-Shrinks}
use hail2_repos.Image.{Image, lift}
use hail2_repos.Mode.{mode_child_exit}
use hail2_repos.Load.Table.{load_child_exit}
use hail2_repos.Mode.Quiet.{mode_child_exit-Logged}
use hail2_repos.Signals.{process_sigchld, child_exited, reap_children, clear_sigchld}

-- The mode controller is told of a child's exit and status, and then the HSV table.
abbrev pub told : {W : Type 0} → System W → ℤ → ℕ → Image W → Image W
told os pid status s =
    let u = (mode_child_exit os pid (pos status) s).1 in
    record u { load = load_child_exit pid u.load }

-- `for (;;)` of signal_process as a relation: each child that process_reap hands over is told to both
-- subsystems, and the first result that names no child ends the loop.
pub data Drains {W : Type 0} (os : System W) : Image W → Image W → Type 0 where
  nothing_left :
      (s : Image W)
      → is_positive (lift (process_reap os) s).0.0 ≡ false
      → Drains os s (lift (process_reap os) s).1
  child_left :
      (s : Image W) {u : Image W}
      → is_positive (lift (process_reap os) s).0.0 ≡ true
      → Drains os
          (told os
            (lift (process_reap os) s).0.0
            (lift (process_reap os) s).0.1
            (lift (process_reap os) s).1)
          u
      → Drains os s u

module _ {W : Type 0} (os : System W) (st : Settles os) where
  quiet-child_exited :
      (pid : ℤ) (status : ℕ) (s : Image W)
      → os.patience (child_exited os pid status s).1.out.world ≤ os.patience s.out.world
  unfolding child_exited
  quiet-child_exited pid status s = (mode_child_exit-Logged os st pid (pos status) s).0

  reap_children-Drains :
      (fuel : ℕ) (s : Image W)
      → os.patience s.out.world < fuel
      → Drains os s (reap_children os fuel s).1
  unfolding reap_children child_exited
  reap_children-Drains zero s h = absurd (omega arith)
  reap_children-Drains (suc fuel) s h =
      let (r, s1) = lift (process_reap os) s in
      if_cases (λ (q : Unit {0} × Image W). Drains os s q.1) (is_positive r.0)
        (λ p.
          let less = process_reap-Shrinks os st s.out p in
          let quiet = quiet-child_exited r.0 r.1 s1 in
          child_left s p (reap_children-Drains fuel (child_exited os r.0 r.1 s1).1 (omega arith)))
        (λ n. nothing_left s n)

  -- Where waitpid is interrupted and hands over children finitely often and logging makes
  -- neither, a pending SIGCHLD is cleared, and then every child that process_reap hands over is
  -- told first to mode_child_exit and then to load_child_exit, until process_reap names none.
  pub process_sigchld-Drains :
      (s : Image W)
      → s.pending.sigchld_pending ≡ true
      → Drains os (clear_sigchld s).1 (process_sigchld os s).1
  unfolding process_sigchld
  process_sigchld-Drains s p =
      if_cases (λ (q : Unit {0} × Image W). Drains os (clear_sigchld s).1 q.1)
        s.pending.sigchld_pending (λ _. reap_children-Drains _ (clear_sigchld s).1 (omega arith))
        (λ n. cc)
