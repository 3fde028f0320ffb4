-- ===== src/Signals/Handling.antt =====
-- What processing the pending signals does to the mode, the HSV table and the flags.
use hail2_repos.Prelude.{
  arith, ℕ, zero, suc, ◌≡◌, refl, ◌∙◌, ap, true, false, ℤ, pos, is_positive, if_cases,
}
use hail2_repos.Kernel.{System, Forks, Settles}
use hail2_repos.Process.{process_reap}
use hail2_repos.Image.{Image, Pending, lift}
use hail2_repos.Mode.{mode_start, mode_child_exit}
use hail2_repos.Mode.Apart.{mode_start-Apart, mode_child_exit-Apart}
use hail2_repos.Mode.Exits.{mode_md0}
use hail2_repos.Mode.Transitions.{mode_start-Transition}
use hail2_repos.Mode.Frame.{Operating}
use hail2_repos.Mode.Order.{ShutsDown, mode_start-ShutsDown}
use hail2_repos.Mode.Tracking.{Halted, mode_start-Halted, child_exit-Halted, shutdown-Halted}
use hail2_repos.Signals.{
  signal_process, process_sigterm, process_sigint, process_sigchld, child_exited, reap_children,
  clear_sigterm, clear_sigint, clear_sigchld,
}

-- no signal is pending
abbrev pub none_pending : Pending
none_pending = record { sigchld_pending = false; sigterm_pending = false; sigint_pending = false }

module _ {W : Type 0} (os : System W) where
  -- What each child keeps, the loop keeps.
  reap_children-keeps :
      (P : Image W → Type 0)
      → ((s : Image W) → P s → P (lift (process_reap os) s).1)
      → ((pid : ℤ) (status : ℕ) (s : Image W) → P s → P (child_exited os pid status s).1)
      → (fuel : ℕ) (s : Image W) → P s
      → P (reap_children os fuel s).1
  unfolding reap_children
  reap_children-keeps P reap exits zero s h = h
  reap_children-keeps P reap exits (suc fuel) s h =
      let (r, s1) = lift (process_reap os) s in
      if_cases (λ (q : Unit {0} × Image W). P q.1) (is_positive r.0)
        (λ _. reap_children-keeps P reap exits fuel _ (exits r.0 r.1 s1 (reap s h))) (λ _. reap s h)

  -- Each part of signal_process keeps what its steps keep.
  pub process_sigchld-keeps :
      (P : Image W → Type 0)
      → ((s : Image W) → P s → P (clear_sigchld s).1)
      → ((s : Image W) → P s → P (lift (process_reap os) s).1)
      → ((pid : ℤ) (status : ℕ) (s : Image W) → P s → P (child_exited os pid status s).1)
      → (s : Image W) → P s
      → P (process_sigchld os s).1
  unfolding process_sigchld
  process_sigchld-keeps P clear reap exits s h =
      if_cases (λ (q : Unit {0} × Image W). P q.1) s.pending.sigchld_pending
        (λ _. reap_children-keeps P reap exits _ (clear_sigchld s).1 (clear s h)) (λ _. h)

  pub process_sigterm-keeps :
      (P : Image W → Type 0)
      → ((s : Image W) → P s → P (mode_start os mode_md0 (clear_sigterm s).1).1)
      → (s : Image W) → P s
      → P (process_sigterm os s).1
  unfolding process_sigterm
  process_sigterm-keeps P start s h =
      if_cases (λ (q : Unit {0} × Image W). P q.1) s.pending.sigterm_pending (λ _. start s h)
        (λ _. h)

  pub process_sigint-keeps :
      (P : Image W → Type 0)
      → ((s : Image W) → P s → P (clear_sigint s).1)
      → (s : Image W) → P s
      → P (process_sigint os s).1
  unfolding process_sigint
  process_sigint-keeps P clear s h =
      if_cases (λ (q : Unit {0} × Image W). P q.1) s.pending.sigint_pending (λ _. clear s h)
        (λ _. h)

  -- the mode and the flags after both subsystems were told of an exit
  child_exited-pending :
      (pid : ℤ) (status : ℕ) (s : Image W) → (child_exited os pid status s).1.pending ≡ s.pending
  unfolding child_exited
  child_exited-pending pid status s = ap (λ x. x.1) (mode_child_exit-Apart os pid (pos status) s)

  pub child_exited-mode :
      (pid : ℤ) (status : ℕ) (s : Image W)
      → (child_exited os pid status s).1.mode ≡ (mode_child_exit os pid (pos status) s).1.mode
  unfolding child_exited
  child_exited-mode pid status s = refl

  process_sigterm-pending :
      (s : Image W)
      → (process_sigterm os s).1.pending ≡ record s.pending { sigterm_pending = false }
  unfolding process_sigterm
  process_sigterm-pending s =
      if_cases Cleared s.pending.sigterm_pending
        (λ _. ap (λ x. x.1) (mode_start-Apart os mode_md0 (clear_sigterm s).1)) (λ e. rw e)
    where
      Cleared : Unit {0} × Image W → Type 0
      Cleared r = r.1.pending ≡ record s.pending { sigterm_pending = false }

  process_sigint-pending :
      (s : Image W) → (process_sigint os s).1.pending ≡ record s.pending { sigint_pending = false }
  unfolding process_sigint
  process_sigint-pending s = if_cases Cleared s.pending.sigint_pending (λ _. refl) (λ e. rw e)
    where
      Cleared : Unit {0} × Image W → Type 0
      Cleared r = r.1.pending ≡ record s.pending { sigint_pending = false }

  process_sigchld-pending :
      (s : Image W)
      → (process_sigchld os s).1.pending ≡ record s.pending { sigchld_pending = false }
  unfolding process_sigchld
  process_sigchld-pending s =
      if_cases Cleared s.pending.sigchld_pending
        (λ _.
          reap_children-keeps (λ t. t.pending ≡ record s.pending { sigchld_pending = false })
            (λ t k. k) (λ pid status t k. child_exited-pending pid status t ∙ k) _
            (clear_sigchld s).1 refl)
        (λ e. rw e)
    where
      Cleared : Unit {0} × Image W → Type 0
      Cleared r = r.1.pending ≡ record s.pending { sigchld_pending = false }

  -- After signal_process none of the three signals is pending.
  pub signal_process-pending : (s : Image W) → (signal_process os s).1.pending ≡ none_pending
  unfolding signal_process
  signal_process-pending s =
      process_sigchld-pending _
      ∙ ap (λ (p : Pending). record p { sigchld_pending = false })
          (process_sigint-pending _
            ∙ ap (λ (p : Pending). record p { sigint_pending = false }) (process_sigterm-pending s))

  -- Without a pending signal nothing happens.
  pub signal_process-idle : (s : Image W) → s.pending ≡ none_pending → (signal_process os s).1 ≡ s
  unfolding signal_process process_sigterm process_sigint process_sigchld
  signal_process-idle s h = rw h (ground arith)

module _ {W : Type 0} (os : System W) (fk : Forks os) where
  child_exited-Halted :
      (pid : ℤ) (status : ℕ) (s : Image W)
      → Halted s.mode
      → Halted (child_exited os pid status s).1.mode
  child_exited-Halted pid status s h =
      rw (child_exited-mode, child_exit-Halted os pid (pos status) s h) h

  pub signal_process-Halted : (s : Image W) → Halted s.mode → Halted (signal_process os s).1.mode
  unfolding signal_process
  signal_process-Halted s h =
      process_sigchld-keeps os (λ t. Halted t.mode) (λ t k. k) (λ t k. k) child_exited-Halted _
        (process_sigint-keeps os (λ t. Halted t.mode) (λ t k. k) _
          (process_sigterm-keeps os (λ t. Halted t.mode)
            (λ t k. rw (mode_start-Halted os fk mode_md0 (clear_sigterm t).1 k) k) s h))

  process_sigterm-Halted :
      (s : Image W)
      → Operating s.mode
      → s.pending.sigterm_pending ≡ true
      → Halted (process_sigterm os s).1.mode
  unfolding process_sigterm
  process_sigterm-Halted s h p =
      if_cases (λ (r : Unit {0} × Image W). Halted r.1.mode) s.pending.sigterm_pending
        (λ _. shutdown-Halted os fk (mode_start-Transition os fk mode_md0 (clear_sigterm s).1) h)
        (λ n. cc)

  -- A SIGTERM that is pending in MD2 shuts the machine down.
  pub sigterm-Halted :
      (s : Image W)
      → Operating s.mode
      → s.pending.sigterm_pending ≡ true
      → Halted (signal_process os s).1.mode
  unfolding signal_process
  sigterm-Halted s h p =
      process_sigchld-keeps os (λ t. Halted t.mode) (λ t k. k) (λ t k. k) child_exited-Halted _
        (process_sigint-keeps os (λ t. Halted t.mode) (λ t k. k) _ (process_sigterm-Halted s h p))

module _ {W : Type 0} (os : System W) (st : Settles os) where
  -- It stops MD2's process and runs the MD0 program.
  pub process_sigterm-ShutsDown :
      (s : Image W)
      → s.pending.sigterm_pending ≡ true
      → Operating s.mode
      → ShutsDown os s (process_sigterm os s).1
  unfolding process_sigterm
  process_sigterm-ShutsDown s p h =
      if_cases (λ (r : Unit {0} × Image W). ShutsDown os s r.1) s.pending.sigterm_pending
        (λ _. mode_start-ShutsDown os st (clear_sigterm s).1 h) (λ n. cc)
