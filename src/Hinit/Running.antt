-- ===== src/Hinit/Running.antt =====
-- The run of PID 1, from its start on.
use hail2_repos.Prelude.{◌≡◌, refl, true, ℤ, List, [], ◌∷◌, ◌++◌, arith}
use hail2_repos.Kernel.{System, Settles, Forks}
use hail2_repos.Kernel.SignalNumber.{sigterm}
use hail2_repos.Image.{Image, Pending}
use hail2_repos.Mode.Frame.{Operating, Idle}
use hail2_repos.Mode.Tracking.{Halted}
use hail2_repos.Mode.Order.{ShutsDown}
use hail2_repos.Signals.{signal_handler, signal_process, process_sigterm}
use hail2_repos.Signals.Idle.{signal_process-Idle}
use hail2_repos.Signals.Handling.{process_sigterm-ShutsDown, signal_process-Halted, sigterm-Halted}
use hail2_repos.Hinit.{suspend, main_loop}

module _ {W : Type 0} (os : System W) where
  suspend-mode : (sigs : List ℤ) (s : Image W) → (suspend os sigs s).1.mode ≡ s.mode
  unfolding suspend
  suspend-mode [] s = refl
  suspend-mode (sig ∷ sigs) s =
      suspend-mode sigs (record s { pending = signal_handler sig s.pending })

  -- A flag that is set stays set while signals arrive.
  signal_handler-sigterm :
      (sig : ℤ) (p : Pending)
      → p.sigterm_pending ≡ true
      → (signal_handler sig p).sigterm_pending ≡ true
  unfolding signal_handler
  signal_handler-sigterm sig p h = ground arith

  suspend-kept :
      (sigs : List ℤ) (s : Image W)
      → s.pending.sigterm_pending ≡ true
      → (suspend os sigs s).1.pending.sigterm_pending ≡ true
  unfolding suspend
  suspend-kept [] s h = h
  suspend-kept (sig ∷ sigs) s h =
      suspend-kept sigs (record s { pending = signal_handler sig s.pending })
        (signal_handler-sigterm sig s.pending h)

  suspend-sigterm :
      (before after : List ℤ) (s : Image W)
      → (suspend os (before ++ (sigterm ∷ after)) s).1.pending.sigterm_pending ≡ true
  unfolding suspend
  suspend-sigterm [] after s =
      suspend-kept after (record s { pending = signal_handler sigterm s.pending })
        (unfold signal_handler in refl)
  suspend-sigterm (sig ∷ before) after s =
      suspend-sigterm before after (record s { pending = signal_handler sig s.pending })

module _ {W : Type 0} (os : System W) (fk : Forks os) where
  main_loop-Halted :
      (rounds : List (List ℤ)) (s : Image W) → Halted s.mode → Halted (main_loop os rounds s).1.mode
  unfolding main_loop
  main_loop-Halted [] s h = h
  main_loop-Halted (sigs ∷ rest) s h =
      main_loop-Halted rest _ (rw suspend-mode (signal_process-Halted os fk s h))

  -- Where every call returns, fork returns positive pids to the parent and interruptions are
  -- finite, when PID 1 is in MD2 before it suspends and SIGTERM is among the signals that
  -- arrive, then its handling of SIGTERM sends SIGTERM to the process of MD2 and collects it,
  -- and then starts the MD0 program and collects it, each unless kill, waitpid or fork fails;
  -- and after the next round, and after all later ones, the controller's variables say that the
  -- mode is MD0 and that no process of MD2 is tracked, whatever other signals arrive.
  pub sigterm-shutdown :
      (st : Settles os) (before after next : List ℤ) (rounds : List (List ℤ)) (s : Image W)
      → Operating (signal_process os s).1.mode
      → let arrived = (suspend os (before ++ (sigterm ∷ after)) (signal_process os s).1).1 in
        ShutsDown os arrived (process_sigterm os arrived).1
        × Halted (main_loop os ((before ++ (sigterm ∷ after)) ∷ (next ∷ rounds)) s).1.mode
  unfolding main_loop
  sigterm-shutdown st before after next rounds s h =
      let t = (signal_process os s).1 in
      let arrived = (suspend os (before ++ (sigterm ∷ after)) t).1 in
      let came = suspend-sigterm os before after t in
      let operating : Operating arrived.mode = rw suspend-mode h in
      (
        process_sigterm-ShutsDown os st arrived came operating,
        main_loop-Halted rounds _ (rw suspend-mode (sigterm-Halted os fk _ operating came)),
      )

  -- Where fork returns positive pids to the parent, when PID 1 is in no mode with no process of
  -- MD2, it stays so, whatever signals arrive, SIGTERM included.
  pub main_loop-Idle :
      (rounds : List (List ℤ)) (s : Image W) → Idle s.mode → Idle (main_loop os rounds s).1.mode
  unfolding main_loop
  main_loop-Idle [] s h = h
  main_loop-Idle (sigs ∷ rest) s h =
      main_loop-Idle rest _ (rw suspend-mode (signal_process-Idle os fk s h))
