-- ===== src/Signals.antt =====
-- [ENG]/signal.c: the flags that the handler sets, and their processing outside the handler.
pub mod Draining
pub mod Handling
pub mod Idle
use hail2_repos.Prelude.{
  ℕ, zero, suc, Bool, true, false, not, ℤ, pos, is_positive, eq_ℤ, if◌then◌else◌,
}
use hail2_repos.Kernel.{System, Answer, done, failed, Out, M, pure, call, ◌>>=◌, ◌>>◌}
use hail2_repos.Kernel.SignalNumber.{sigterm, sigint, sigchld}
use hail2_repos.Process.{process_reap}
use hail2_repos.Image.{Image, Pending, lift}
use hail2_repos.Mode.{mode_start, mode_child_exit}
use hail2_repos.Mode.Exits.{mode_md0}
use hail2_repos.Load.Table.{load_child_exit}

unfoldable pub signal_handler : ℤ → Pending → Pending
signal_handler sig p =
    if eq_ℤ sig sigchld
    then record p { sigchld_pending = true }
    else if eq_ℤ sig sigterm
    then record p { sigterm_pending = true }
    else if eq_ℤ sig sigint
    then record p { sigint_pending = true }
    else p

module _ {W : Type 0} where
  abbrev pub clear_sigterm : M (Image W) (Unit {0})
  clear_sigterm s = (tt, record s { pending = record s.pending { sigterm_pending = false } })

  abbrev pub clear_sigint : M (Image W) (Unit {0})
  clear_sigint s = (tt, record s { pending = record s.pending { sigint_pending = false } })

  abbrev pub clear_sigchld : M (Image W) (Unit {0})
  clear_sigchld s = (tt, record s { pending = record s.pending { sigchld_pending = false } })

  -- load_child_exit on the static table
  abbrev pub table_child_exit : ℤ → M (Image W) (Unit {0})
  table_child_exit pid s = (tt, record s { load = load_child_exit pid s.load })

module _ {W : Type 0} (os : System W) where
  -- signal_setup after SIGTERM's handler: a failure returns
  pub sigterm_set : Answer (Unit {0}) → M (Out W) (Unit {0})
  sigterm_set (failed e) = pure tt
  sigterm_set (done _) = do call (os.sigaction sigint); pure tt

  pub sigchld_set : Answer (Unit {0}) → M (Out W) (Unit {0})
  sigchld_set (failed e) = pure tt
  sigchld_set (done _) = do r ← call (os.sigaction sigterm); sigterm_set r

  pub signal_setup : M (Out W) (Unit {0})
  signal_setup = do r ← call (os.sigaction sigchld); sigchld_set r

  -- both subsystems are told of the exit
  pub child_exited : ℤ → ℕ → M (Image W) (Unit {0})
  child_exited pid status = do mode_child_exit os pid (pos status); table_child_exit pid

  -- the `for (;;)` that collects children, on fuel
  pub reap_children : ℕ → M (Image W) (Unit {0})
  reap_children zero s = (tt, s)
  reap_children (suc fuel) s =
      let (r, s1) = lift (process_reap os) s in
      let rest = reap_children fuel (child_exited r.0 r.1 s1).1 in
      if is_positive r.0 then rest else (tt, s1)

  pub process_sigterm : M (Image W) (Unit {0})
  process_sigterm s =
      if s.pending.sigterm_pending then (do clear_sigterm; mode_start os mode_md0) s else (tt, s)

  pub process_sigint : M (Image W) (Unit {0})
  process_sigint s = if s.pending.sigint_pending then clear_sigint s else (tt, s)

  pub process_sigchld : M (Image W) (Unit {0})
  process_sigchld s =
      if s.pending.sigchld_pending
      then (do clear_sigchld; reap_children (suc (os.patience s.out.world))) s
      else (tt, s)

  pub signal_process : M (Image W) (Unit {0})
  signal_process = do process_sigterm; process_sigint; process_sigchld
