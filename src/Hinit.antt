-- ===== src/Hinit.antt =====
-- [ENG]/hinit.c: PID 1.
pub mod Running
use hail2_repos.Prelude.{
  ℕ, Bool, true, false, List, [], ◌∷◌, ℤ, pos, is_negative, codes, if◌then◌else◌,
}
use hail2_repos.Kernel.{System, Answer, done, failed, block, M, pure, call, ◌>>=◌, ◌>>◌}
use hail2_repos.Kernel.SignalNumber.{sigterm, sigint, sigchld}
use hail2_repos.Log.{log_init, log_close, say, log_level_log, log_level_critical}
use hail2_repos.Image.{Image, lift}
use hail2_repos.Mode.{mode_init}
use hail2_repos.Signals.{signal_handler, signal_setup, signal_process}

module _ {W : Type 0} (os : System W) where
  pub masked : Answer (Unit {0}) → M (Image W) Bool
  masked (failed _) = do
    lift (say os (codes "HINIT") (codes "SIGPROCMASK FAILED") log_level_critical)
    lift log_close
    pure false
  masked (done _) = do mode_init os; pure true

  pub logging : M (Image W) Bool
  logging = do
    lift (say os (codes "HINIT") (codes "STARTING PID 1") log_level_log)
    lift (signal_setup os)
    r ← lift (call (os.sigprocmask (block (sigchld ∷ sigterm ∷ sigint ∷ []))))
    masked r

  -- `main` up to its loop: true when the loop is entered, false for `return 1`.
  pub boot : M (Image W) Bool
  boot = do opened ← lift (log_init os); if is_negative opened then pure false else logging

  -- sigsuspend: the handler runs for each signal that was waiting or comes.
  pub suspend : List ℤ → M (Image W) (Unit {0})
  suspend [] s = (tt, s)
  suspend (sig ∷ sigs) s = suspend sigs (record s { pending = signal_handler sig s.pending })

  -- the loop of `main`, for the signals that each sigsuspend lets through
  pub main_loop : List (List ℤ) → M (Image W) (Unit {0})
  main_loop [] s = (tt, s)
  main_loop (sigs ∷ rest) s = main_loop rest (suspend sigs (signal_process os s).1).1

  -- `main`, for the signals that come: false for `return 1`
  pub main : List (List ℤ) → M (Image W) Bool
  main rounds = do entered ← boot; if entered then (do main_loop rounds; pure true) else pure false
