-- ===== src/Hsv/Stop.antt =====
-- [ENG]/hsv.c: the stop of the service's process.
pub mod Leaving
use hail2_repos.Prelude.{
  ℕ, zero, suc, true, false, ◌*◌, ℤ, pos, minus_one, is_positive, eq_ℤ, codes, ◌==◌, if◌then◌else◌,
}
use hail2_repos.Kernel.{System, Answer, done, failed, Waited, M, pure, emit, polled, ◌>>=◌, ◌>>◌}
use hail2_repos.Kernel.Errno.{eintr, esrch, echild}
use hail2_repos.Kernel.SignalNumber.{sigterm, sigkill}
use hail2_repos.Log.{log_level_warn}
use hail2_repos.Hsv.Control.{Supervisor, outer, hsv_log, hsv_kill, hsv_waitpid, hsv_sleep_ms}

abbrev pub hsv_stop_timeout : ℕ
hsv_stop_timeout = 5

module _ {W : Type 0} (os : System W) where
  -- one round of the last loop of `hsv_stop_service`
  pub force_answered : M (Supervisor W) (Unit {0}) → Answer Waited → M (Supervisor W) (Unit {0})
  force_answered again (done x) = pure tt
  force_answered again (failed e) = if e == eintr then again else pure tt

  -- that loop, on fuel
  pub force_wait : ℕ → ℤ → M (Supervisor W) (Unit {0})
  force_wait zero pid s = (tt, s)
  force_wait (suc fuel) pid s =
      (do r ← hsv_waitpid os false pid; force_answered (force_wait fuel pid) r) s

  pub force_begin : ℤ → M (Supervisor W) (Unit {0})
  force_begin pid s = force_wait (suc (os.patience s.out.world)) pid s

  pub force_killed : ℤ → Answer (Unit {0}) → M (Supervisor W) (Unit {0})
  force_killed pid (done _) = force_begin pid
  force_killed pid (failed e) = if e == esrch then pure tt else force_begin pid

  pub force_stop : ℤ → M (Supervisor W) (Unit {0})
  force_stop pid = do
    hsv_log os (codes "SERVICE DID NOT STOP, USING SIGKILL") log_level_warn
    r ← hsv_kill os pid sigkill
    force_killed pid r

  -- one round of the loop over `elapsed`
  pub stop_polled : M (Supervisor W) (Unit {0}) → ℤ → Answer Waited → M (Supervisor W) (Unit {0})
  stop_polled again pid (done x) =
      if eq_ℤ (pos x.pid) pid then pure tt else (do hsv_sleep_ms os 100; again)
  stop_polled again pid (failed e) =
      if e == eintr then again else if e == echild then pure tt else pure tt

  -- the loop over `elapsed`, for the rounds that are left, and what follows it
  pub stop_wait : ℕ → ℤ → M (Supervisor W) (Unit {0})
  stop_wait zero pid = force_stop pid
  stop_wait (suc rounds) pid = do
    outer (emit (polled pid))
    r ← hsv_waitpid os true pid
    stop_polled (stop_wait rounds pid) pid r

  pub stop_killed : ℤ → Answer (Unit {0}) → M (Supervisor W) (Unit {0})
  stop_killed pid (done _) = stop_wait (hsv_stop_timeout * 10) pid
  stop_killed pid (failed e) = if e == esrch then pure tt else stop_wait (hsv_stop_timeout * 10) pid

  pub hsv_stop_service : ℤ → M (Supervisor W) (Unit {0})
  hsv_stop_service pid =
      if is_positive pid then (do r ← hsv_kill os pid sigterm; stop_killed pid r) else pure tt
