-- ===== src/Hsv/Supervise.antt =====
-- [ENG]/hsv.c: the supervision of a service, and the end of the supervisor.
pub mod Lives
pub mod Ending
pub mod Exiting
use hail2_repos.Prelude.{
  ℕ, zero, suc, ◌<◌, Bool, true, false, Option, none, some, List, [], ◌∷◌, ◌++◌, ℤ, pos, minus_one,
  is_negative, eq_ℤ, Text, codes, snprintf, ◌==◌, if◌then◌else◌,
}
use hail2_repos.Kernel.{System, Answer, done, failed, Waited, M, pure, call, ◌>>=◌, ◌>>◌}
use hail2_repos.Kernel.Errno.{eintr, echild}
use hail2_repos.Kernel.SignalNumber.{sigterm, sigusr1}
use hail2_repos.Log.{log_level_log, log_level_warn, log_level_critical, log_level_fatal}
use hail2_repos.Process.{process_spawn}
use hail2_repos.Load.Table.{path_max}
use hail2_repos.Hsv.Control.{
  Supervisor, clear_restart, outer, hsv_build_path, deliver, hsv_log, hsv_waitpid, hsv_exec_script,
  hsv_sleep_ms,
}
use hail2_repos.Hsv.Stop.{hsv_stop_service}

-- `run_path`, `stop_path` and `finish_path` of `main`
pub record Scripts : Type 0 where
  pub run_path : Text
  pub stop_path : Text
  pub finish_path : Text

module _ {W : Type 0} (os : System W) where
  -- A script whose failure is only logged.
  pub hook : Text → Text → M (Supervisor W) (Unit {0})
  hook path message = do
    r ← hsv_exec_script os path
    if is_negative r then hsv_log os message log_level_warn else pure tt

  -- The explicit restart: it leaves the inner loop.
  pub restart_service : Scripts → ℤ → M (Supervisor W) (Unit {0})
  restart_service scripts pid = do
    clear_restart
    hsv_log os (codes "SERVICE RESTART REQUESTED") log_level_log
    hsv_stop_service os pid
    hook scripts.stop_path (codes "SERVICE STOP HOOK FAILED")

  pub shutdown_tested : M (Supervisor W) (Unit {0}) → ℤ → M (Supervisor W) (Unit {0})
  shutdown_tested again pid s =
      if s.shutting_down then hsv_stop_service os pid s else (do hsv_sleep_ms os 100; again) s

  pub restart_tested : M (Supervisor W) (Unit {0}) → Scripts → ℤ → M (Supervisor W) (Unit {0})
  restart_tested again scripts pid s =
      if s.restart_requested
      then restart_service scripts pid s
      else (do deliver os; shutdown_tested again pid) s

  -- one round of the inner loop; `again` is the next one
  pub watch_answered :
      M (Supervisor W) (Unit {0}) → Scripts → ℤ → Answer Waited → M (Supervisor W) (Unit {0})
  watch_answered again scripts pid (done x) =
      if eq_ℤ (pos x.pid) pid then pure tt else (do deliver os; restart_tested again scripts pid)
  watch_answered again scripts pid (failed e) =
      if e == eintr then again else if e == echild then pure tt else (do
        hsv_log os (codes "WAITPID FAILED WHILE SUPERVISING SERVICE") log_level_critical
        pure tt)

  -- the inner loop, on fuel
  pub watch : ℕ → Scripts → ℤ → M (Supervisor W) (Unit {0})
  watch zero scripts pid s = (tt, s)
  watch (suc fuel) scripts pid s =
      (do r ← hsv_waitpid os true pid; watch_answered (watch fuel scripts pid) scripts pid r) s

  pub watch_begin : Scripts → ℤ → M (Supervisor W) (Unit {0})
  watch_begin scripts pid s = watch (suc (os.patience s.out.world)) scripts pid s

  pub restart_delayed : M (Supervisor W) Bool → M (Supervisor W) Bool
  restart_delayed again s =
      if s.restart_requested
      then again s
      else (do
        hsv_log os (codes "SERVICE EXITED, RESTARTING") log_level_warn
        hsv_sleep_ms os 1000
        again)
          s

  -- the tests after the inner loop
  pub service_left : M (Supervisor W) Bool → M (Supervisor W) Bool
  service_left again s =
      if s.shutting_down then (true, s) else (do deliver os; restart_delayed again) s

  pub spawn_answered : M (Supervisor W) Bool → Scripts → ℤ → M (Supervisor W) Bool
  spawn_answered again scripts pid =
      if is_negative pid
      then (do
        hsv_log os (codes "FAILED TO START SERVICE") log_level_critical
        hsv_sleep_ms os 1000
        again)
      else (do watch_begin scripts pid; deliver os; service_left again)

  -- one round of the outer loop
  pub supervise_round : M (Supervisor W) Bool → Scripts → M (Supervisor W) Bool
  supervise_round again scripts s =
      if s.shutting_down
      then (true, s)
      else (do
        pid ← outer (process_spawn os (some scripts.run_path))
        spawn_answered again scripts pid)
          s

  -- the outer loop, on fuel: false when the fuel ran out
  pub supervise : ℕ → Scripts → M (Supervisor W) Bool
  supervise zero scripts s = (false, s)
  supervise (suc fuel) scripts s =
      (do deliver os; supervise_round (supervise fuel scripts) scripts) s

  -- what follows the outer loop
  pub hsv_finish : Scripts → M (Supervisor W) ℕ
  hsv_finish scripts = do
    hsv_log os (codes "SUPERVISOR SHUTTING DOWN") log_level_log
    hook scripts.stop_path (codes "SERVICE STOP HOOK FAILED DURING SHUTDOWN")
    hook scripts.finish_path (codes "SERVICE FINISH HOOK FAILED")
    hsv_log os (codes "SUPERVISOR EXITED") log_level_log
    pure 0

  -- EXIT_FAILURE, after a message
  pub fatal : Text → M (Supervisor W) (Option ℕ)
  fatal message = do hsv_log os message log_level_fatal; pure (some 1)

  pub supervised : Scripts → Bool → M (Supervisor W) (Option ℕ)
  supervised scripts true = do status ← hsv_finish scripts; pure (some status)
  supervised scripts false = pure none

  pub hsv_begin : Text → Scripts → M (Supervisor W) (Option ℕ)
  hsv_begin service scripts s =
      (do
        hsv_log os (snprintf 256 (codes "SUPERVISING SERVICE " ++ service)) log_level_log
        over ← λ t. supervise (suc (os.patience t.out.world)) scripts t
        supervised scripts over)
        s

  pub handlers : Text → Scripts → Answer (Unit {0}) → M (Supervisor W) (Option ℕ)
  handlers service scripts (failed _) = fatal (codes "SIGACTION SIGUSR1 FAILED")
  handlers service scripts (done _) = hsv_begin service scripts

  pub first_handler : Text → Scripts → Answer (Unit {0}) → M (Supervisor W) (Option ℕ)
  first_handler service scripts (failed _) = fatal (codes "SIGACTION SIGTERM FAILED")
  first_handler service scripts (done _) = do
    r ← outer (call (os.sigaction sigusr1))
    handlers service scripts r

  pub hsv_paths : Text → Option Text → Option Text → Option Text → M (Supervisor W) (Option ℕ)
  hsv_paths service none _ _ = fatal (codes "RUN PATH TOO LONG")
  hsv_paths service (some run) none _ = fatal (codes "STOP PATH TOO LONG")
  hsv_paths service (some run) (some stop) none = fatal (codes "FINISH PATH TOO LONG")
  hsv_paths service (some run) (some stop) (some finish) = do
    r ← outer (call (os.sigaction sigterm))
    first_handler service (record { run_path = run; stop_path = stop; finish_path = finish }) r

  -- `main`, for its arguments without the name of the program: the exit status, and `none` when the
  -- fuel ran out.
  pub hsv_main : List Text → M (Supervisor W) (Option ℕ)
  hsv_main (service ∷ []) =
      hsv_paths service (hsv_build_path path_max (some service) (some (codes "run")))
        (hsv_build_path path_max (some service) (some (codes "stop")))
        (hsv_build_path path_max (some service) (some (codes "finish")))
  hsv_main _ = fatal (codes "INVALID ARGUMENT COUNT")
