-- ===== src/Process.antt =====
-- [ENG]/process.c: children of this process. Messages on standard error are not modelled.
pub mod Children
pub mod Traces
pub mod Waiting
pub mod Quiet
pub mod Answers
use hail2_repos.Prelude.{
  ℕ, zero, suc, true, false, Option, none, some, List, [], ◌∷◌, ℤ, pos, minus_one, is_positive,
  eq_ℤ, Text, codes, ◌==◌, if◌then◌else◌,
}
use hail2_repos.Kernel.{
  System, Answer, done, failed, Waited, Out, M, pure, call, emit, spawned, signalled, collected,
  ◌>>=◌, ◌>>◌,
}
use hail2_repos.Kernel.Errno.{eintr, echild, esrch}
use hail2_repos.Log.{log_init, log_write, log_level_critical}

module _ {W : Type 0} (os : System W) where
  pub reported : Text → ℕ → M (Out W) (Unit {0})
  reported message level = do log_write os (some (codes "PROCESS")) (some message) level; pure tt

  pub process_log_error : Text → ℕ → M (Out W) (Unit {0})
  process_log_error message level = do
    opened ← log_init os
    if eq_ℤ opened (pos 0) then reported message level else pure tt

  pub spawn_forked : Text → Answer ℕ → M (Out W) ℤ
  spawn_forked program (done pid) = do emit (spawned (program ∷ []) pid); pure (pos pid)
  spawn_forked program (failed _) = do
    process_log_error (codes "FORK FAILED") log_level_critical
    pure minus_one

  pub process_spawn : Option Text → M (Out W) ℤ
  process_spawn none = do
    process_log_error (codes "PROCESS SPAWN INVALID PROGRAM") log_level_critical
    pure minus_one
  process_spawn (some program) = do r ← call os.fork; spawn_forked program r

  pub wait_failed : M (Out W) ℤ
  wait_failed = do process_log_error (codes "WAITPID FAILED") log_level_critical; pure minus_one

  -- one round of the loop of `process_wait`; `again` is the next one
  pub wait_answered : M (Out W) ℤ → ℤ → Answer Waited → M (Out W) ℤ
  wait_answered again pid (done x) = do emit (collected pid x.status); pure (pos x.status)
  wait_answered again pid (failed e) = if e == eintr then again else wait_failed

  -- `for (;;)` of `process_wait`, on fuel.
  pub wait_loop : ℕ → ℤ → M (Out W) ℤ
  wait_loop zero pid o = (minus_one, o)
  wait_loop (suc fuel) pid o =
      (do r ← call (os.waitpid pid false); wait_answered (wait_loop fuel pid) pid r) o

  pub process_wait : ℤ → M (Out W) ℤ
  process_wait pid o =
      if is_positive pid
      then wait_loop (suc (os.patience o.world)) pid o
      else (do
        process_log_error (codes "PROCESS WAIT INVALID PID") log_level_critical
        pure minus_one)
          o

  pub signal_answered : ℤ → ℤ → Answer (Unit {0}) → M (Out W) ℤ
  signal_answered pid sig (done _) = do emit (signalled pid sig); pure (pos 0)
  signal_answered pid sig (failed e) =
      if e == esrch
      then pure minus_one
      else (do process_log_error (codes "KILL FAILED") log_level_critical; pure minus_one)

  pub process_signal : ℤ → ℤ → M (Out W) ℤ
  process_signal pid sig =
      if is_positive pid
      then (if is_positive sig
          then (do r ← call (os.kill pid sig); signal_answered pid sig r)
          else (do
            process_log_error (codes "PROCESS SIGNAL INVALID SIGNAL") log_level_critical
            pure minus_one))
      else (do
        process_log_error (codes "PROCESS SIGNAL INVALID PID") log_level_critical
        pure minus_one)

  pub reap_failed : M (Out W) (ℤ × ℕ)
  reap_failed = do
    process_log_error (codes "PROCESS REAP WAITPID FAILED") log_level_critical
    pure (minus_one, 0)

  pub reap_found : ℕ → ℕ → M (Out W) (ℤ × ℕ)
  reap_found zero status = pure (pos 0, status)
  reap_found (suc p) status = do emit (collected (pos (suc p)) status); pure (pos (suc p), status)

  pub reap_answered : M (Out W) (ℤ × ℕ) → Answer Waited → M (Out W) (ℤ × ℕ)
  reap_answered again (done x) = reap_found x.pid x.status
  reap_answered again (failed e) =
      if e == eintr then again else if e == echild then pure (pos 0, 0) else reap_failed

  -- `for (;;)` of `process_reap`, on fuel. The status is that stored through the pointer.
  pub reap_loop : ℕ → M (Out W) (ℤ × ℕ)
  reap_loop zero o = ((minus_one, 0), o)
  reap_loop (suc fuel) o =
      (do r ← call (os.waitpid minus_one true); reap_answered (reap_loop fuel) r) o

  -- The callers pass the address of a variable, so the NULL check has no case here.
  pub process_reap : M (Out W) (ℤ × ℕ)
  process_reap o = reap_loop (suc (os.patience o.world)) o
