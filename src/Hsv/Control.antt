-- ===== src/Hsv/Control.antt =====
-- [ENG]/hsv.c: the flags that the handler sets, the paths and the run of a service's scripts, and
-- sleeping.
pub mod Effects
pub mod Flags
pub mod Paths
pub mod Kills
pub mod Waits
use hail2_repos.Prelude.{
  ℕ, zero, suc, ◌+◌, ◌*◌, ◌/◌, ◌%◌, Bool, true, false, not, ◌&&◌, ◌||◌, Option, none, some, List,
  [], ◌∷◌, ℤ, pos, minus_one, is_negative, eq_ℤ, Text, codes, joined, fitted, ◌==◌, if◌then◌else◌,
}
use hail2_repos.Kernel.{
  System, Answer, done, failed, Timespec, Out, M, pure, call, emit, signalled, collected,
  unreachable, Waited, ◌>>=◌, ◌>>◌,
}
use hail2_repos.Kernel.Errno.{eintr, enoent, esrch, enotdir, eacces}
use hail2_repos.Kernel.SignalNumber.{sigterm, sigusr1}
use hail2_repos.Log.{say}
use hail2_repos.Process.{process_spawn, process_wait}

-- The static variables: those of log.c and the calls made, and the two flags.
pub record Supervisor (W : Type 0) : Type 0 where
  pub out : Out W
  pub shutting_down : Bool
  pub restart_requested : Bool

module _ {W : Type 0} where
  unfoldable pub hsv_signal : ℤ → Supervisor W → Supervisor W
  hsv_signal sig s =
      if eq_ℤ sig sigterm
      then record s { shutting_down = true }
      else if eq_ℤ sig sigusr1
      then record s { restart_requested = true }
      else s

  -- the handler, for each signal that came
  unfoldable pub hsv_signals : List ℤ → Supervisor W → Supervisor W
  hsv_signals [] s = s
  hsv_signals (sig ∷ sigs) s = hsv_signals sigs (hsv_signal sig s)

  abbrev pub clear_restart : M (Supervisor W) (Unit {0})
  clear_restart s = (tt, record s { restart_requested = false })

module _ {W A : Type 0} where
  -- code of log.c or process.c, or a call of the system
  abbrev pub outer : M (Out W) A → M (Supervisor W) A
  outer m s = let (a, o) = m s.out in (a, record s { out = o })

-- The path that is left in the buffer, and `none` for the result -1.
pub hsv_build_path : ℕ → Option Text → Option Text → Option Text
hsv_build_path size (some service) (some script) = fitted size (joined service script)
hsv_build_path size _ _ = none

module _ {W : Type 0} (os : System W) where
  -- The signals that came are handled: this may be before any look at a flag.
  unfoldable pub deliver : M (Supervisor W) (Unit {0})
  deliver s =
      let (sigs, w) = os.arrivals s.out.world in
      (tt, hsv_signals sigs (record s { out = record s.out { world = w } }))

  unfoldable pub hsv_log : Text → ℕ → M (Supervisor W) (Unit {0})
  hsv_log message level = do outer (say os (codes "HSV") message level); pure tt

  -- waitpid, with its event: it handed the process over, or failed other than by a signal.
  pub waitpid_answered : Bool → ℤ → Answer Waited → M (Supervisor W) (Answer Waited)
  waitpid_answered nohang pid (done x) =
      if nohang && not (eq_ℤ (pos x.pid) pid)
      then pure (done x)
      else (do outer (emit (collected pid x.status)); pure (done x))
  waitpid_answered nohang pid (failed e) =
      if e == eintr then pure (failed e) else (do outer (emit (unreachable pid e)); pure (failed e))

  pub hsv_waitpid : Bool → ℤ → M (Supervisor W) (Answer Waited)
  hsv_waitpid nohang pid = do
    r ← outer (call (os.waitpid pid nohang))
    waitpid_answered nohang pid r

  -- kill, with its event: it sent the signal, or there is no such process.
  pub kill_answered : ℤ → ℤ → Answer (Unit {0}) → M (Supervisor W) (Answer (Unit {0}))
  kill_answered pid sig (done u) = do outer (emit (signalled pid sig)); pure (done u)
  kill_answered pid sig (failed e) =
      if e == esrch then (do outer (emit (unreachable pid e)); pure (failed e)) else pure (failed e)

  pub hsv_kill : ℤ → ℤ → M (Supervisor W) (Answer (Unit {0}))
  hsv_kill pid sig = do r ← outer (call (os.kill pid sig)); kill_answered pid sig r

  pub script_wait : ℤ → M (Supervisor W) ℤ
  script_wait pid = do
    status ← outer (process_wait os pid)
    if is_negative status then pure minus_one else pure status

  pub script_found : Text → Answer (Unit {0}) → M (Supervisor W) ℤ
  script_found path (failed e) =
      if e == enoent || (e == enotdir || e == eacces) then pure (pos 0) else pure minus_one
  script_found path (done _) = do
    pid ← outer (process_spawn os (some path))
    if is_negative pid then pure minus_one else script_wait pid

  -- Only called with a buffer: the NULL check has no case here.
  pub hsv_exec_script : Text → M (Supervisor W) ℤ
  hsv_exec_script path = do r ← outer (call (os.access path)); script_found path r

  pub sleep_flagged : M (Supervisor W) (Unit {0}) → M (Supervisor W) (Unit {0})
  sleep_flagged again s = if s.shutting_down || s.restart_requested then (tt, s) else again s

  -- one round of the loop of `hsv_sleep_ms`; `again` is the next one
  pub sleep_answered : M (Supervisor W) (Unit {0}) → Answer (Unit {0}) → M (Supervisor W) (Unit {0})
  sleep_answered again (done _) = pure tt
  sleep_answered again (failed e) =
      if e == eintr then (do deliver; sleep_flagged again) else pure tt

  -- `while (nanosleep (...) < 0)`, on fuel
  pub sleep_loop : ℕ → Timespec → M (Supervisor W) (Unit {0})
  sleep_loop zero request s = (tt, s)
  sleep_loop (suc fuel) request s =
      (do r ← outer (call (os.nanosleep request)); sleep_answered (sleep_loop fuel r.1) r.0) s

  pub hsv_sleep_ms : ℕ → M (Supervisor W) (Unit {0})
  hsv_sleep_ms milliseconds s =
      sleep_loop (suc (os.patience s.out.world))
        (record { tv_sec = milliseconds / 1000; tv_nsec = milliseconds % 1000 * 1000000 }) s
