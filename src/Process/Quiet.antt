-- ===== src/Process/Quiet.antt =====
-- The functions of process.c and the events that the wait loops wait for.
use hail2_repos.Prelude.{
  ℕ, zero, suc, false, Option, none, some, ℤ, pos, is_positive, eq_ℤ, Text, codes, ◌==◌, if_cases,
  arith,
}
use hail2_repos.Kernel.{System, M, Answer, done, failed, Waited, Out}
use hail2_repos.Kernel.Errno.{eintr}
use hail2_repos.Kernel.Watchful.{Watchful}
use hail2_repos.Log.{log_init}
use hail2_repos.Log.Effects.{Quiet, say-Quiet, log_init-Quiet}
use hail2_repos.Process.{
  process_log_error, reported, process_spawn, spawn_forked, process_wait, wait_answered, wait_loop,
  wait_failed,
}

module _ {W : Type 0} (os : System W) (wt : Watchful os) where
  reported-Quiet : (m : Text) (level : ℕ) (o : Out W) → Quiet os o (reported os m level o)
  unfolding reported
  reported-Quiet m level o = say-Quiet os wt.settles (codes "PROCESS") m level o

  pub process_log_error-Quiet :
      (m : Text) (level : ℕ) (o : Out W) → Quiet os o (process_log_error os m level o)
  unfolding process_log_error
  process_log_error-Quiet m level o =
      let opened = log_init-Quiet os wt.settles o in
      if_cases (λ (f : M (Out W) (Unit {0})). Quiet os o (f (log_init os o).1))
        (eq_ℤ (log_init os o).0 (pos 0))
        (λ _. omega (arith, reported-Quiet m level (log_init os o).1)) (λ _. opened)

  spawn_forked-Quiet :
      (program : Text) (r : Answer ℕ) (o : Out W) → Quiet os o (spawn_forked os program r o)
  unfolding spawn_forked
  spawn_forked-Quiet program (done pid) o = omega arith
  spawn_forked-Quiet program (failed e) o = process_log_error-Quiet _ _ o

  pub process_spawn-Quiet :
      (program : Option Text) (o : Out W) → Quiet os o (process_spawn os program o)
  unfolding process_spawn
  process_spawn-Quiet none o = process_log_error-Quiet _ _ o
  process_spawn-Quiet (some program) o =
      let (r, w) = os.fork o.world in
      omega (arith, wt.quiet_fork o.world, spawn_forked-Quiet program r (record o { world = w }))

  wait_answered-Quiet :
      (again : M (Out W) ℤ) (pid : ℤ) (r : Answer Waited) (o : Out W)
      → Quiet os o (again o)
      → Quiet os o (wait_answered os again pid r o)
  unfolding wait_answered wait_failed
  wait_answered-Quiet again pid (done x) o h = omega arith
  wait_answered-Quiet again pid (failed e) o h =
      if_cases (λ (f : M (Out W) ℤ). Quiet os o (f o)) (e == eintr) (λ _. h)
        (λ _. process_log_error-Quiet _ _ o)

  wait_loop-Quiet : (fuel : ℕ) (pid : ℤ) (o : Out W) → Quiet os o (wait_loop os fuel pid o)
  unfolding wait_loop
  wait_loop-Quiet zero pid o = omega arith
  wait_loop-Quiet (suc fuel) pid o =
      let (r, w) = os.waitpid pid false o.world in
      let o' = record o { world = w } in
      omega (
        arith,
        wt.quiet_waitpid pid false o.world,
        wait_answered-Quiet (wait_loop os fuel pid) pid r o' (wait_loop-Quiet fuel pid o'),
      )

  pub process_wait-Quiet : (pid : ℤ) (o : Out W) → Quiet os o (process_wait os pid o)
  unfolding process_wait
  process_wait-Quiet pid o =
      if_cases (Quiet os o) (is_positive pid)
        (λ _. wait_loop-Quiet (suc (os.patience o.world)) pid o)
        (λ _. process_log_error-Quiet _ _ o)
