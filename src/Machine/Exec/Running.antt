-- ===== src/Machine/Exec/Running.antt =====
-- exec_program runs one program to its end.
use hail2_repos.Prelude.{
  ℕ, zero, suc, ◌<◌, ◌≡◌, ◌≢◌, refl, ap, ◌⊎◌, inl, inr, false, not, List, ◌∷◌, ℤ, pos, minus_one,
  Text, ◌==◌, ==_iff, ne_of_test, if_cases, if◌then◌else◌, arith,
}
use hail2_repos.Kernel.{
  System, Settles, Answer, done, failed, Waited, Event, spawned, collected, Out,
}
use hail2_repos.Kernel.Errno.{eintr}
use hail2_repos.Kernel.WaitStatus.{if_exited, exit_status, if_signaled}
use hail2_repos.Machine.Exec.{
  exec_status, exec_waited, exec_loop, exec_begin, exec_forked, exec_program,
}

-- the exit status of a program that exited, and -1 for one that did not
abbrev pub status_result : ℕ → ℤ
status_result status =
    if if_signaled status
    then minus_one
    else if not (if_exited status)
    then minus_one
    else pos (exit_status status)

-- the wait for the child: it ends with its status, or waitpid fails other than by a signal
abbrev pub Waits : {W : Type 0} → System W → ℕ → List Event → ℤ → List Event → Type 0
Waits {W} os pid old result new =
    ((status : ℕ) × (result ≡ status_result status) × (new ≡ collected (pos pid) status ∷ old))
    ⊎ ((e : ℕ) × (w : W) × ((os.waitpid (pos pid) false w).0 ≡ failed e)
        × (e ≢ eintr)
        × (result ≡ minus_one)
        × (new ≡ old))

-- A program that ran, or could not be started.
abbrev pub Ran : {W : Type 0} → System W → List Text → List Event → ℤ → List Event → Type 0
Ran {W} os argv old result new =
    ((e : ℕ) × (w : W) × ((os.fork w).0 ≡ failed e) × (result ≡ minus_one) × (new ≡ old))
    ⊎ ((pid : ℕ) × Waits os pid (spawned argv pid ∷ old) result new)

module _ {W : Type 0} (os : System W) where
  -- the result and the trace that `exec_status` leaves
  exec_status-result :
      (tag program : Text) (status : ℕ) (o : Out W)
      → ((exec_status os tag program status o).0 ≡ status_result status)
        × ((exec_status os tag program status o).1.trace ≡ o.trace)
  unfolding exec_status
  exec_status-result tag program status o =
      let P =
        λ (m : Out W → ℤ × Out W). ((m o).0 ≡ status_result status) × ((m o).1.trace ≡ o.trace) in
      if_cases P (if_signaled status) (λ t. rw t (refl, refl))
        (λ n.
          if_cases P (not (if_exited status)) (λ t. rw (n, t) (refl, refl))
            (λ t. rw (n, t) (refl, refl)))

  exec_waited-Waits :
      (again : Out W → ℤ × Out W) (tag program : Text) (pid : ℕ) (r : Answer Waited) (w : W)
      (o : Out W)
      → (os.waitpid (pos pid) false w).0 ≡ r
      → (r ≡ failed eintr → Waits os pid o.trace (again o).0 (again o).1.trace)
      → let q = exec_waited os again tag program (pos pid) r o in Waits os pid o.trace q.0 q.1.trace
  unfolding exec_waited
  exec_waited-Waits again tag program pid (done x) w o e h =
      let s =
        exec_status-result tag program x.status
          (record o { trace = collected (pos pid) x.status ∷ o.trace }) in
      inl (x.status, s.0, s.1)
  exec_waited-Waits again tag program pid (failed k) w o e h =
      if_cases (λ (m : Out W → ℤ × Out W). Waits os pid o.trace (m o).0 (m o).1.trace) (k == eintr)
        (λ t. h (ap failed ((==_iff k eintr).0 t)))
        (λ n. inr (k, w, e, ne_of_test k eintr n, refl, refl))

  module _ (st : Settles os) where
    exec_loop-Waits :
        (fuel : ℕ) (tag program : Text) (pid : ℕ) (o : Out W)
        → os.patience o.world < fuel
        → let q = exec_loop os fuel tag program (pos pid) o in Waits os pid o.trace q.0 q.1.trace
    unfolding exec_loop
    exec_loop-Waits zero tag program pid o h = absurd (omega (arith, h))
    exec_loop-Waits (suc fuel) tag program pid o h =
        exec_waited-Waits (exec_loop os fuel tag program (pos pid)) tag program pid
          (os.waitpid (pos pid) false o.world).0 o.world
          (record o { world = (os.waitpid (pos pid) false o.world).1 }) refl
          λ e.
            exec_loop-Waits fuel tag program pid _
              (omega (arith, h, st.interrupted (pos pid) false o.world e))

    exec_forked-Ran :
        (tag program : Text) (argv : List Text) (r : Answer ℕ) (w : W) (o : Out W)
        → (os.fork w).0 ≡ r
        → let q = exec_forked os tag program argv r o in Ran os argv o.trace q.0 q.1.trace
    unfolding exec_forked exec_begin
    exec_forked-Ran tag program argv (failed k) w o e = inl (k, w, e, refl, refl)
    exec_forked-Ran tag program argv (done pid) w o e = inr (
      pid,
      exec_loop-Waits (suc (os.patience o.world)) tag program pid
          (record o { trace = spawned argv pid ∷ o.trace }) (omega arith),
    )

    -- The program is not started when fork fails; else it is started once and waited for until its
    -- status is collected, which gives the result, or until waitpid fails other than by a signal.
    -- The wait ends when interruptions are finitely many.
    pub exec_program-Ran :
        (tag program : Text) (argv : List Text) (o : Out W)
        → let q = exec_program os tag program argv o in Ran os argv o.trace q.0 q.1.trace
    unfolding exec_program
    exec_program-Ran tag program argv o =
        exec_forked-Ran tag program argv (os.fork o.world).0 o.world
          (record o { world = (os.fork o.world).1 }) refl
