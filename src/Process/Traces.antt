-- ===== src/Process/Traces.antt =====
-- The events of the functions of process.c.
use hail2_repos.Prelude.{
  ℕ, zero, suc, ◌≡◌, refl, ◌⊎◌, inl, inr, ◌∙◌, false, some, List, [], ◌∷◌, ℤ, pos, minus_one,
  is_positive, eq_ℤ, Text, codes, ◌==◌, if_cases,
}
use hail2_repos.Kernel.{System, M, Waited, Answer, done, failed, Out, spawned, signalled, collected}
use hail2_repos.Kernel.Errno.{eintr, esrch}
use hail2_repos.Log.{log_init}
use hail2_repos.Log.Effects.{trace-say, trace-log_init}
use hail2_repos.Process.{
  process_log_error, reported, process_spawn, spawn_forked, process_wait, wait_answered, wait_loop,
  wait_failed, process_signal, signal_answered,
}

module _ {W : Type 0} (os : System W) where
  trace-reported : (m : Text) (level : ℕ) (o : Out W) → (reported os m level o).1.trace ≡ o.trace
  unfolding reported
  trace-reported m level o = trace-say os (codes "PROCESS") m level o

  pub trace-process_log_error :
      (m : Text) (level : ℕ) (o : Out W) → (process_log_error os m level o).1.trace ≡ o.trace
  unfolding process_log_error
  trace-process_log_error m level o =
      let (r, o') = log_init os o in
      if_cases (λ (f : M (Out W) (Unit {0})). (f (log_init os o).1).1.trace ≡ o.trace)
        (eq_ℤ (log_init os o).0 (pos 0)) (λ _. trace-reported m level _ ∙ trace-log_init os o)
        (λ _. trace-log_init os o)

  -- Either no child was made, or one was and its pid is returned.
  abbrev pub Spawns : List Text → Out W → ℤ × Out W → Type 0
  Spawns argv o r =
      ((r.0 ≡ minus_one) × (r.1.trace ≡ o.trace))
      ⊎ ((pid : ℕ) × (r.0 ≡ pos pid) × (r.1.trace ≡ spawned argv pid ∷ o.trace))

  spawn_forked-Spawns :
      (program : Text) (r : Answer ℕ) (o : Out W)
      → Spawns (program ∷ []) o (spawn_forked os program r o)
  unfolding spawn_forked
  spawn_forked-Spawns program (done pid) o = inr (pid, refl, refl)
  spawn_forked-Spawns program (failed e) o = inl (refl, trace-process_log_error _ _ o)

  pub process_spawn-Spawns :
      (program : Text) (o : Out W) → Spawns (program ∷ []) o (process_spawn os (some program) o)
  unfolding process_spawn
  process_spawn-Spawns program o =
      spawn_forked-Spawns program _ (record o { world = (os.fork o.world).1 })

  -- Either the child was not collected, or it was and its status is returned.
  abbrev pub Waits : ℤ → Out W → ℤ × Out W → Type 0
  Waits pid o r =
      ((r.0 ≡ minus_one) × (r.1.trace ≡ o.trace))
      ⊎ ((status : ℕ) × (r.0 ≡ pos status) × (r.1.trace ≡ collected pid status ∷ o.trace))

  wait_failed-Waits : (pid : ℤ) (o : Out W) → Waits pid o (wait_failed os o)
  unfolding wait_failed
  wait_failed-Waits pid o = inl (refl, trace-process_log_error _ _ o)

  wait_answered-Waits :
      (again : M (Out W) ℤ) (pid : ℤ) (r : Answer Waited) (o : Out W)
      → Waits pid o (again o)
      → Waits pid o (wait_answered os again pid r o)
  unfolding wait_answered
  wait_answered-Waits again pid (done x) o h = inr (x.status, refl, refl)
  wait_answered-Waits again pid (failed e) o h =
      if_cases (λ (f : M (Out W) ℤ). Waits pid o (f o)) (e == eintr) (λ _. h)
        (λ _. wait_failed-Waits pid o)

  wait_loop-Waits : (fuel : ℕ) (pid : ℤ) (o : Out W) → Waits pid o (wait_loop os fuel pid o)
  unfolding wait_loop
  wait_loop-Waits zero pid o = inl (refl, refl)
  wait_loop-Waits (suc fuel) pid o =
      let o' = record o { world = (os.waitpid pid false o.world).1 } in
      wait_answered-Waits (wait_loop os fuel pid) pid _ o' (wait_loop-Waits fuel pid o')

  pub process_wait-Waits : (pid : ℤ) (o : Out W) → Waits pid o (process_wait os pid o)
  unfolding process_wait
  process_wait-Waits pid o =
      if_cases (Waits pid o) (is_positive pid)
        (λ _. wait_loop-Waits (suc (os.patience o.world)) pid o)
        (λ _. inl (refl, trace-process_log_error _ _ o))

  -- Either no signal was sent, or the one asked for was.
  abbrev pub Signals : ℤ → ℤ → Out W → ℤ × Out W → Type 0
  Signals pid sig o r =
      ((r.0 ≡ minus_one) × (r.1.trace ≡ o.trace))
      ⊎ ((r.0 ≡ pos 0) × (r.1.trace ≡ signalled pid sig ∷ o.trace))

  signal_answered-Signals :
      (pid sig : ℤ) (r : Answer (Unit {0})) (o : Out W)
      → Signals pid sig o (signal_answered os pid sig r o)
  unfolding signal_answered
  signal_answered-Signals pid sig (done _) o = inr (refl, refl)
  signal_answered-Signals pid sig (failed e) o =
      if_cases (λ (f : M (Out W) ℤ). Signals pid sig o (f o)) (e == esrch) (λ _. inl (refl, refl))
        (λ _. inl (refl, trace-process_log_error _ _ o))

  pub process_signal-Signals :
      (pid sig : ℤ) (o : Out W) → Signals pid sig o (process_signal os pid sig o)
  unfolding process_signal
  process_signal-Signals pid sig o =
      if_cases (λ (f : M (Out W) ℤ). Signals pid sig o (f o)) (is_positive pid)
        (λ _.
          if_cases (λ (f : M (Out W) ℤ). Signals pid sig o (f o)) (is_positive sig)
            (λ _.
              signal_answered-Signals pid sig _ (record o { world = (os.kill pid sig o.world).1 }))
            (λ _. inl (refl, trace-process_log_error _ _ o)))
        (λ _. inl (refl, trace-process_log_error _ _ o))
