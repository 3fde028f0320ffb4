-- ===== src/Process/Answers.antt =====
-- What the functions of process.c leave undone is what the system refused.
use hail2_repos.Prelude.{
  ℕ, ◌≡◌, refl, ◌⊎◌, inl, inr, true, false, some, [], ◌∷◌, ℤ, pos, minus_one, is_positive, Text,
  ◌==◌, if_cases, Bool-cases,
}
use hail2_repos.Kernel.{System, Settles, Answer, done, failed, M, Out, spawned, collected}
use hail2_repos.Kernel.Errno.{esrch}
use hail2_repos.Kernel.Refusals.{NotCollected, NotForked, Sends}
use hail2_repos.Process.{process_spawn, spawn_forked, process_wait, process_signal, signal_answered}
use hail2_repos.Process.Traces.{process_wait-Waits, trace-process_log_error}
use hail2_repos.Process.Waiting.{Collects, child_left, gave_up, interrupted, process_wait-Collects}

-- A wait that ends with -1.
Collects-failed :
    {W : Type 0} (os : System W) (pid : ℤ) (w : W) (r : ℤ)
    → Collects os pid w r
    → r ≡ minus_one
    → NotCollected os pid
Collects-failed os pid w r (child_left v x e) h = cc h
Collects-failed os pid w r (gave_up v e h n) k = inr (e, v, h, n)
Collects-failed os pid w r (interrupted v e c) h =
    Collects-failed os pid (os.waitpid pid false v).1 r c h

module _ {W : Type 0} (os : System W) where
  pub process_wait-Gathers :
      (st : Settles os) (pid : ℤ) (o : Out W)
      → let r = process_wait os pid o in
        ((status : ℕ) × (r.0 ≡ pos status) × (r.1.trace ≡ collected pid status ∷ o.trace))
        ⊎ (NotCollected os pid × (r.0 ≡ minus_one) × (r.1.trace ≡ o.trace))
  process_wait-Gathers st pid o = elim (process_wait-Waits os pid o) [
    | inr h ↦ inl h
    | inl h ↦ elim (Bool-cases (is_positive pid)) [
      | inr n ↦ inr (inl n, h.0, h.1)
      | inl p ↦ inr (
        Collects-failed os pid o.world (process_wait os pid o).0
            (process_wait-Collects os st pid o p) h.0,
        h.0,
        h.1,
      )
    ]
  ]

  signal_answered-Sends :
      (pid sig : ℤ) (r : Answer (Unit {0})) (w : W) (o : Out W)
      → (os.kill pid sig w).0 ≡ r
      → Sends os pid sig o.trace (signal_answered os pid sig r o).1.trace
  unfolding signal_answered
  signal_answered-Sends pid sig (done _) w o h = inl refl
  signal_answered-Sends pid sig (failed e) w o h =
      if_cases (λ (f : M (Out W) ℤ). Sends os pid sig o.trace (f o).1.trace) (e == esrch)
        (λ _. inr ((e, w, h), refl)) (λ _. inr ((e, w, h), trace-process_log_error os _ _ o))

  pub process_signal-Sends :
      (pid sig : ℤ) (o : Out W)
      → is_positive pid ≡ true
      → is_positive sig ≡ true
      → Sends os pid sig o.trace (process_signal os pid sig o).1.trace
  unfolding process_signal
  process_signal-Sends pid sig o p q =
      let sent =
        signal_answered-Sends pid sig (os.kill pid sig o.world).0 o.world
          (record o { world = (os.kill pid sig o.world).1 }) refl in
      rw (p, q) sent

  spawn_forked-Forks :
      (program : Text) (r : Answer ℕ) (w : W) (o : Out W)
      → (os.fork w).0 ≡ r
      → let q = spawn_forked os program r o in
        ((pid : ℕ) × (q.0 ≡ pos pid) × (q.1.trace ≡ spawned (program ∷ []) pid ∷ o.trace))
        ⊎ (NotForked os × (q.0 ≡ minus_one) × (q.1.trace ≡ o.trace))
  unfolding spawn_forked
  spawn_forked-Forks program (done pid) w o h = inl (pid, refl, refl)
  spawn_forked-Forks program (failed e) w o h =
      inr ((e, w, h), refl, trace-process_log_error os _ _ o)

  pub process_spawn-Forks :
      (program : Text) (o : Out W)
      → let q = process_spawn os (some program) o in
        ((pid : ℕ) × (q.0 ≡ pos pid) × (q.1.trace ≡ spawned (program ∷ []) pid ∷ o.trace))
        ⊎ (NotForked os × (q.0 ≡ minus_one) × (q.1.trace ≡ o.trace))
  unfolding process_spawn
  process_spawn-Forks program o =
      spawn_forked-Forks program (os.fork o.world).0 o.world
        (record o { world = (os.fork o.world).1 }) refl
