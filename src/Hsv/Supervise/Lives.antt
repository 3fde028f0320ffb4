-- ===== src/Hsv/Supervise/Lives.antt =====
-- The lives of the service's process under its supervisor, and the end of the supervisor.
use hail2_repos.Prelude.{
  ℕ, zero, suc, ◌≤◌, ◌<◌, ◌≡◌, subst, sym, ap, ◌⊎◌, inl, inr, true, List, [], ◌∷◌, ℤ, pos,
  is_positive, is_negative, eq_ℤ, not, ◌∙◌, Text, codes, ◌==◌, if_cases, Bool-cases, arith,
}
use hail2_repos.Kernel.{System, Answer, Waited, M, Event, spawned}
use hail2_repos.Kernel.Errno.{echild}
use hail2_repos.Kernel.Watchful.{Watchful}
use hail2_repos.Log.{log_level_log, log_level_warn, log_level_critical}
use hail2_repos.Hsv.Control.{
  Supervisor, clear_restart, deliver, hsv_log, hsv_waitpid, hsv_exec_script, hsv_sleep_ms,
}
use hail2_repos.Hsv.Control.Effects.{
  Calm, Silent, Runs, hsv_log-Silent, deliver-Silent, deliver-arrives, hsv_sleep_ms-Silent,
  hsv_exec_script-Runs,
}
use hail2_repos.Hsv.Stop.{hsv_stop_service}
use hail2_repos.Hsv.Control.Waits.{
  Leaves, Waits, came, runs_on, broken_off, refused, hsv_waitpid-Waits,
}
use hail2_repos.Hsv.Stop.Leaving.{Stopping, hsv_stop_service-Stopping}
use hail2_repos.Hsv.Supervise.{
  Scripts, hook, restart_service, shutdown_tested, restart_tested, watch_answered, watch,
  watch_begin,
}

-- One life, from after its start: the process leaves by itself, or is stopped, and then perhaps the
-- stop script runs.
abbrev pub Life : {W : Type 0} → System W → Scripts → ℤ → List Event → List Event → Type 0
Life os scripts pid old new =
    Leaves os pid old new
    ⊎ Stopping os pid old new
    ⊎ ((stopped : List Event) × Stopping os pid old stopped × Runs os scripts.stop_path stopped new)

-- One life after another: the next process is started only when the one before has left.
pub data Lives {W : Type 0} (os : System W) (scripts : Scripts)
    : List Event → List Event → Type 0 where
  over : {old new : List Event} → new ≡ old → Lives os scripts old new
  life :
      {old left new : List Event} (pid : ℕ)
      → Life os scripts (pos pid) (spawned (scripts.run_path ∷ []) pid ∷ old) left
      → Lives os scripts left new
      → Lives os scripts old new

module _ {W : Type 0} (os : System W) (wt : Watchful os) where
  abbrev Ends : (List Event → List Event → Type 0) → Supervisor W → Supervisor W → Type 0
  Ends P s u = Calm os s u × P s.out.trace u.out.trace

  -- what comes after silence
  after_silence :
      (P : List Event → List Event → Type 0) (s u v : Supervisor W)
      → Silent os s u
      → Ends P u v
      → Ends P s v
  after_silence P s u v a b = (omega (arith, a.0, b.0), subst (λ t. P t v.out.trace) a.1 b.1)

  pub hook-Runs : (path m : Text) (s : Supervisor W) → Ends (Runs os path) s (hook os path m s).1
  unfolding hook
  hook-Runs path m s =
      let (r, u) = hsv_exec_script os path s in
      let ran = hsv_exec_script-Runs os wt path s in
      if_cases (λ (f : M (Supervisor W) (Unit {0})). Ends (Runs os path) s (f u).1) (is_negative r)
        (λ _.
          let said = hsv_log-Silent os wt m log_level_warn u in
          (omega (arith, ran.0, said.0), subst (Runs os path s.out.trace) (sym said.1) ran.1))
        (λ _. ran)

  restart_service-Life :
      (scripts : Scripts) (pid : ℤ) (s : Supervisor W)
      → is_positive pid ≡ true
      → Ends (Life os scripts pid) s (restart_service os scripts pid s).1
  unfolding restart_service
  restart_service-Life scripts pid s p =
      let s0 = (clear_restart s).1 in
      let s1 = (hsv_log os (codes "SERVICE RESTART REQUESTED") log_level_log s0).1 in
      let s2 = (hsv_stop_service os pid s1).1 in
      let stopped = hsv_stop_service-Stopping os wt pid s1 p in
      let ran = hook-Runs scripts.stop_path (codes "SERVICE STOP HOOK FAILED") s2 in
      after_silence (Life os scripts pid) s s1 (restart_service os scripts pid s).1
        (hsv_log-Silent os wt (codes "SERVICE RESTART REQUESTED") log_level_log s0)
        (omega (arith, stopped.0, ran.0), inr (inr (s2.out.trace, stopped.1, ran.1)))

  -- `again` is good from a state that has seen one look fewer to come
  shutdown_tested-Life :
      (again : M (Supervisor W) (Unit {0})) (scripts : Scripts) (pid : ℤ) (bound : ℕ)
      (s : Supervisor W)
      → is_positive pid ≡ true
      → (s.shutting_down ≡ true) ⊎ (os.patience s.out.world < bound)
      → ((u : Supervisor W)
          → os.patience u.out.world < bound
          → Ends (Life os scripts pid) u (again u).1)
      → Ends (Life os scripts pid) s (shutdown_tested os again pid s).1
  unfolding shutdown_tested
  shutdown_tested-Life again scripts pid bound s p a h =
      if_cases (λ (r : Unit {0} × Supervisor W). Ends (Life os scripts pid) s r.1) s.shutting_down
        (λ _.
          let stopped = hsv_stop_service-Stopping os wt pid s p in (stopped.0, inr (inl stopped.1)))
        (λ n.
          let slept = hsv_sleep_ms-Silent os wt 100 s in
          let u = (hsv_sleep_ms os 100 s).1 in
          let less : os.patience s.out.world < bound = elim a [
            | inl e ↦ absurd (cc (e, n))
            | inr e ↦ e
          ] in
          after_silence (Life os scripts pid) s u (again u).1 slept
            (h u (omega (arith, slept.0, less))))

  restart_tested-Life :
      (again : M (Supervisor W) (Unit {0})) (scripts : Scripts) (pid : ℤ) (bound : ℕ)
      (s : Supervisor W)
      → is_positive pid ≡ true
      → os.patience s.out.world ≤ bound
      → ((u : Supervisor W)
          → os.patience u.out.world < bound
          → Ends (Life os scripts pid) u (again u).1)
      → Ends (Life os scripts pid) s (restart_tested os again scripts pid s).1
  unfolding restart_tested
  restart_tested-Life again scripts pid bound s p a h =
      if_cases (λ (r : Unit {0} × Supervisor W). Ends (Life os scripts pid) s r.1)
        s.restart_requested (λ _. restart_service-Life scripts pid s p)
        (λ _.
          let u = (deliver os s).1 in
          let came : (u.shutting_down ≡ true) ⊎ (os.patience u.out.world < bound) =
            elim (deliver-arrives os wt s) [ inl e ↦ inl e | inr e ↦ inr (omega (arith, a, e)) ] in
          after_silence (Life os scripts pid) s u (shutdown_tested os again pid u).1
            (deliver-Silent os wt s) (shutdown_tested-Life again scripts pid bound u p came h))

  watch_answered-Life :
      (again : M (Supervisor W) (Unit {0})) (scripts : Scripts) (pid : ℤ) (bound : ℕ)
      (s : Supervisor W) (q : Answer Waited × Supervisor W)
      → is_positive pid ≡ true
      → os.patience s.out.world ≤ bound
      → Calm os s q.1
      → Waits os pid true s q
      → ((u : Supervisor W)
          → os.patience u.out.world < bound
          → Ends (Life os scripts pid) u (again u).1)
      → Ends (Life os scripts pid) s (watch_answered os again scripts pid q.0 q.1).1
  unfolding watch_answered
  watch_answered-Life again scripts pid bound s q p a calm (came x e k l) h =
      elim (Bool-cases (eq_ℤ (pos x.pid) pid)) [
        | inl t ↦ rw (e, t) (calm, inl l)
        | inr t ↦ absurd (cc (k, ap not t))
      ]
  watch_answered-Life again scripts pid bound s q p a calm (runs_on x e k same) h =
      elim (Bool-cases (eq_ℤ (pos x.pid) pid)) [
        | inl t ↦ absurd (cc (k, ap not t))
        | inr t ↦
            let u = (deliver os q.1).1 in
            let quiet = deliver-Silent os wt q.1 in
            rw (e, t)
              (after_silence (Life os scripts pid) s u (restart_tested os again scripts pid u).1
                (omega (arith, calm, quiet.0), quiet.1 ∙ same)
                (restart_tested-Life again scripts pid bound u p (omega (arith, a, calm, quiet.0))
                  h))
      ]
  watch_answered-Life again scripts pid bound s q p a calm (broken_off e less same) h = rw e (
      after_silence (Life os scripts pid) s q.1 (again q.1).1 (calm, same)
        (h q.1 (omega (arith, a, less))))
  watch_answered-Life again scripts pid bound s q p a calm (refused e f k l) h =
      rw (f, k)
        (if_cases (λ (m : M (Supervisor W) (Unit {0})). Ends (Life os scripts pid) s (m q.1).1)
          (e == echild) (λ _. (calm, inl l))
          (λ _.
            let m = codes "WAITPID FAILED WHILE SUPERVISING SERVICE" in
            let said = hsv_log-Silent os wt m log_level_critical q.1 in
            (omega (arith, calm, said.0), inl (subst (Leaves os pid s.out.trace) (sym said.1) l))))

  watch-Life :
      (fuel : ℕ) (scripts : Scripts) (pid : ℤ) (s : Supervisor W)
      → is_positive pid ≡ true
      → os.patience s.out.world < fuel
      → Ends (Life os scripts pid) s (watch os fuel scripts pid s).1
  unfolding watch
  watch-Life zero scripts pid s p h = absurd (omega (arith, h))
  watch-Life (suc fuel) scripts pid s p h =
      let (calm, waits) = hsv_waitpid-Waits os wt pid true s in
      watch_answered-Life (watch os fuel scripts pid) scripts pid fuel s (hsv_waitpid os true pid s)
        p (omega (arith, h)) calm waits (λ v k. watch-Life fuel scripts pid v p k)

  pub watch_begin-Life :
      (scripts : Scripts) (pid : ℤ) (s : Supervisor W)
      → is_positive pid ≡ true
      → Ends (Life os scripts pid) s (watch_begin os scripts pid s).1
  unfolding watch_begin
  watch_begin-Life scripts pid s p = watch-Life _ scripts pid s p (omega arith)
