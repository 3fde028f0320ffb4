-- ===== src/Hsv/Supervise/Ending.antt =====
-- The outer loop of the supervisor, and its end.
use hail2_repos.Prelude.{
  ℕ, zero, suc, ◌<◌, ◌≡◌, refl, subst, ◌⊎◌, inl, inr, Bool, true, false, some, List, [], ◌∷◌, ℤ,
  pos, minus_one, is_positive, is_negative, codes, if_cases, arith,
}
use hail2_repos.Kernel.{System, Forks, M, Event, spawned}
use hail2_repos.Kernel.Watchful.{Watchful}
use hail2_repos.Log.{log_level_warn, log_level_critical}
use hail2_repos.Process.{process_spawn}
use hail2_repos.Process.Traces.{process_spawn-Spawns}
use hail2_repos.Process.Children.{process_spawn-positive}
use hail2_repos.Process.Quiet.{process_spawn-Quiet}
use hail2_repos.Hsv.Control.{Supervisor, deliver, hsv_log, hsv_sleep_ms}
use hail2_repos.Hsv.Control.Effects.{
  Calm, Silent, hsv_log-Silent, deliver-Silent, deliver-arrives, hsv_sleep_ms-Silent,
}
use hail2_repos.Hsv.Supervise.Lives.{Life, Lives, life, over, watch_begin-Life}
use hail2_repos.Hsv.Supervise.{
  Scripts, watch_begin, restart_delayed, service_left, spawn_answered, supervise_round, supervise,
}

-- The outer loop came to its end.
abbrev pub Over : {W : Type 0} → System W → Scripts → Supervisor W → Bool × Supervisor W → Type 0
Over os scripts s r =
    (r.0 ≡ true)
    × (r.1.shutting_down ≡ true)
    × Calm os s r.1
    × Lives os scripts s.out.trace r.1.out.trace

module _ {W : Type 0} (os : System W) (wt : Watchful os) where
  pub Over-after :
      (scripts : Scripts) (s u : Supervisor W) (r : Bool × Supervisor W)
      → Silent os s u
      → Over os scripts u r
      → Over os scripts s r
  Over-after scripts s u r a (b, c, d, e) =
      (b, c, omega (arith, a.0, d), subst (λ t. Lives os scripts t r.1.out.trace) a.1 e)

  restart_delayed-Over :
      (again : M (Supervisor W) Bool) (scripts : Scripts) (bound : ℕ) (s : Supervisor W)
      → os.patience s.out.world < bound
      → ((u : Supervisor W) → os.patience u.out.world < bound → Over os scripts u (again u))
      → Over os scripts s (restart_delayed os again s)
  unfolding restart_delayed
  restart_delayed-Over again scripts bound s a h =
      if_cases (Over os scripts s) s.restart_requested (λ _. h s a)
        (λ _.
          let m = codes "SERVICE EXITED, RESTARTING" in
          let u = (hsv_log os m log_level_warn s).1 in
          let v = (hsv_sleep_ms os 1000 u).1 in
          let said = hsv_log-Silent os wt m log_level_warn s in
          let slept = hsv_sleep_ms-Silent os wt 1000 u in
          Over-after scripts s u (again v) said
            (Over-after scripts u v (again v) slept (h v (omega (arith, said.0, slept.0)))))

  pub service_left-Over :
      (again : M (Supervisor W) Bool) (scripts : Scripts) (bound : ℕ) (s : Supervisor W)
      → os.patience s.out.world < bound
      → ((u : Supervisor W) → os.patience u.out.world < bound → Over os scripts u (again u))
      → Over os scripts s (service_left os again s)
  unfolding service_left
  service_left-Over again scripts bound s a h =
      if_cases (Over os scripts s) s.shutting_down (λ e. (refl, e, omega arith, over refl))
        (λ _.
          let u = (deliver os s).1 in
          let quiet = deliver-Silent os wt s in
          Over-after scripts s u (restart_delayed os again u) quiet
            (restart_delayed-Over again scripts bound u (omega (arith, quiet.0)) h))

module _ {W : Type 0} (os : System W) (wt : Watchful os) (fk : Forks os) where
  -- The spawned process lives, and then the next round comes.
  lived-Over :
      (again : M (Supervisor W) Bool) (scripts : Scripts) (pid bound : ℕ) (old : List Event)
      (s : Supervisor W)
      → is_positive (pos pid) ≡ true
      → s.out.trace ≡ spawned (scripts.run_path ∷ []) pid ∷ old
      → os.patience s.out.world < bound
      → ((u : Supervisor W) → os.patience u.out.world < bound → Over os scripts u (again u))
      → let u = (watch_begin os scripts (pos pid) s).1 in
        let r = service_left os again (deliver os u).1 in
        (r.0 ≡ true)
        × (r.1.shutting_down ≡ true)
        × Calm os s r.1
        × Lives os scripts old r.1.out.trace
  lived-Over again scripts pid bound old s p e a h =
      let u = (watch_begin os scripts (pos pid) s).1 in
      let v = (deliver os u).1 in
      let lived = watch_begin-Life os wt scripts (pos pid) s p in
      let quiet = deliver-Silent os wt u in
      let (ended, down, calm, rest) =
        Over-after os wt scripts u v (service_left os again v) quiet
          (service_left-Over os wt again scripts bound v (omega (arith, lived.0, quiet.0)) h) in
      (
        ended,
        down,
        omega (arith, lived.0, calm),
        life pid (subst (λ t. Life os scripts (pos pid) t u.out.trace) e lived.1) rest,
      )

  spawn_answered-Over :
      (again : M (Supervisor W) Bool) (scripts : Scripts) (pid : ℤ) (bound : ℕ) (old : List Event)
      (s : Supervisor W)
      → ((pid ≡ minus_one) × (s.out.trace ≡ old))
        ⊎ ((n : ℕ) × (pid ≡ pos n) × (s.out.trace ≡ spawned (scripts.run_path ∷ []) n ∷ old))
      → (is_negative pid ≡ false → is_positive pid ≡ true)
      → os.patience s.out.world < bound
      → ((u : Supervisor W) → os.patience u.out.world < bound → Over os scripts u (again u))
      → let r = spawn_answered os again scripts pid s in
        (r.0 ≡ true)
        × (r.1.shutting_down ≡ true)
        × Calm os s r.1
        × Lives os scripts old r.1.out.trace
  unfolding spawn_answered
  spawn_answered-Over again scripts pid bound old s (inl (z, f)) p a h =
      let m = codes "FAILED TO START SERVICE" in
      let u = (hsv_log os m log_level_critical s).1 in
      let v = (hsv_sleep_ms os 1000 u).1 in
      let said = hsv_log-Silent os wt m log_level_critical s in
      let slept = hsv_sleep_ms-Silent os wt 1000 u in
      let (b, c, d, e) =
        Over-after os wt scripts s u (again v) said
          (Over-after os wt scripts u v (again v) slept (h v (omega (arith, said.0, slept.0)))) in
      rw z (b, c, d, subst (λ t. Lives os scripts t (again v).1.out.trace) f e)
  spawn_answered-Over again scripts pid bound old s (inr (n, z, f)) p a h =
      let positive : is_positive (pos n) ≡ true =
        subst (λ (x : ℤ). is_negative x ≡ false → is_positive x ≡ true) z p refl in
      rw z (lived-Over again scripts n bound old s positive f a h)

  supervise_round-Over :
      (again : M (Supervisor W) Bool) (scripts : Scripts) (bound : ℕ) (s : Supervisor W)
      → (s.shutting_down ≡ true) ⊎ (os.patience s.out.world < bound)
      → ((u : Supervisor W) → os.patience u.out.world < bound → Over os scripts u (again u))
      → Over os scripts s (supervise_round os again scripts s)
  unfolding supervise_round
  supervise_round-Over again scripts bound s a h =
      if_cases (Over os scripts s) s.shutting_down (λ e. (refl, e, omega arith, over refl))
        (λ n.
          let (r, o) = process_spawn os (some scripts.run_path) s.out in
          let u = record s { out = o } in
          let quiet = process_spawn-Quiet os wt (some scripts.run_path) s.out in
          let less : os.patience s.out.world < bound = elim a [
            | inl e ↦ absurd (cc (e, n))
            | inr e ↦ e
          ] in
          let (b, c, d, e) =
            spawn_answered-Over again scripts r bound s.out.trace u
              (process_spawn-Spawns os scripts.run_path s.out)
              (process_spawn-positive os fk (some scripts.run_path) s.out)
              (omega (arith, quiet, less)) h in
          (b, c, omega (arith, quiet, d), e))

  pub supervise-Over :
      (fuel : ℕ) (scripts : Scripts) (s : Supervisor W)
      → os.patience s.out.world < fuel
      → Over os scripts s (supervise os fuel scripts s)
  unfolding supervise
  supervise-Over zero scripts s h = absurd (omega arith)
  supervise-Over (suc fuel) scripts s h =
      let u = (deliver os s).1 in
      let came : (u.shutting_down ≡ true) ⊎ (os.patience u.out.world < fuel) =
        elim (deliver-arrives os wt s) [ inl e ↦ inl e | inr e ↦ inr (omega (arith, h, e)) ] in
      Over-after os wt scripts s u (supervise_round os (supervise os fuel scripts) scripts u)
        (deliver-Silent os wt s)
        (supervise_round-Over (supervise os fuel scripts) scripts fuel u came
          (supervise-Over fuel scripts))
