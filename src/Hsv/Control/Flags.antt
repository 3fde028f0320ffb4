-- ===== src/Hsv/Control/Flags.antt =====
-- The run of a script, and the flags.
use hail2_repos.Prelude.{◌≡◌, refl, ℕ, ℤ, is_negative, some, Text, ◌||◌, ◌==◌, if_cases}
use hail2_repos.Kernel.{System, Answer, done, failed, M}
use hail2_repos.Kernel.Errno.{enoent, enotdir, eacces}
use hail2_repos.Process.{process_spawn, process_wait}
use hail2_repos.Hsv.Control.{Supervisor, hsv_log, script_wait, script_found, hsv_exec_script}

module _ {W : Type 0} (os : System W) where
  pub hsv_log-shutting_down :
      (m : Text) (level : ℕ) (s : Supervisor W)
      → (hsv_log os m level s).1.shutting_down ≡ s.shutting_down
  unfolding hsv_log
  hsv_log-shutting_down m level s = refl

  script_wait-shutting_down :
      (pid : ℤ) (s : Supervisor W) → (script_wait os pid s).1.shutting_down ≡ s.shutting_down
  unfolding script_wait
  script_wait-shutting_down pid s =
      let u = record s { out = (process_wait os pid s.out).1 } in
      if_cases (λ (m : M (Supervisor W) ℤ). (m u).1.shutting_down ≡ s.shutting_down)
        (is_negative (process_wait os pid s.out).0) (λ _. refl) (λ _. refl)

  script_found-shutting_down :
      (path : Text) (r : Answer (Unit {0})) (s : Supervisor W)
      → (script_found os path r s).1.shutting_down ≡ s.shutting_down
  unfolding script_found
  script_found-shutting_down path (failed e) s =
      if_cases (λ (m : M (Supervisor W) ℤ). (m s).1.shutting_down ≡ s.shutting_down)
        (e == enoent || (e == enotdir || e == eacces)) (λ _. refl) (λ _. refl)
  script_found-shutting_down path (done _) s =
      let (pid, o) = process_spawn os (some path) s.out in
      let u = record s { out = o } in
      if_cases (λ (m : M (Supervisor W) ℤ). (m u).1.shutting_down ≡ s.shutting_down)
        (is_negative pid) (λ _. refl) (λ _. script_wait-shutting_down pid u)

  pub hsv_exec_script-shutting_down :
      (path : Text) (s : Supervisor W)
      → (hsv_exec_script os path s).1.shutting_down ≡ s.shutting_down
  unfolding hsv_exec_script
  hsv_exec_script-shutting_down path s =
      let (r, w) = os.access path s.out.world in
      script_found-shutting_down path r (record s { out = record s.out { world = w } })
