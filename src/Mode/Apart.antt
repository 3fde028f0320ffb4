-- ===== src/Mode/Apart.antt =====
-- The mode controller and the variables of load.c and signal.c.
use hail2_repos.Prelude.{
  arith, ℕ, ℤ, ◌≡◌, refl, ◌∙◌, not, Option, none, some, Text, is_positive, is_negative, eq_ℤ,
  if_cases, pos,
}
use hail2_repos.Kernel.{System, M}
use hail2_repos.Image.{Image, HsvTable, Pending}
use hail2_repos.Mode.Exits.{mode_md0, mode_md1, mode_md2}
use hail2_repos.Mode.{
  mode_init, mode_child_exit, md2_exited, mode_start, mode_log, mode_failure, mode_exec, exec_wait,
  md2_left, terminate_md2, mode_stop_md2, md2_spawned, enter_md2, start_md2, md1_finished,
  enter_md1, start_md1, md0_finished, note_md2_stop, enter_md0, start_md0,
}

-- the variables of load.c and signal.c
abbrev pub apart : {W : Type 0} → Image W → HsvTable × Pending
apart s = (s.load, s.pending)

-- Code of the mode controller that leaves them alone.
abbrev pub Apart : {W A : Type 0} → M (Image W) A → Type 0
Apart {W} m = (s : Image W) → apart (m s).1 ≡ apart s

module _ {W : Type 0} (os : System W) where
  mode_log-Apart : (t : Text) (level : ℕ) → Apart (mode_log os t level)
  unfolding mode_log
  mode_log-Apart t level s = refl

  mode_failure-Apart : (t : Text) (status : ℤ) → Apart (mode_failure os t status)
  unfolding mode_failure
  mode_failure-Apart t status s = mode_log-Apart _ _ s

  exec_wait-Apart : (pid : ℤ) → Apart (exec_wait os pid)
  unfolding exec_wait
  exec_wait-Apart pid s = refl

  mode_exec-Apart : (t : Text) → Apart (mode_exec os t)
  unfolding mode_exec exec_wait
  mode_exec-Apart t s = ground arith

  md2_left-Apart : (f : Option ℤ) → Apart (md2_left os f)
  unfolding md2_left
  md2_left-Apart none s = mode_log-Apart _ _ s
  md2_left-Apart (some f) s = mode_failure-Apart _ _ s

  terminate_md2-Apart : (pid : ℤ) → Apart (terminate_md2 os pid)
  unfolding terminate_md2
  terminate_md2-Apart pid s = md2_left-Apart _ _

  mode_stop_md2-Apart : Apart (mode_stop_md2 os)
  unfolding mode_stop_md2
  mode_stop_md2-Apart s =
      if_cases (λ (r : ℤ × Image W). apart r.1 ≡ apart s) (is_positive s.mode.md2_pid)
        (λ _. terminate_md2-Apart _ s) (λ _. refl)

  md2_spawned-Apart : (pid : ℤ) → Apart (md2_spawned os pid)
  unfolding md2_spawned
  md2_spawned-Apart pid s =
      if_cases (λ (m : M (Image W) (Unit {0})). apart (m s).1 ≡ apart s) (is_negative pid)
        (λ _. mode_failure-Apart _ _ s) (λ _. mode_log-Apart _ _ _)

  enter_md2-Apart : Apart (enter_md2 os)
  unfolding enter_md2
  enter_md2-Apart s = md2_spawned-Apart _ _ ∙ mode_log-Apart _ _ s

  start_md2-Apart : (current : ℤ) → Apart (start_md2 os current)
  unfolding start_md2
  start_md2-Apart current =
      if_cases Apart (eq_ℤ current mode_md2) (λ _. mode_log-Apart _ _)
        λ _.
          if_cases Apart (eq_ℤ current mode_md0) (λ _. mode_log-Apart _ _)
            λ _.
              if_cases Apart (not (eq_ℤ current mode_md1)) (λ _. mode_log-Apart _ _)
                (λ _. enter_md2-Apart)

  md1_finished-Apart : (status : ℤ) → Apart (md1_finished os status)
  unfolding md1_finished
  md1_finished-Apart status =
      if_cases Apart (not (eq_ℤ status (pos 0))) (λ _ s. mode_failure-Apart _ _ s)
        (λ _ s. start_md2-Apart _ _ ∙ mode_log-Apart _ _ s)

  enter_md1-Apart : Apart (enter_md1 os)
  unfolding enter_md1
  enter_md1-Apart s = md1_finished-Apart _ _ ∙ mode_exec-Apart _ _ ∙ mode_log-Apart _ _ s

  start_md1-Apart : (current : ℤ) → Apart (start_md1 os current)
  unfolding start_md1
  start_md1-Apart current =
      if_cases Apart (eq_ℤ current mode_md1) (λ _. mode_log-Apart _ _)
        λ _.
          if_cases Apart (eq_ℤ current mode_md2) (λ _. mode_log-Apart _ _)
            λ _.
              if_cases Apart (eq_ℤ current mode_md0) (λ _. mode_log-Apart _ _)
                (λ _. enter_md1-Apart)

  md0_finished-Apart : (status : ℤ) → Apart (md0_finished os status)
  unfolding md0_finished
  md0_finished-Apart status =
      if_cases Apart (not (eq_ℤ status (pos 0))) (λ _. mode_failure-Apart _ _)
        (λ _. mode_log-Apart _ _)

  note_md2_stop-Apart : (r : ℤ) → Apart (note_md2_stop os r)
  unfolding note_md2_stop
  note_md2_stop-Apart r = if_cases Apart (is_negative r) (λ _. mode_log-Apart _ _) (λ _ s. refl)

  enter_md0-Apart : Apart (enter_md0 os)
  unfolding enter_md0
  enter_md0-Apart s =
      md0_finished-Apart _ _
      ∙ mode_exec-Apart _ _
      ∙ note_md2_stop-Apart _ _
      ∙ mode_stop_md2-Apart _
      ∙ mode_log-Apart _ _ s

  start_md0-Apart : (current : ℤ) → Apart (start_md0 os current)
  unfolding start_md0
  start_md0-Apart current =
      if_cases Apart (eq_ℤ current mode_md0) (λ _. mode_log-Apart _ _)
        λ _.
          if_cases Apart (not (eq_ℤ current mode_md2)) (λ _. mode_log-Apart _ _)
            (λ _. enter_md0-Apart)

  pub mode_start-Apart : (mode : ℤ) → Apart (mode_start os mode)
  unfolding mode_start
  mode_start-Apart mode s =
      if_cases Same (eq_ℤ mode mode_md1) (λ _. start_md1-Apart _ s)
        λ _.
          if_cases Same (eq_ℤ mode mode_md2) (λ _. start_md2-Apart _ s)
            λ _.
              if_cases Same (eq_ℤ mode mode_md0) (λ _. start_md0-Apart _ s)
                (λ _. mode_log-Apart _ _ s)
    where
      Same : Unit {0} × Image W → Type 0
      Same r = apart r.1 ≡ apart s

  md2_exited-Apart : (status : ℤ) → Apart (md2_exited os status)
  unfolding md2_exited
  md2_exited-Apart status s =
      if_cases Same s.mode.md2_shutdown_requested (λ _. mode_log-Apart _ _ _)
        λ _.
          if_cases Same (eq_ℤ s.mode.current_mode mode_md2) (λ _. mode_log-Apart _ _ s) (λ _. refl)
    where
      Same : Unit {0} × Image W → Type 0
      Same r = apart r.1 ≡ apart s

  pub mode_child_exit-Apart : (pid status : ℤ) → Apart (mode_child_exit os pid status)
  unfolding mode_child_exit
  mode_child_exit-Apart pid status s =
      if_cases (λ (r : Unit {0} × Image W). apart r.1 ≡ apart s) (not (eq_ℤ pid s.mode.md2_pid))
        (λ _. refl) (λ _. md2_exited-Apart _ _)

  pub mode_init-Apart : Apart (mode_init os)
  unfolding mode_init
  mode_init-Apart s = mode_start-Apart _ _ ∙ mode_log-Apart _ _ s
