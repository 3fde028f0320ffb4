-- ===== src/Mode/Frame.antt =====
-- What each step of the mode controller does to the controller's own variables.
use hail2_repos.Prelude.{
  ℕ, ℤ, ◌≡◌, refl, ap, ◌∙◌, ◌⊎◌, inl, inr, true, false, Option, none, some, arith, Text, codes,
  minus_one, is_positive, is_negative, eq_ℤ, if◌then◌else◌, Bool-cases,
}
use hail2_repos.Kernel.{System, Forks}
use hail2_repos.Log.{log_level_log}
use hail2_repos.Process.Children.{process_spawn-positive}
use hail2_repos.Image.{Image, Controller}
use hail2_repos.Mode.Exits.{md2_path, mode_none, mode_md0, mode_md1, mode_md2}
use hail2_repos.Mode.{
  mode_log, mode_failure, mode_exec, exec_wait, md2_left, terminate_md2, mode_stop_md2, md2_spawned,
  enter_md2, start_md2, md1_finished, enter_md1, md0_finished, note_md2_stop, enter_md0,
}

-- MD2 is published, with its process.
abbrev pub Operating : Controller → Type 0
Operating d =
    (d.current_mode ≡ mode_md2)
    × (is_positive d.md2_pid ≡ true)
    × (d.md2_shutdown_requested ≡ false)

-- No mode, and no process.
abbrev pub Idle : Controller → Type 0
Idle d = (d.current_mode ≡ mode_none) × (d.md2_pid ≡ minus_one) × (d.md2_shutdown_requested ≡ false)

-- How startup may end.
abbrev pub Started : Controller → Controller → Type 0
Started c d = Operating d ⊎ (Idle d ⊎ (d ≡ record c { current_mode = mode_none }))

-- the controller after MD2 was stopped
abbrev pub stopped : Controller → Controller
stopped c = record c {
  md2_pid = minus_one;
  md2_shutdown_requested = if is_positive c.md2_pid then false else c.md2_shutdown_requested;
}

module _ {W : Type 0} (os : System W) where
  pub mode-mode_log : (t : Text) (level : ℕ) (s : Image W) → (mode_log os t level s).1.mode ≡ s.mode
  unfolding mode_log
  mode-mode_log t level s = refl

  pub mode-mode_failure :
      (t : Text) (status : ℤ) (s : Image W) → (mode_failure os t status s).1.mode ≡ s.mode
  unfolding mode_failure
  mode-mode_failure t status s = mode-mode_log _ _ s

  pub mode-exec_wait : (pid : ℤ) (s : Image W) → (exec_wait os pid s).1.mode ≡ s.mode
  unfolding exec_wait
  mode-exec_wait pid s = refl

  pub mode-mode_exec : (t : Text) (s : Image W) → (mode_exec os t s).1.mode ≡ s.mode
  unfolding mode_exec exec_wait
  mode-mode_exec t s = ground arith

  mode-md2_left : (f : Option ℤ) (s : Image W) → (md2_left os f s).1.mode ≡ s.mode
  unfolding md2_left
  mode-md2_left none s = mode-mode_log _ _ s
  mode-md2_left (some f) s = mode-mode_failure _ _ s

  mode-terminate_md2 :
      (pid : ℤ) (s : Image W)
      → (terminate_md2 os pid s).1.mode
        ≡ record s.mode { md2_pid = minus_one; md2_shutdown_requested = false }
  unfolding terminate_md2
  mode-terminate_md2 pid s = mode-md2_left _ _

  -- MD2 is forgotten, however it left.
  pub mode-mode_stop_md2 :
      (s : Image W)
      → (mode_stop_md2 os s).1.mode ≡ record s.mode {
        md2_pid = minus_one;
        md2_shutdown_requested =
            if is_positive s.mode.md2_pid then false else s.mode.md2_shutdown_requested;
      }
  unfolding mode_stop_md2
  mode-mode_stop_md2 s = elim (Bool-cases (is_positive s.mode.md2_pid)) [
    | inl e ↦ rw e (mode-terminate_md2 s.mode.md2_pid s)
    | inr e ↦ rw e
  ]

  mode-note_md2_stop : (r : ℤ) (s : Image W) → (note_md2_stop os r s).1.mode ≡ s.mode
  unfolding note_md2_stop
  mode-note_md2_stop r s = elim (Bool-cases (is_negative r)) [
    | inl e ↦ rw e (mode-mode_log _ _ s)
    | inr e ↦ rw e
  ]

  mode-md0_finished : (r : ℤ) (s : Image W) → (md0_finished os r s).1.mode ≡ s.mode
  unfolding md0_finished
  mode-md0_finished r s = elim (Bool-cases (eq_ℤ r mode_md0)) [
    | inl e ↦ rw e (mode-mode_log _ _ s)
    | inr e ↦ rw e (mode-mode_failure _ _ s)
  ]

  -- Entering MD0 always ends in MD0 with MD2 forgotten.
  pub mode-enter_md0 :
      (s : Image W) → (enter_md0 os s).1.mode ≡ record (stopped s.mode) { current_mode = mode_md0 }
  unfolding enter_md0 mode_log
  mode-enter_md0 s =
      mode-md0_finished _ _
      ∙ mode-mode_exec _ _
      ∙ ap (λ (c : Controller). record c { current_mode = mode_md0 })
          (mode-note_md2_stop _ _ ∙ mode-mode_stop_md2 _)

module _ {W : Type 0} (os : System W) (fk : Forks os) where
  pub mode-enter_md2 :
      (s : Image W) → Operating (enter_md2 os s).1.mode ⊎ Idle (enter_md2 os s).1.mode
  unfolding enter_md2 md2_spawned mode_failure mode_log
  mode-enter_md2 s = ground (
    arith,
    process_spawn-positive os fk (some md2_path)
        (mode_log os (codes "ENTERING MD2") log_level_log s).1.out,
  )

  pub mode-start_md2 :
      (s : Image W)
      → Operating (start_md2 os mode_md1 s).1.mode ⊎ Idle (start_md2 os mode_md1 s).1.mode
  unfolding start_md2
  mode-start_md2 s = mode-enter_md2 s

  pub mode-md1_finished :
      (status : ℤ) (s : Image W) (c : Controller)
      → s.mode ≡ record c { current_mode = mode_md1 }
      → Started c (md1_finished os status s).1.mode
  unfolding md1_finished mode_log
  mode-md1_finished status s c h = elim (Bool-cases (eq_ℤ status mode_md0)) [
    | inl e ↦ rw (e, h) (grind (arith, mode-start_md2))
    | inr e ↦ rw e (
        inr (
          inr (
            ap (λ (d : Controller). record d { current_mode = mode_none })
              (mode-mode_failure os _ _ s ∙ h))))
  ]

  -- Startup ends in MD2 with its process, or in no mode.
  pub mode-enter_md1 : (s : Image W) → Started s.mode (enter_md1 os s).1.mode
  unfolding enter_md1 mode_log
  mode-enter_md1 s = mode-md1_finished _ _ s.mode (mode-mode_exec os _ _)
