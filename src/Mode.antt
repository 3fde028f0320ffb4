-- ===== src/Mode.antt =====
-- [ENG]/mode.c: the machine modes, and the one process of MD2. The numbers and texts that it computes
-- are in Mode/Exits.antt.
pub mod Exits
pub mod Frame
pub mod Transitions
pub mod Tracking
pub mod Quiet
pub mod Apart
pub mod Order
use hail2_repos.Prelude.{
  ℕ, Bool, true, false, Option, none, some, ◌++◌, ℤ, pos, minus_one, is_negative, is_positive, eq_ℤ,
  Text, codes, snprintf, show_int, not, if◌then◌else◌,
}
use hail2_repos.Kernel.{System, M, pure, ◌>>=◌, ◌>>◌}
use hail2_repos.Kernel.SignalNumber.{sigterm}
use hail2_repos.Log.{say, log_level_log, log_level_warn, log_level_critical, log_level_fatal}
use hail2_repos.Process.{process_spawn, process_wait, process_signal}
use hail2_repos.Image.{Image, Controller, lift}
use hail2_repos.Mode.Exits.{
  md0_path, md1_path, md2_path, mode_none, mode_md0, mode_md1, mode_md2, mode_exec_result,
  mode_failure_message, md2_exit_failure,
}

module _ {W : Type 0} where
  abbrev pub set_mode : ℤ → M (Image W) (Unit {0})
  set_mode m s = (tt, record s { mode = record s.mode { current_mode = m } })

  abbrev pub set_md2_pid : ℤ → M (Image W) (Unit {0})
  set_md2_pid p s = (tt, record s { mode = record s.mode { md2_pid = p } })

  abbrev pub set_md2_shutdown_requested : Bool → M (Image W) (Unit {0})
  set_md2_shutdown_requested b s =
      (tt, record s { mode = record s.mode { md2_shutdown_requested = b } })

  -- the static variables of mode.c
  abbrev pub get_controller : M (Image W) Controller
  get_controller s = (s.mode, s)

module _ {W : Type 0} (os : System W) where
  pub mode_log : Text → ℕ → M (Image W) (Unit {0})
  mode_log message level = do lift (say os (codes "MODE") message level); pure tt

  pub exec_wait : ℤ → M (Image W) ℤ
  exec_wait pid = do status ← lift (process_wait os pid); pure (mode_exec_result status)

  -- Only called with a literal: the NULL check has no case here.
  pub mode_exec : Text → M (Image W) ℤ
  mode_exec program = do
    pid ← lift (process_spawn os (some program))
    if is_negative pid then pure minus_one else exec_wait pid

  pub mode_failure : Text → ℤ → M (Image W) (Unit {0})
  mode_failure component status =
      mode_log (snprintf 128 (mode_failure_message component status)) log_level_critical

  pub md2_left : Option ℤ → M (Image W) ℤ
  md2_left (some status) = do mode_failure (codes "MD2") status; pure minus_one
  md2_left none = do mode_log (codes "MD2 EXITED DURING SHUTDOWN") log_level_log; pure (pos 0)

  -- from the assignment of `md2_shutdown_requested` on
  pub terminate_md2 : ℤ → M (Image W) ℤ
  terminate_md2 pid = do
    set_md2_shutdown_requested true
    lift (process_signal os pid sigterm)
    status ← lift (process_wait os pid)
    set_md2_pid minus_one
    set_md2_shutdown_requested false
    md2_left (md2_exit_failure status)

  pub mode_stop_md2 : M (Image W) ℤ
  mode_stop_md2 s =
      if is_positive s.mode.md2_pid
      then terminate_md2 s.mode.md2_pid s
      else (do set_md2_pid minus_one; pure (pos 0)) s

  pub md2_spawned : ℤ → M (Image W) (Unit {0})
  md2_spawned pid =
      if is_negative pid
      then (do mode_failure (codes "MD2") minus_one; set_md2_pid minus_one; set_mode mode_none)
      else (do
        set_mode mode_md2
        mode_log (snprintf 128 (codes "MD2 OPERATING PID = " ++ show_int pid)) log_level_log)

  pub enter_md2 : M (Image W) (Unit {0})
  enter_md2 = do
    mode_log (codes "ENTERING MD2") log_level_log
    set_md2_shutdown_requested false
    pid ← lift (process_spawn os (some md2_path))
    set_md2_pid pid
    md2_spawned pid

  -- `case MODE_MD2` of `mode_start`
  pub start_md2 : ℤ → M (Image W) (Unit {0})
  start_md2 current =
      if eq_ℤ current mode_md2
      then mode_log (codes "ALREADY IN MD2") log_level_warn
      else if eq_ℤ current mode_md0
      then mode_log (codes "INVALID MODE TRANSITION MD0 -> MD2") log_level_warn
      else if not (eq_ℤ current mode_md1)
      then mode_log
          (snprintf 128
            (codes "INVALID MODE TRANSITION MD" ++ (show_int current ++ codes " -> MD2")))
          log_level_warn
      else enter_md2

  pub md1_finished : ℤ → M (Image W) (Unit {0})
  md1_finished status =
      if not (eq_ℤ status (pos 0))
      then (do mode_failure (codes "MD1") status; set_mode mode_none)
      else (do
        mode_log (codes "MD1 COMPLETE") log_level_log
        c ← get_controller
        start_md2 c.current_mode)

  pub enter_md1 : M (Image W) (Unit {0})
  enter_md1 = do
    mode_log (codes "ENTERING MD1") log_level_log
    set_mode mode_md1
    status ← mode_exec md1_path
    md1_finished status

  -- `case MODE_MD1`
  pub start_md1 : ℤ → M (Image W) (Unit {0})
  start_md1 current =
      if eq_ℤ current mode_md1
      then mode_log (codes "ALREADY IN MD1") log_level_warn
      else if eq_ℤ current mode_md2
      then mode_log (codes "INVALID MODE TRANSITION MD2 -> MD1") log_level_warn
      else if eq_ℤ current mode_md0
      then mode_log (codes "INVALID MODE TRANSITION MD0 -> MD1") log_level_warn
      else enter_md1

  pub md0_finished : ℤ → M (Image W) (Unit {0})
  md0_finished status =
      if not (eq_ℤ status (pos 0))
      then mode_failure (codes "MD0") status
      else mode_log (codes "MD0 COMPLETE") log_level_log

  pub note_md2_stop : ℤ → M (Image W) (Unit {0})
  note_md2_stop stopped =
      if is_negative stopped
      then mode_log (codes "CONTINUING SHUTDOWN AFTER MD2 SHUTDOWN FAILURE") log_level_critical
      else pure tt

  pub enter_md0 : M (Image W) (Unit {0})
  enter_md0 = do
    mode_log (codes "ENTERING MD0") log_level_log
    stopped ← mode_stop_md2
    note_md2_stop stopped
    set_mode mode_md0
    status ← mode_exec md0_path
    md0_finished status

  -- `case MODE_MD0`
  pub start_md0 : ℤ → M (Image W) (Unit {0})
  start_md0 current =
      if eq_ℤ current mode_md0
      then mode_log (codes "ALREADY IN MD0") log_level_warn
      else if not (eq_ℤ current mode_md2)
      then mode_log
          (snprintf 128
            (codes "INVALID MODE TRANSITION MD" ++ (show_int current ++ codes " -> MD0")))
          log_level_warn
      else enter_md0

  pub mode_start : ℤ → M (Image W) (Unit {0})
  mode_start mode s =
      if eq_ℤ mode mode_md1
      then start_md1 s.mode.current_mode s
      else if eq_ℤ mode mode_md2
      then start_md2 s.mode.current_mode s
      else if eq_ℤ mode mode_md0
      then start_md0 s.mode.current_mode s
      else mode_log (snprintf 128 (codes "UNKNOWN MODE " ++ show_int mode)) log_level_warn s

  pub mode_init : M (Image W) (Unit {0})
  mode_init = do mode_log (codes "INITIALIZING MACHINE MODES") log_level_log; mode_start mode_md1

  -- MD2 died: from `md2_pid = -1` on
  pub md2_exited : ℤ → M (Image W) (Unit {0})
  md2_exited status s =
      if s.mode.md2_shutdown_requested
      then (do
        set_md2_shutdown_requested false
        mode_log (codes "MD2 EXITED DURING SHUTDOWN") log_level_log)
          s
      else if eq_ℤ s.mode.current_mode mode_md2
      then (do
        mode_log
            (snprintf 128
              (codes "MD2 PROCESS EXITED UNEXPECTEDLY (STATUS " ++ (show_int status ++ codes ")")))
            log_level_fatal
        set_mode mode_none)
          s
      else (tt, s)

  pub mode_child_exit : ℤ → ℤ → M (Image W) (Unit {0})
  mode_child_exit pid status s =
      if not (eq_ℤ pid s.mode.md2_pid)
      then (tt, s)
      else (do set_md2_pid minus_one; md2_exited status) s

pub mode_get : {W : Type 0} → Image W → ℤ
mode_get s = s.mode.current_mode
