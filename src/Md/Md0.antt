-- ===== src/Md/Md0.antt =====
-- [MD]/md0.c: the program of the shutdown mode.
pub mod ShuttingDown
use hail2_repos.Prelude.{ℕ, ℤ, is_negative, codes, if◌then◌else◌}
use hail2_repos.Kernel.{System, M, pure, complain, ◌>>=◌, ◌>>◌}
use hail2_repos.Log.{log_init, say, log_level_log}
use hail2_repos.Image.{Image, lift}
use hail2_repos.Load.Boot.{hsv_shutdown_all}
use hail2_repos.Machine.Exec.{tagged}
use hail2_repos.Machine.Shutdown.{sysdown_prepare}

module _ {W : Type 0} (os : System W) where
  -- `main` after log_init
  pub md0_opened : M (Image W) ℕ
  md0_opened = do
    lift (say os (codes "MD0") (codes "STARTING SHUTDOWN") log_level_log)
    lift (say os (codes "MD0") (codes "STOPPING HSV") log_level_log)
    hsv_shutdown_all os
    lift (say os (codes "MD0") (codes "HSV STOPPED") log_level_log)
    lift (say os (codes "MD0") (codes "RUNNING SYSDOWN") log_level_log)
    lift (sysdown_prepare os)
    lift (say os (codes "MD0") (codes "SYSDOWN RETURNED") log_level_log)
    lift (say os (codes "MD0") (codes "SHUTDOWN COMPLETE") log_level_log)
    pure 0

  -- the test of what log_init returns
  pub md0_begin : ℤ → M (Image W) ℕ
  md0_begin opened =
      if is_negative opened
      then (do lift (complain (tagged (codes "MD0") (codes "Failed to initialize logger"))); pure 1)
      else md0_opened

  -- `main`: the exit status
  pub md0_main : M (Image W) ℕ
  md0_main = do opened ← lift (log_init os); md0_begin opened
