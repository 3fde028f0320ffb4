-- ===== src/Md/Md1.antt =====
-- [MD]/md1.c: the program of the startup mode.
use hail2_repos.Prelude.{ℕ, ℤ, is_negative, codes, if◌then◌else◌}
use hail2_repos.Kernel.{System, M, pure, complain, ◌>>=◌, ◌>>◌}
use hail2_repos.Log.{log_init, say, log_level_log}
use hail2_repos.Image.{Image, lift}
use hail2_repos.Load.Boot.{load_onboot}
use hail2_repos.Machine.Exec.{tagged}
use hail2_repos.Machine.Startup.{sysload_prepare}

module _ {W : Type 0} (os : System W) where
  -- `main` after log_init
  pub md1_opened : M (Image W) ℕ
  md1_opened = do
    lift (say os (codes "MD1") (codes "STARTING SYSTEM STARTUP") log_level_log)
    lift (say os (codes "MD1") (codes "PREPARING SYSTEM ENVIRONMENT") log_level_log)
    lift (sysload_prepare os)
    lift (say os (codes "MD1") (codes "LOADING ONBOOT SERVICES") log_level_log)
    load_onboot os
    lift (say os (codes "MD1") (codes "STARTUP COMPLETE") log_level_log)
    pure 0

  -- the test of what log_init returns
  pub md1_begin : ℤ → M (Image W) ℕ
  md1_begin opened =
      if is_negative opened
      then (do lift (complain (tagged (codes "MD1") (codes "Failed to initialize logger"))); pure 1)
      else md1_opened

  -- `main`: the exit status
  pub md1_main : M (Image W) ℕ
  md1_main = do opened ← lift (log_init os); md1_begin opened
