-- ===== src/Machine/Startup.antt =====
-- [SYSLOAD]/sysload.c: the preparation of the machine.
pub mod Steps
pub mod Phases
pub mod Preparing
use hail2_repos.Prelude.{
  ℕ, not, Option, none, some, List, [], ◌∷◌, ◌++◌, ℤ, pos, minus_one, is_negative, eq_ℤ, Text,
  codes, show_int, ◌==◌, if◌then◌else◌,
}
use hail2_repos.Kernel.{
  System, Answer, done, failed, FileKind, Out, M, pure, call, emit, complain, is_directory,
  made_directory, mounted, ◌>>=◌, ◌>>◌,
}
use hail2_repos.Kernel.Errno.{eexist, ebusy}
use hail2_repos.Machine.Exec.{exec_program, tagged}

abbrev pub fsck_path : Text
fsck_path = codes "/sbin/fsck"

abbrev pub mount_path : Text
mount_path = codes "/bin/mount"

abbrev pub swapon_path : Text
swapon_path = codes "/sbin/swapon"

module _ {W : Type 0} where
  -- Only called with literals: the NULL check has no case here.
  abbrev pub sysload_log : Text → M (Out W) (Unit {0})
  sysload_log message = complain (tagged (codes "SYSLOAD") message)

  -- `if (m < 0) return -1;`, and then `k`
  unfoldable pub check : M (Out W) ℤ → M (Out W) ℤ → M (Out W) ℤ
  check m k = do r ← m; if is_negative r then pure minus_one else k

module _ {W : Type 0} (os : System W) where
  pub mkdir_existing : Text → Answer FileKind → M (Out W) ℤ
  mkdir_existing path (failed e) = do
    sysload_log (codes "stat " ++ (path ++ (codes " failed: " ++ os.strerror e)))
    pure minus_one
  mkdir_existing path (done kind) =
      if not (is_directory kind)
      then (do sysload_log (path ++ codes " exists but is not a directory"); pure minus_one)
      else pure (pos 0)

  pub mkdir_answered : Text → Answer (Unit {0}) → M (Out W) ℤ
  mkdir_answered path (done _) = do emit (made_directory path); pure (pos 0)
  mkdir_answered path (failed e) =
      if not (e == eexist)
      then (do
        sysload_log (codes "mkdir " ++ (path ++ (codes " failed: " ++ os.strerror e)))
        pure minus_one)
      else (do r ← call (os.stat path); mkdir_existing path r)

  -- Only called with literals: the NULL check has no case here.
  pub sysload_mkdir : Text → ℕ → M (Out W) ℤ
  sysload_mkdir path mode = do r ← call (os.mkdir path mode); mkdir_answered path r

  pub mount_answered : Text → Answer (Unit {0}) → M (Out W) ℤ
  mount_answered target (done _) = do emit (mounted target); pure (pos 0)
  mount_answered target (failed e) =
      if not (e == ebusy)
      then (do
        sysload_log (codes "Failed to mount " ++ (target ++ (codes ": " ++ os.strerror e)))
        pure minus_one)
      else pure (pos 0)

  -- `if (mount (...) < 0)`: the sources name the file system after its type
  pub mount_checked : Text → Text → Option Text → M (Out W) ℤ
  mount_checked type target options = do
    r ← call (os.mount type target type options)
    mount_answered target r

  -- the directory, and the file system on it
  pub mount_point : Text → ℕ → Text → Option Text → M (Out W) ℤ
  mount_point target mode type options =
      check (sysload_mkdir target mode) (mount_checked type target options)

  pub sysload_virtualfs : M (Out W) ℤ
  sysload_virtualfs = do
    sysload_log (codes "Virtual filesystem phase")
    check (mount_point (codes "/proc") 0o555 (codes "proc") none) (
        check (mount_point (codes "/sys") 0o555 (codes "sysfs") none) (
          check (mount_point (codes "/run") 0o755 (codes "tmpfs") (some (codes "mode=0755")))
            (do sysload_log (codes "Virtual filesystems ready"); pure (pos 0))))

  pub sysload_devices : M (Out W) ℤ
  sysload_devices = do
    sysload_log (codes "Device filesystem phase")
    check (mount_point (codes "/dev") 0o755 (codes "devtmpfs") none) (
        check (mount_point (codes "/dev/pts") 0o755 (codes "devpts") none) (
          check (mount_point (codes "/dev/shm") 0o1777 (codes "tmpfs") (some (codes "mode=1777")))
            (do sysload_log (codes "Device filesystem ready"); pure (pos 0))))

  pub sysload_runtime : M (Out W) ℤ
  sysload_runtime = do
    sysload_log (codes "Runtime phase")
    check (sysload_mkdir (codes "/run/hinit") 0o755) (
        check (sysload_mkdir (codes "/run/lock") 0o775) (
          check (sysload_mkdir (codes "/run/user") 0o755)
            (do sysload_log (codes "Runtime environment ready"); pure (pos 0))))

  abbrev pub sysload_exec : Text → List Text → M (Out W) ℤ
  sysload_exec program argv = exec_program os (codes "SYSLOAD") program argv

  -- The result of a program whose failure is only reported.
  pub report_result : Text → Text → Text → ℤ → M (Out W) (Unit {0})
  report_result not_run ran finished result =
      if is_negative result
      then sysload_log not_run
      else if eq_ℤ result (pos 0)
      then sysload_log finished
      else sysload_log (ran ++ (codes " returned status " ++ (show_int result ++ codes " WARN")))

  pub sysload_fsck : M (Out W) (Unit {0})
  sysload_fsck = do
    sysload_log (codes "Filesystem check phase")
    result ← sysload_exec fsck_path (fsck_path ∷ codes "-A" ∷ codes "-V" ∷ [])
    report_result (codes "Filesystem check execution failed WARN") (codes "Filesystem check")
        (codes "Filesystem check completed") result

  pub sysload_mounts : M (Out W) (Unit {0})
  sysload_mounts = do
    sysload_log (codes "Mounting local filesystems")
    result ← sysload_exec mount_path (mount_path ∷ codes "-a" ∷ [])
    report_result (codes "Mount execution failed WARN") (codes "mount -a")
        (codes "Local filesystems mounted") result

  pub sysload_swap : M (Out W) (Unit {0})
  sysload_swap = do
    sysload_log (codes "Activating swap")
    result ← sysload_exec swapon_path (swapon_path ∷ codes "-a" ∷ [])
    report_result (codes "Swap activation execution failed WARN") (codes "swapon -a")
        (codes "Swap activated") result

  -- the phases whose failure is only reported
  pub sysload_recoverable : M (Out W) (Unit {0})
  sysload_recoverable = do
    sysload_fsck
    sysload_mounts
    sysload_swap
    sysload_log (codes "System preparation complete")

  -- `result = phase (); if (result < 0) { log; return; }`, and then `k`
  pub essential : M (Out W) ℤ → Text → M (Out W) (Unit {0}) → M (Out W) (Unit {0})
  essential phase message k = do
    result ← phase
    if is_negative result then sysload_log message else k

  pub sysload_prepare : M (Out W) (Unit {0})
  sysload_prepare = do
    sysload_log (codes "Starting system preparation")
    essential sysload_virtualfs (codes "Virtual filesystem phase failed") (
        essential sysload_devices (codes "Device filesystem phase failed") (
          essential sysload_runtime (codes "Runtime environment phase failed") sysload_recoverable))
