-- ===== src/Machine/Shutdown.antt =====
-- [SYSLOAD]/sysdown.c: swap and file systems are given up, and the machine is powered off.
pub mod PoweringOff
use hail2_repos.Prelude.{
  ℕ, List, [], ◌∷◌, ◌++◌, ℤ, pos, minus_one, is_negative, eq_ℤ, Text, codes, show_int,
  if◌then◌else◌,
}
use hail2_repos.Kernel.{
  System, Answer, done, failed, Out, M, pure, call, emit, complain, synced, powered_off, ◌>>=◌,
  ◌>>◌,
}
use hail2_repos.Machine.Exec.{exec_program, tagged}

abbrev pub swapoff_path : Text
swapoff_path = codes "/sbin/swapoff"

abbrev pub umount_path : Text
umount_path = codes "/bin/umount"

module _ {W : Type 0} where
  -- printf and fprintf of this file
  abbrev pub sysdown_say : Text → M (Out W) (Unit {0})
  sysdown_say text = complain (tagged (codes "SYSDOWN") text)

module _ {W : Type 0} (os : System W) where
  abbrev pub sysdown_exec : Text → List Text → M (Out W) ℤ
  sysdown_exec program argv = exec_program os (codes "SYSDOWN") program argv

  -- what is reported of a program
  pub sysdown_report : Text → ℤ → M (Out W) (Unit {0})
  sysdown_report name result =
      if is_negative result
      then sysdown_say (name ++ codes " execution failed WARN")
      else if eq_ℤ result (pos 0)
      then pure tt
      else sysdown_say
          (name ++ (codes " -a returned status " ++ (show_int result ++ codes " WARN")))

  pub sysdown_swapoff : M (Out W) (Unit {0})
  sysdown_swapoff = do
    sysdown_say (codes "Deactivating swap")
    result ← sysdown_exec swapoff_path (swapoff_path ∷ codes "-a" ∷ [])
    sysdown_report (codes "swapoff") result

  pub sysdown_umount : M (Out W) (Unit {0})
  sysdown_umount = do
    sysdown_say (codes "Unmounting local filesystems")
    result ← sysdown_exec umount_path (umount_path ∷ codes "-a" ∷ [])
    sysdown_report (codes "umount") result

  pub sync_noted : M (Out W) (Unit {0})
  sync_noted o = (tt, record o { world = os.sync o.world; trace = synced ∷ o.trace })

  pub reboot_answered : Answer (Unit {0}) → M (Out W) ℤ
  reboot_answered (failed e) = do
    sysdown_say (codes "reboot failed: " ++ os.strerror e)
    pure minus_one
  reboot_answered (done _) = do emit powered_off; pure (pos 0)

  pub sysdown_prepare : M (Out W) ℤ
  sysdown_prepare = do
    sysdown_say (codes "Starting system shutdown preparation")
    sysdown_swapoff
    sysdown_umount
    sysdown_say (codes "Doing sync")
    sync_noted
    sysdown_say (codes "System shutdown preparation complete")
    sysdown_say (codes "Powering off")
    r ← call os.reboot
    reboot_answered r
