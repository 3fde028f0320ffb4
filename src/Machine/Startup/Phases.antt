-- ===== src/Machine/Startup/Phases.antt =====
-- The phases of sysload_prepare, one by one.
use hail2_repos.Prelude.{
  ◌≡◌, refl, inl, some, none, List, [], ◌∷◌, ◌++◌, ℤ, pos, is_negative, eq_ℤ, Text, codes, if_cases,
}
use hail2_repos.Kernel.{System, Settles, M, pure, ◌>>◌, ◌>>=◌, Event, made_directory, mounted, Out}
use hail2_repos.Machine.Exec.{exec_program}
use hail2_repos.Machine.Exec.Running.{Ran, exec_program-Ran}
use hail2_repos.Machine.Startup.{
  check, sysload_log, sysload_mkdir, mount_point, sysload_virtualfs, sysload_devices,
  sysload_runtime, report_result, sysload_fsck, sysload_mounts, sysload_swap, fsck_path, mount_path,
  swapon_path,
}
use hail2_repos.Machine.Startup.Steps.{Does, check-Does, sysload_mkdir-Does, mount_point-Does}

abbrev pub virtualfs_steps : List Event
virtualfs_steps =
    made_directory (codes "/proc")
    ∷ mounted (codes "/proc")
    ∷ made_directory (codes "/sys")
    ∷ mounted (codes "/sys")
    ∷ made_directory (codes "/run")
    ∷ mounted (codes "/run")
    ∷ []

abbrev pub device_steps : List Event
device_steps =
    made_directory (codes "/dev")
    ∷ mounted (codes "/dev")
    ∷ made_directory (codes "/dev/pts")
    ∷ mounted (codes "/dev/pts")
    ∷ made_directory (codes "/dev/shm")
    ∷ mounted (codes "/dev/shm")
    ∷ []

abbrev pub runtime_steps : List Event
runtime_steps =
    made_directory (codes "/run/hinit")
    ∷ made_directory (codes "/run/lock")
    ∷ made_directory (codes "/run/user")
    ∷ []

module _ {W : Type 0} (os : System W) where
  -- three parts of a phase, and its last line
  three-Does :
      (es fs gs : List Event) (m k l : M (Out W) ℤ) (ready : Text) (o : Out W)
      → ((u : Out W) → Does os es u.trace (m u).0 (m u).1.trace)
      → ((u : Out W) → Does os fs u.trace (k u).0 (k u).1.trace)
      → ((u : Out W) → Does os gs u.trace (l u).0 (l u).1.trace)
      → let q = check m (check k (check l (do sysload_log ready; pure (pos 0)))) o in
        Does os (es ++ (fs ++ (gs ++ []))) o.trace q.0 q.1.trace
  three-Does es fs gs m k l ready o a b c =
      check-Does os es (fs ++ (gs ++ [])) m (check k (check l (do sysload_log ready; pure (pos 0))))
        o (a o)
        λ u.
          check-Does os fs (gs ++ []) k (check l (do sysload_log ready; pure (pos 0))) u (b u) λ v.
            check-Does os gs [] l (do sysload_log ready; pure (pos 0)) v (c v) λ x. inl (refl, refl)

  pub sysload_virtualfs-Does :
      (o : Out W) → let q = sysload_virtualfs os o in Does os virtualfs_steps o.trace q.0 q.1.trace
  unfolding sysload_virtualfs
  sysload_virtualfs-Does o =
      three-Does (made_directory (codes "/proc") ∷ mounted (codes "/proc") ∷ [])
        (made_directory (codes "/sys") ∷ mounted (codes "/sys") ∷ [])
        (made_directory (codes "/run") ∷ mounted (codes "/run") ∷ [])
        (mount_point os (codes "/proc") 0o555 (codes "proc") none)
        (mount_point os (codes "/sys") 0o555 (codes "sysfs") none)
        (mount_point os (codes "/run") 0o755 (codes "tmpfs") (some (codes "mode=0755")))
        (codes "Virtual filesystems ready") (sysload_log (codes "Virtual filesystem phase") o).1
        (mount_point-Does os (codes "/proc") 0o555 (codes "proc") none)
        (mount_point-Does os (codes "/sys") 0o555 (codes "sysfs") none)
        (mount_point-Does os (codes "/run") 0o755 (codes "tmpfs") (some (codes "mode=0755")))

  pub sysload_devices-Does :
      (o : Out W) → let q = sysload_devices os o in Does os device_steps o.trace q.0 q.1.trace
  unfolding sysload_devices
  sysload_devices-Does o =
      three-Does (made_directory (codes "/dev") ∷ mounted (codes "/dev") ∷ [])
        (made_directory (codes "/dev/pts") ∷ mounted (codes "/dev/pts") ∷ [])
        (made_directory (codes "/dev/shm") ∷ mounted (codes "/dev/shm") ∷ [])
        (mount_point os (codes "/dev") 0o755 (codes "devtmpfs") none)
        (mount_point os (codes "/dev/pts") 0o755 (codes "devpts") none)
        (mount_point os (codes "/dev/shm") 0o1777 (codes "tmpfs") (some (codes "mode=1777")))
        (codes "Device filesystem ready") (sysload_log (codes "Device filesystem phase") o).1
        (mount_point-Does os (codes "/dev") 0o755 (codes "devtmpfs") none)
        (mount_point-Does os (codes "/dev/pts") 0o755 (codes "devpts") none)
        (mount_point-Does os (codes "/dev/shm") 0o1777 (codes "tmpfs") (some (codes "mode=1777")))

  pub sysload_runtime-Does :
      (o : Out W) → let q = sysload_runtime os o in Does os runtime_steps o.trace q.0 q.1.trace
  unfolding sysload_runtime
  sysload_runtime-Does o =
      three-Does (made_directory (codes "/run/hinit") ∷ [])
        (made_directory (codes "/run/lock") ∷ []) (made_directory (codes "/run/user") ∷ [])
        (sysload_mkdir os (codes "/run/hinit") 0o755) (sysload_mkdir os (codes "/run/lock") 0o775)
        (sysload_mkdir os (codes "/run/user") 0o755) (codes "Runtime environment ready")
        (sysload_log (codes "Runtime phase") o).1 (sysload_mkdir-Does os (codes "/run/hinit") 0o755)
        (sysload_mkdir-Does os (codes "/run/lock") 0o775)
        (sysload_mkdir-Does os (codes "/run/user") 0o755)

  report_result-trace :
      (not_run ran finished : Text) (result : ℤ) (o : Out W)
      → (report_result os not_run ran finished result o).1.trace ≡ o.trace
  unfolding report_result
  report_result-trace not_run ran finished result o =
      let P = λ (m : M (Out W) (Unit {0})). (m o).1.trace ≡ o.trace in
      if_cases P (is_negative result) (λ _. refl)
        (λ _. if_cases P (eq_ℤ result (pos 0)) (λ _. refl) (λ _. refl))

  module _ (st : Settles os) where
    -- a phase that runs one program and reports its result
    program_phase-Ran :
        (phase not_run ran finished program : Text) (argv : List Text) (o : Out W)
        → let q =
            (do
              sysload_log phase
              result ← exec_program os (codes "SYSLOAD") program argv
              report_result os not_run ran finished result)
              o in
          (a : ℤ) × Ran os argv o.trace a q.1.trace
    program_phase-Ran phase not_run ran finished program argv o =
        let u = (sysload_log phase o).1 in
        let q = exec_program os (codes "SYSLOAD") program argv u in
        rw (report_result-trace not_run ran finished q.0 q.1)
          (q.0, exec_program-Ran os st (codes "SYSLOAD") program argv u)

    pub sysload_fsck-Ran :
        (o : Out W)
        → (a : ℤ) × Ran os
            (fsck_path ∷ codes "-A" ∷ codes "-V" ∷ [])
            o.trace
            a
            (sysload_fsck os o).1.trace
    unfolding sysload_fsck
    sysload_fsck-Ran =
        program_phase-Ran (codes "Filesystem check phase")
          (codes "Filesystem check execution failed WARN") (codes "Filesystem check")
          (codes "Filesystem check completed") fsck_path (fsck_path ∷ codes "-A" ∷ codes "-V" ∷ [])

    pub sysload_mounts-Ran :
        (o : Out W)
        → (a : ℤ) × Ran os (mount_path ∷ codes "-a" ∷ []) o.trace a (sysload_mounts os o).1.trace
    unfolding sysload_mounts
    sysload_mounts-Ran =
        program_phase-Ran (codes "Mounting local filesystems") (codes "Mount execution failed WARN")
          (codes "mount -a") (codes "Local filesystems mounted") mount_path
          (mount_path ∷ codes "-a" ∷ [])

    pub sysload_swap-Ran :
        (o : Out W)
        → (a : ℤ) × Ran os (swapon_path ∷ codes "-a" ∷ []) o.trace a (sysload_swap os o).1.trace
    unfolding sysload_swap
    sysload_swap-Ran =
        program_phase-Ran (codes "Activating swap") (codes "Swap activation execution failed WARN")
          (codes "swapon -a") (codes "Swap activated") swapon_path (swapon_path ∷ codes "-a" ∷ [])
