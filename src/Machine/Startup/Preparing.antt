-- ===== src/Machine/Startup/Preparing.antt =====
-- sysload_prepare: the essential steps, in their order, and what runs after them.
use hail2_repos.Prelude.{◌⊎◌, inl, inr, List, [], ◌∷◌, ◌++◌, ℤ, Text, codes}
use hail2_repos.Kernel.{System, Settles, M, Event, Out}
use hail2_repos.Machine.Exec.Running.{Ran}
use hail2_repos.Machine.Startup.{
  sysload_log, sysload_virtualfs, sysload_devices, sysload_runtime, sysload_fsck, sysload_mounts,
  sysload_recoverable, essential, sysload_prepare, fsck_path, mount_path, swapon_path,
}
use hail2_repos.Machine.Startup.Steps.{
  Through, Stopped, Does, Through-trans, Stopped-later, Stopped-after,
}
use hail2_repos.Machine.Startup.Phases.{
  virtualfs_steps, device_steps, runtime_steps, sysload_virtualfs-Does, sysload_devices-Does,
  sysload_runtime-Does, sysload_fsck-Ran, sysload_mounts-Ran, sysload_swap-Ran,
}

-- the directories and mounts that startup needs
abbrev pub essential_steps : List Event
essential_steps = virtualfs_steps ++ (device_steps ++ runtime_steps)

-- fsck, mount and swapon, each of them run or not started
abbrev pub RunsPrograms : {W : Type 0} → System W → List Event → List Event → Type 0
RunsPrograms os old new =
    (t : List Event) × (v : List Event) × (a b c : ℤ) × Ran os
      (fsck_path ∷ codes "-A" ∷ codes "-V" ∷ []) old a t
    × Ran os (mount_path ∷ codes "-a" ∷ []) t b v
    × Ran os (swapon_path ∷ codes "-a" ∷ []) v c new

-- The essential steps stopped and nothing ran, or they were all done and then the programs ran.
abbrev pub Prepares : {W : Type 0} → System W → List Event → List Event → Type 0
Prepares os old new =
    Stopped os essential_steps old new
    ⊎ ((ready : List Event) × Through os essential_steps old ready × RunsPrograms os ready new)

module _ {W : Type 0} (os : System W) where
  -- an essential phase, before what follows it
  essential-Does :
      {Q : List Event → Type 0} (es : List Event) (phase : M (Out W) ℤ) (message : Text)
      (k : M (Out W) (Unit {0})) (o : Out W)
      → Does os es o.trace (phase o).0 (phase o).1.trace
      → ((new : List Event) → Stopped os es o.trace new → Q new)
      → ((u : Out W) → Through os es o.trace u.trace → Q (k u).1.trace)
      → Q (essential os phase message k o).1.trace
  unfolding essential
  essential-Does es phase message k o (inl h) f g = rw h.0 (g (phase o).1 h.1)
  essential-Does es phase message k o (inr h) f g = rw h.0 (f (phase o).1.trace h.1)

  module _ (st : Settles os) where
    sysload_recoverable-RunsPrograms :
        (o : Out W) → RunsPrograms os o.trace (sysload_recoverable os o).1.trace
    unfolding sysload_recoverable
    sysload_recoverable-RunsPrograms o =
        let u = (sysload_fsck os o).1 in
        let v = (sysload_mounts os u).1 in
        let a = sysload_fsck-Ran os st o in
        let b = sysload_mounts-Ran os st u in
        let c = sysload_swap-Ran os st v in (u.trace, v.trace, a.0, b.0, c.0, a.1, b.1, c.1)

    -- sysload_prepare makes its directories and mounts in order, where one that the kernel says
    -- is there counts as made. Either it stops before one of them, whose call failed, and runs
    -- no program, or all are made and then fsck, mount -a and swapon -a run in this order,
    -- whatever they return, and each that was started is waited for. The waits end where
    -- interruptions are finite.
    pub sysload_prepare-Prepares : (o : Out W) → Prepares os o.trace (sysload_prepare os o).1.trace
    unfolding sysload_prepare
    sysload_prepare-Prepares o =
        let u = (sysload_log (codes "Starting system preparation") o).1 in
        let rest = device_steps ++ runtime_steps in
        essential-Does {Q = Prepares os o.trace} virtualfs_steps (sysload_virtualfs os)
          (codes "Virtual filesystem phase failed") _ u (sysload_virtualfs-Does os u)
          (λ new h. inl (Stopped-later os virtualfs_steps rest o.trace new h))
          λ v h.
            essential-Does {Q = Prepares os o.trace} device_steps (sysload_devices os)
              (codes "Device filesystem phase failed") _ v (sysload_devices-Does os v)
              (λ new k. inl (
                Stopped-after os virtualfs_steps rest o.trace v.trace new h
                  (Stopped-later os device_steps runtime_steps v.trace new k)))
              λ x k.
                essential-Does {Q = Prepares os o.trace} runtime_steps (sysload_runtime os)
                  (codes "Runtime environment phase failed") (sysload_recoverable os) x
                  (sysload_runtime-Does os x)
                  (λ new l. inl (
                    Stopped-after os virtualfs_steps rest o.trace v.trace new h
                      (Stopped-after os device_steps runtime_steps v.trace x.trace new k l)))
                  λ y l. inr (
                    y.trace,
                    Through-trans os virtualfs_steps rest o.trace v.trace y.trace h
                        (Through-trans os device_steps runtime_steps v.trace x.trace y.trace k l),
                    sysload_recoverable-RunsPrograms y,
                  )
