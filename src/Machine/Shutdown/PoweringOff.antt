-- ===== src/Machine/Shutdown/PoweringOff.antt =====
-- sysdown_prepare: what runs, and in which order, before the machine is powered off.
use hail2_repos.Prelude.{
  ℕ, ◌≡◌, refl, ◌⊎◌, inl, inr, List, [], ◌∷◌, ℤ, pos, minus_one, is_negative, eq_ℤ, Text, codes,
  if_cases,
}
use hail2_repos.Kernel.{System, Settles, Answer, done, failed, M, Out, Event, synced, powered_off}
use hail2_repos.Machine.Exec.{exec_program}
use hail2_repos.Machine.Exec.Running.{Ran, exec_program-Ran}
use hail2_repos.Machine.Shutdown.{
  swapoff_path, umount_path, sysdown_say, sysdown_report, sysdown_swapoff, sysdown_umount,
  sync_noted, reboot_answered, sysdown_prepare,
}

-- swapoff and umount, each of them run or not started; then sync; then the request to power off
abbrev pub PowersOff : {W : Type 0} → System W → List Event → ℤ → List Event → Type 0
PowersOff {W} os old result new =
    (t v : List Event) × (a b : ℤ) × Ran os (swapoff_path ∷ codes "-a" ∷ []) old a t
    × Ran os (umount_path ∷ codes "-a" ∷ []) t b v
    × (((w : W) × ((os.reboot w).0 ≡ done tt) × (result ≡ pos 0) × (new ≡ powered_off ∷ synced ∷ v))
        ⊎ ((e : ℕ) × (w : W) × ((os.reboot w).0 ≡ failed e)
            × (result ≡ minus_one)
            × (new ≡ synced ∷ v)))

module _ {W : Type 0} (os : System W) where
  sysdown_report-trace :
      (name : Text) (result : ℤ) (o : Out W) → (sysdown_report os name result o).1.trace ≡ o.trace
  unfolding sysdown_report
  sysdown_report-trace name result o =
      let P = λ (m : M (Out W) (Unit {0})). (m o).1.trace ≡ o.trace in
      if_cases P (is_negative result) (λ _. refl)
        (λ _. if_cases P (eq_ℤ result (pos 0)) (λ _. refl) (λ _. refl))

  reboot_answered-result :
      (r : Answer (Unit {0})) (w : W) (o : Out W)
      → (os.reboot w).0 ≡ r
      → let q = reboot_answered os r o in
        ((v : W) × ((os.reboot v).0 ≡ done tt)
          × (q.0 ≡ pos 0)
          × (q.1.trace ≡ powered_off ∷ o.trace))
        ⊎ ((e : ℕ) × (v : W) × ((os.reboot v).0 ≡ failed e)
            × (q.0 ≡ minus_one)
            × (q.1.trace ≡ o.trace))
  unfolding reboot_answered
  reboot_answered-result (failed e) w o h = inr (e, w, h, refl, refl)
  reboot_answered-result (done _) w o h = inl (w, h, refl, refl)

  module _ (st : Settles os) where
    sysdown_swapoff-Ran :
        (o : Out W)
        → (a : ℤ) × Ran os (swapoff_path ∷ codes "-a" ∷ []) o.trace a (sysdown_swapoff os o).1.trace
    unfolding sysdown_swapoff
    sysdown_swapoff-Ran o =
        let argv = swapoff_path ∷ codes "-a" ∷ [] in
        let u = (sysdown_say (codes "Deactivating swap") o).1 in
        let q = exec_program os (codes "SYSDOWN") swapoff_path argv u in
        rw (sysdown_report-trace (codes "swapoff") q.0 q.1)
          (q.0, exec_program-Ran os st (codes "SYSDOWN") swapoff_path argv u)

    sysdown_umount-Ran :
        (o : Out W)
        → (a : ℤ) × Ran os (umount_path ∷ codes "-a" ∷ []) o.trace a (sysdown_umount os o).1.trace
    unfolding sysdown_umount
    sysdown_umount-Ran o =
        let argv = umount_path ∷ codes "-a" ∷ [] in
        let u = (sysdown_say (codes "Unmounting local filesystems") o).1 in
        let q = exec_program os (codes "SYSDOWN") umount_path argv u in
        rw (sysdown_report-trace (codes "umount") q.0 q.1)
          (q.0, exec_program-Ran os st (codes "SYSDOWN") umount_path argv u)

    -- sysdown_prepare runs swapoff and then umount, each waited for when it was started, and
    -- goes on whatever they return; it then flushes the file systems once and calls reboot to
    -- power off last: it returns 0 when the call succeeds and -1 when it fails. The waits end
    -- where interruptions are finite.
    pub sysdown_prepare-PowersOff :
        (o : Out W) → PowersOff os o.trace (sysdown_prepare os o).0 (sysdown_prepare os o).1.trace
    unfolding sysdown_prepare sync_noted
    sysdown_prepare-PowersOff o =
        let u = (sysdown_say (codes "Starting system shutdown preparation") o).1 in
        let v = (sysdown_swapoff os u).1 in
        let x = (sysdown_umount os v).1 in
        let y = (sync_noted os (sysdown_say (codes "Doing sync") x).1).1 in
        let z =
          (sysdown_say (codes "Powering off")
            (sysdown_say (codes "System shutdown preparation complete") y).1).1 in
        let a = sysdown_swapoff-Ran u in
        let b = sysdown_umount-Ran v in
        (
          v.trace,
          x.trace,
          a.0,
          b.0,
          a.1,
          b.1,
          reboot_answered-result (os.reboot y.world).0 z.world _ refl,
        )
