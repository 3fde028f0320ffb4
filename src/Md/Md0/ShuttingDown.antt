-- ===== src/Md/Md0/ShuttingDown.antt =====
-- What the program of the shutdown mode does to the processes and to the machine.
use hail2_repos.Prelude.{
  ℕ, Text, ℤ, is_negative, codes, ◌≡◌, refl, ◌∙◌, subst, sym, ◌⊎◌, inl, inr, if_cases, List, [],
}
use hail2_repos.Kernel.{System, Settles, M, Event}
use hail2_repos.Log.{log_init, say, log_level_log}
use hail2_repos.Log.Effects.{trace-say, trace-log_init}
use hail2_repos.Image.{Image, lift, fresh}
use hail2_repos.Load.Boot.{hsv_shutdown_all}
use hail2_repos.Load.Boot.Shutdown.{Stops, last_first, Stops-nothing, hsv_shutdown_all-Stops}
use hail2_repos.Machine.Shutdown.{sysdown_prepare}
use hail2_repos.Machine.Shutdown.PoweringOff.{PowersOff, sysdown_prepare-PowersOff}
use hail2_repos.Md.Md0.{md0_opened, md0_begin, md0_main}

module _ {W : Type 0} (os : System W) where
  -- `main` after log_init, for any table
  md0_opened-PowersOff :
      (st : Settles os) (s : Image W)
      → (mid : List Event) × (result : ℤ) × Stops os
          (last_first s.load.hsv_count s.load.slot)
          s.out.trace
          mid
        × PowersOff os mid result (md0_opened os s).1.out.trace
  unfolding md0_opened
  md0_opened-PowersOff st s =
      let d = codes "MD0" in
      let note = λ (m : Text) (u : Image W). (lift (say os d m log_level_log) u).1 in
      let quiet = λ (m : Text) (u : Image W). trace-say os d m log_level_log u.out in
      let s1 = note (codes "STARTING SHUTDOWN") s in
      let s2 = note (codes "STOPPING HSV") s1 in
      let s3 = (hsv_shutdown_all os s2).1 in
      let s4 = note (codes "HSV STOPPED") s3 in
      let s5 = note (codes "RUNNING SYSDOWN") s4 in
      let q = sysdown_prepare os s5.out in
      let s6 = (lift (sysdown_prepare os) s5).1 in
      let s7 = note (codes "SYSDOWN RETURNED") s6 in
      (
        s3.out.trace,
        q.0,
        subst (λ t. Stops os (last_first s.load.hsv_count s.load.slot) t s3.out.trace)
            (quiet (codes "STOPPING HSV") s1 ∙ quiet (codes "STARTING SHUTDOWN") s)
            (hsv_shutdown_all-Stops os st s2).1,
        subst (λ t. PowersOff os t q.0 (md0_opened os s).1.out.trace)
            (quiet (codes "RUNNING SYSDOWN") s4 ∙ quiet (codes "HSV STOPPED") s3)
            (subst (PowersOff os s5.out.trace q.0)
              (sym (quiet (codes "SHUTDOWN COMPLETE") s7 ∙ quiet (codes "SYSDOWN RETURNED") s6))
              (sysdown_prepare-PowersOff os st s5.out)),
      )

module _ {W : Type 0} (os : System W) (st : Settles os) where
  -- Where interruptions are finite, the shutdown program, which starts with its static
  -- initialisers, exits with 1 and nothing done, or with 0 after the events of sysdown_prepare
  -- and no others: its call of hsv_shutdown_all signals and collects no supervisor.
  pub md0_main-PowersOff :
      (w : W)
      → let r = md0_main os (fresh w) in
        ((r.0 ≡ 1) × (r.1.out.trace ≡ []))
        ⊎ ((r.0 ≡ 0) × ((result : ℤ) × PowersOff os [] result r.1.out.trace))
  unfolding md0_main md0_begin
  md0_main-PowersOff w =
      let u = (lift (log_init os) (fresh w)).1 in
      let opened = trace-log_init os (fresh w).out in
      let (mid, result, stops, down) = md0_opened-PowersOff os st u in
      if_cases
        (λ (m : M (Image W) ℕ).
          (((m u).0 ≡ 1) × ((m u).1.out.trace ≡ []))
          ⊎ (((m u).0 ≡ 0) × ((result : ℤ) × PowersOff os [] result (m u).1.out.trace)))
        (is_negative (log_init os (fresh w).out).0) (λ _. inl (refl, opened))
        (λ _. inr (
          unfold md0_opened in refl,
          (
            result,
            subst (λ t. PowersOff os t result (md0_opened os u).1.out.trace)
                (Stops-nothing os u.load.hsv_count u.load.slot _ _ refl stops ∙ opened) down,
          ),
        ))
