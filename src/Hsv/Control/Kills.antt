-- ===== src/Hsv/Control/Kills.antt =====
-- The signals that the supervisor sends, and what the system answered.
use hail2_repos.Prelude.{◌≡◌, refl, ap, inl, inr, false, ℕ, List, ◌∷◌, ℤ, ◌==◌, ==_iff, if_cases}
use hail2_repos.Kernel.{System, Answer, done, failed, M, Event, unreachable}
use hail2_repos.Kernel.Errno.{esrch}
use hail2_repos.Kernel.Refusals.{Sends}
use hail2_repos.Kernel.Watchful.{Watchful}
use hail2_repos.Hsv.Control.{Supervisor, kill_answered, hsv_kill}
use hail2_repos.Hsv.Control.Effects.{Calm}

-- kill says that there is no such process.
abbrev pub Gone : {W : Type 0} → System W → ℤ → ℤ → List Event → List Event → Type 0
Gone {W} os pid sig old new =
    (w : W) × ((os.kill pid sig w).0 ≡ failed esrch) × (new ≡ unreachable pid esrch ∷ old)

-- What a call of kill answers and adds.
pub data Kills {W : Type 0} (os : System W) (pid sig : ℤ) (s : Supervisor W)
    (q : Answer (Unit {0}) × Supervisor W) : Type 0 where
  sent : q.0 ≡ done tt → Sends os pid sig s.out.trace q.1.out.trace → Kills os pid sig s q
  not_sent :
      (e : ℕ)
      → q.0 ≡ failed e
      → (e == esrch) ≡ false
      → Sends os pid sig s.out.trace q.1.out.trace
      → Kills os pid sig s q
  no_process : q.0 ≡ failed esrch → Gone os pid sig s.out.trace q.1.out.trace → Kills os pid sig s q

module _ {W : Type 0} (os : System W) (wt : Watchful os) where
  kill_answered-Kills :
      (pid sig : ℤ) (r : Answer (Unit {0})) (s : Supervisor W)
      → (os.kill pid sig s.out.world).0 ≡ r
      → let u = record s { out = record s.out { world = (os.kill pid sig s.out.world).1 } } in
        let q = kill_answered os pid sig r u in Calm os s q.1 × Kills os pid sig s q
  unfolding kill_answered
  kill_answered-Kills pid sig (done x) s h =
      (wt.quiet_kill pid sig s.out.world, sent refl (inl refl))
  kill_answered-Kills pid sig (failed e) s h =
      let u = record s { out = record s.out { world = (os.kill pid sig s.out.world).1 } } in
      let P = λ (m : M (Supervisor W) (Answer (Unit {0}))).
        Calm os s (m u).1 × Kills os pid sig s (m u) in
      let quiet = wt.quiet_kill pid sig s.out.world in
      if_cases P (e == esrch)
        (λ k.
          let absent : e ≡ esrch = (==_iff e esrch).0 k in
          (
            quiet,
            no_process (ap failed absent) (
              s.out.world,
              rw h (ap failed absent),
              ap (λ (n : ℕ). unreachable pid n ∷ s.out.trace) absent,
            ),
          ))
        (λ k. (quiet, not_sent e refl k (inr ((e, s.out.world, h), refl))))

  pub hsv_kill-Kills :
      (pid sig : ℤ) (s : Supervisor W)
      → Calm os s (hsv_kill os pid sig s).1 × Kills os pid sig s (hsv_kill os pid sig s)
  unfolding hsv_kill
  hsv_kill-Kills pid sig s = kill_answered-Kills pid sig (os.kill pid sig s.out.world).0 s refl
