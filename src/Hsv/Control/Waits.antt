-- ===== src/Hsv/Control/Waits.antt =====
-- The wait for the service's process, and what the system answered.
use hail2_repos.Prelude.{
  ◌<◌, ◌≡◌, ◌≢◌, refl, ap, ◌⊎◌, inl, inr, Bool, true, false, not, ◌&&◌, ℕ, List, ◌∷◌, ℤ, pos, eq_ℤ,
  ◌==◌, ==_iff, ne_of_test, eq_ℤ-cases, if_cases,
}
use hail2_repos.Kernel.{System, Answer, done, failed, Waited, M, Event, collected, unreachable}
use hail2_repos.Kernel.Errno.{eintr}
use hail2_repos.Kernel.Watchful.{Watchful}
use hail2_repos.Hsv.Control.{Supervisor, waitpid_answered, hsv_waitpid}
use hail2_repos.Hsv.Control.Effects.{Calm}

-- waitpid handed the process over, or failed other than by a signal.
abbrev pub Leaves : {W : Type 0} → System W → ℤ → List Event → List Event → Type 0
Leaves {W} os pid old new =
    ((x : Waited) × (w : W) × (nohang : Bool) × ((os.waitpid pid nohang w).0 ≡ done x)
      × ((pos x.pid ≡ pid) ⊎ (nohang ≡ false))
      × (new ≡ collected pid x.status ∷ old))
    ⊎ ((e : ℕ) × (w : W) × (nohang : Bool) × ((os.waitpid pid nohang w).0 ≡ failed e)
        × (e ≢ eintr)
        × (new ≡ unreachable pid e ∷ old))

-- One wait: the process leaves, still runs, or a signal interrupts.
pub data Waits {W : Type 0} (os : System W) (pid : ℤ) (nohang : Bool) (s : Supervisor W)
    (q : Answer Waited × Supervisor W) : Type 0 where
  came :
      (x : Waited)
      → q.0 ≡ done x
      → (nohang && not (eq_ℤ (pos x.pid) pid)) ≡ false
      → Leaves os pid s.out.trace q.1.out.trace
      → Waits os pid nohang s q
  runs_on :
      (x : Waited)
      → q.0 ≡ done x
      → (nohang && not (eq_ℤ (pos x.pid) pid)) ≡ true
      → q.1.out.trace ≡ s.out.trace
      → Waits os pid nohang s q
  broken_off :
      q.0 ≡ failed eintr
      → os.patience q.1.out.world < os.patience s.out.world
      → q.1.out.trace ≡ s.out.trace
      → Waits os pid nohang s q
  refused :
      (e : ℕ)
      → q.0 ≡ failed e
      → (e == eintr) ≡ false
      → Leaves os pid s.out.trace q.1.out.trace
      → Waits os pid nohang s q

-- A wait without WNOHANG, or one that returned the pid.
returned :
    (nohang : Bool) (a b : ℤ) → (nohang && not (eq_ℤ a b)) ≡ false → (a ≡ b) ⊎ (nohang ≡ false)
returned false a b h = inr refl
returned true a b h = elim (eq_ℤ-cases a b) [ inl e ↦ inl e.0 | inr e ↦ absurd (cc (h, e.1)) ]

module _ {W : Type 0} (os : System W) (wt : Watchful os) (pid : ℤ) (nohang : Bool) where
  waitpid_answered-Waits :
      (r : Answer Waited) (s : Supervisor W)
      → (os.waitpid pid nohang s.out.world).0 ≡ r
      → let u = record s { out = record s.out { world = (os.waitpid pid nohang s.out.world).1 } } in
        let q = waitpid_answered os nohang pid r u in Calm os s q.1 × Waits os pid nohang s q
  unfolding waitpid_answered
  waitpid_answered-Waits (done x) s h =
      let u = record s { out = record s.out { world = (os.waitpid pid nohang s.out.world).1 } } in
      let P =
        λ (m : M (Supervisor W) (Answer Waited)). Calm os s (m u).1 × Waits os pid nohang s (m u) in
      let quiet = wt.quiet_waitpid pid nohang s.out.world in
      if_cases P (nohang && not (eq_ℤ (pos x.pid) pid)) (λ k. (quiet, runs_on x refl k refl))
        (λ k. (
          quiet,
          came x refl k (inl (x, s.out.world, nohang, h, returned nohang (pos x.pid) pid k, refl)),
        ))
  waitpid_answered-Waits (failed e) s h =
      let u = record s { out = record s.out { world = (os.waitpid pid nohang s.out.world).1 } } in
      let P =
        λ (m : M (Supervisor W) (Answer Waited)). Calm os s (m u).1 × Waits os pid nohang s (m u) in
      let quiet = wt.quiet_waitpid pid nohang s.out.world in
      if_cases P (e == eintr)
        (λ k.
          let stopped : e ≡ eintr = (==_iff e eintr).0 k in
          (
            quiet,
            broken_off (ap failed stopped)
                (wt.settles.interrupted pid nohang s.out.world (rw h (ap failed stopped))) refl,
          ))
        (λ k.
          (quiet, refused e refl k (inr (e, s.out.world, nohang, h, ne_of_test e eintr k, refl))))

  pub hsv_waitpid-Waits :
      (s : Supervisor W)
      → Calm os s (hsv_waitpid os nohang pid s).1
        × Waits os pid nohang s (hsv_waitpid os nohang pid s)
  unfolding hsv_waitpid
  hsv_waitpid-Waits s = waitpid_answered-Waits (os.waitpid pid nohang s.out.world).0 s refl
