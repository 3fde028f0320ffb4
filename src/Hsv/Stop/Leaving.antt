-- ===== src/Hsv/Stop/Leaving.antt =====
-- How hsv_stop_service leaves the service's process.
use hail2_repos.Prelude.{
  ℕ, zero, suc, ◌*◌, ◌≤◌, ◌<◌, ◌≡◌, ◌∙◌, subst, ap, ◌⊎◌, inl, inr, true, false, List, ◌∷◌, ℤ, pos,
  is_positive, eq_ℤ, codes, ◌==◌, not, if_cases, arith, Bool-cases,
}
use hail2_repos.Kernel.{System, Answer, Waited, M, Event, polled}
use hail2_repos.Kernel.Errno.{echild}
use hail2_repos.Kernel.Refusals.{Sends}
use hail2_repos.Kernel.SignalNumber.{sigterm, sigkill}
use hail2_repos.Kernel.Watchful.{Watchful}
use hail2_repos.Log.{log_level_warn}
use hail2_repos.Hsv.Control.{Supervisor, hsv_log, hsv_kill, hsv_waitpid, hsv_sleep_ms}
use hail2_repos.Hsv.Control.Effects.{Calm, hsv_log-Silent, hsv_sleep_ms-Silent}
use hail2_repos.Hsv.Control.Kills.{Gone, Kills, sent, not_sent, no_process, hsv_kill-Kills}
use hail2_repos.Hsv.Control.Waits.{
  Leaves, Waits, came, runs_on, broken_off, refused, hsv_waitpid-Waits,
}
use hail2_repos.Hsv.Stop.{
  hsv_stop_timeout, force_answered, force_wait, force_begin, force_killed, force_stop, stop_polled,
  stop_wait, stop_killed, hsv_stop_service,
}

-- a number of looks for the process
abbrev pub polls : ℤ → ℕ → List Event → List Event
polls pid zero old = old
polls pid (suc n) old = polls pid n (polled pid ∷ old)

-- SIGKILL, and then the process leaves.
abbrev pub Forces : {W : Type 0} → System W → ℤ → List Event → List Event → Type 0
Forces os pid old new =
    Gone os pid sigkill old new
    ⊎ ((forced : List Event) × Sends os pid sigkill old forced × Leaves os pid forced new)

-- At most so many looks, until the process leaves; after all of them it is forced.
abbrev pub Awaits : {W : Type 0} → System W → ℤ → ℕ → List Event → List Event → Type 0
Awaits os pid rounds old new =
    ((n : ℕ) × (n ≤ rounds) × Leaves os pid (polls pid n old) new)
    ⊎ Forces os pid (polls pid rounds old) new

-- SIGTERM, and then the process leaves within five seconds of looks every 100 ms, or is forced.
abbrev pub Stopping : {W : Type 0} → System W → ℤ → List Event → List Event → Type 0
Stopping os pid old new =
    Gone os pid sigterm old new
    ⊎ ((asked : List Event) × Sends os pid sigterm old asked × Awaits os pid 50 asked new)

module _ {W : Type 0} (os : System W) (wt : Watchful os) (pid : ℤ) where
  abbrev Ends : (List Event → List Event → Type 0) → Supervisor W → Supervisor W → Type 0
  Ends P s u = Calm os s u × P s.out.trace u.out.trace

  force_answered-Leaves :
      (again : M (Supervisor W) (Unit {0})) (s : Supervisor W) (q : Answer Waited × Supervisor W)
      → Calm os s q.1
      → Waits os pid false s q
      → (os.patience q.1.out.world < os.patience s.out.world
          → Ends (Leaves os pid) q.1 (again q.1).1)
      → Ends (Leaves os pid) s (force_answered os again q.0 q.1).1
  unfolding force_answered
  force_answered-Leaves again s q calm (came x e k l) h = rw e (calm, l)
  force_answered-Leaves again s q calm (runs_on x e k l) h = absurd (cc k)
  force_answered-Leaves again s q calm (broken_off e less same) h =
      let rest = h less in
      rw e (
        omega (arith, calm, rest.0),
        subst (λ t. Leaves os pid t (again q.1).1.out.trace) same rest.1,
      )
  force_answered-Leaves again s q calm (refused e f k l) h = rw (f, k) (calm, l)

  force_wait-Leaves :
      (fuel : ℕ) (s : Supervisor W)
      → os.patience s.out.world < fuel
      → Ends (Leaves os pid) s (force_wait os fuel pid s).1
  unfolding force_wait
  force_wait-Leaves zero s h = absurd (omega (arith, h))
  force_wait-Leaves (suc fuel) s h =
      let q = hsv_waitpid os false pid s in
      let (calm, waits) = hsv_waitpid-Waits os wt pid false s in
      force_answered-Leaves (force_wait os fuel pid) s q calm waits
        (λ less. force_wait-Leaves fuel q.1 (omega (arith, h, less)))

  force_begin-Leaves : (s : Supervisor W) → Ends (Leaves os pid) s (force_begin os pid s).1
  unfolding force_begin
  force_begin-Leaves s = force_wait-Leaves _ s (omega arith)

  force_killed-Forces :
      (s : Supervisor W) (q : Answer (Unit {0}) × Supervisor W)
      → Calm os s q.1
      → Kills os pid sigkill s q
      → Ends (Forces os pid) s (force_killed os pid q.0 q.1).1
  unfolding force_killed
  force_killed-Forces s q calm (sent e l) =
      let rest = force_begin-Leaves q.1 in
      rw e (omega (arith, calm, rest.0), inr (q.1.out.trace, l, rest.1))
  force_killed-Forces s q calm (not_sent n e k l) =
      let rest = force_begin-Leaves q.1 in
      rw (e, k) (omega (arith, calm, rest.0), inr (q.1.out.trace, l, rest.1))
  force_killed-Forces s q calm (no_process e g) = rw e (calm, inl g)

  force_stop-Forces : (s : Supervisor W) → Ends (Forces os pid) s (force_stop os pid s).1
  unfolding force_stop
  force_stop-Forces s =
      let m = codes "SERVICE DID NOT STOP, USING SIGKILL" in
      let s1 = (hsv_log os m log_level_warn s).1 in
      let said = hsv_log-Silent os wt m log_level_warn s in
      let (calm, kills) = hsv_kill-Kills os wt pid sigkill s1 in
      let left = force_killed-Forces s1 (hsv_kill os pid sigkill s1) calm kills in
      (
        omega (arith, said.0, left.0),
        subst (λ t. Forces os pid t (force_stop os pid s).1.out.trace) said.1 left.1,
      )

  -- one look more before the others
  Awaits-suc :
      (rounds : ℕ) (old new : List Event)
      → Awaits os pid rounds (polled pid ∷ old) new
      → Awaits os pid (suc rounds) old new
  Awaits-suc rounds old new (inl (n, few, l)) = inl (suc n, omega (arith, few), l)
  Awaits-suc rounds old new (inr f) = inr f

  stop_polled-Awaits :
      (again : M (Supervisor W) (Unit {0})) (rounds : ℕ) (s : Supervisor W)
      (q : Answer Waited × Supervisor W)
      → Calm os s q.1
      → Waits os pid true s q
      → ((u : Supervisor W) → Ends (Awaits os pid rounds) u (again u).1)
      → Calm os s (stop_polled os again pid q.0 q.1).1
        × (Leaves os pid s.out.trace (stop_polled os again pid q.0 q.1).1.out.trace
            ⊎ Awaits os pid rounds s.out.trace (stop_polled os again pid q.0 q.1).1.out.trace)
  unfolding stop_polled
  stop_polled-Awaits again rounds s q calm (came x e k l) h =
      elim (Bool-cases (eq_ℤ (pos x.pid) pid)) [
        | inl t ↦ rw (e, t) (calm, inl l)
        | inr t ↦ absurd (cc (k, ap not t))
      ]
  stop_polled-Awaits again rounds s q calm (runs_on x e k same) h =
      elim (Bool-cases (eq_ℤ (pos x.pid) pid)) [
        | inl t ↦ absurd (cc (k, ap not t))
        | inr t ↦
            let slept = hsv_sleep_ms-Silent os wt 100 q.1 in
            let u = (hsv_sleep_ms os 100 q.1).1 in
            let rest = h u in
            rw (e, t)
              (
                omega (arith, calm, slept.0, rest.0),
                inr (
                    subst (λ t. Awaits os pid rounds t (again u).1.out.trace) (slept.1 ∙ same)
                      rest.1),
              )
      ]
  stop_polled-Awaits again rounds s q calm (broken_off e less same) h =
      let rest = h q.1 in
      rw e (
        omega (arith, calm, rest.0),
        inr (subst (λ t. Awaits os pid rounds t (again q.1).1.out.trace) same rest.1),
      )
  stop_polled-Awaits again rounds s q calm (refused e f k l) h =
      rw (f, k)
        (if_cases
          (λ (m : M (Supervisor W) (Unit {0})).
            Calm os s (m q.1).1
            × (Leaves os pid s.out.trace (m q.1).1.out.trace
                ⊎ Awaits os pid rounds s.out.trace (m q.1).1.out.trace))
          (e == echild) (λ _. (calm, inl l)) (λ _. (calm, inl l)))

  stop_wait-Awaits :
      (rounds : ℕ) (s : Supervisor W) → Ends (Awaits os pid rounds) s (stop_wait os rounds pid s).1
  unfolding stop_wait
  stop_wait-Awaits zero s = let f = force_stop-Forces s in (f.0, inr f.1)
  stop_wait-Awaits (suc rounds) s =
      let u = record s { out = record s.out { trace = polled pid ∷ s.out.trace } } in
      let (calm, waits) = hsv_waitpid-Waits os wt pid true u in
      let rest =
        stop_polled-Awaits (stop_wait os rounds pid) rounds u (hsv_waitpid os true pid u) calm waits
          (stop_wait-Awaits rounds) in
      (
        rest.0,
        elim rest.1 [ inl l ↦ inl (1, omega arith, l) | inr a ↦ Awaits-suc rounds s.out.trace _ a ],
      )

  stop_killed-Stopping :
      (s : Supervisor W) (q : Answer (Unit {0}) × Supervisor W)
      → Calm os s q.1
      → Kills os pid sigterm s q
      → Ends (Stopping os pid) s (stop_killed os pid q.0 q.1).1
  unfolding stop_killed
  stop_killed-Stopping s q calm (sent e l) =
      let rest = stop_wait-Awaits (hsv_stop_timeout * 10) q.1 in
      rw e (omega (arith, calm, rest.0), inr (q.1.out.trace, l, rest.1))
  stop_killed-Stopping s q calm (not_sent n e k l) =
      let rest = stop_wait-Awaits (hsv_stop_timeout * 10) q.1 in
      rw (e, k) (omega (arith, calm, rest.0), inr (q.1.out.trace, l, rest.1))
  stop_killed-Stopping s q calm (no_process e g) = rw e (calm, inl g)

  -- Where SIGTERM comes after finitely many looks for signals and interruptions are finite,
  -- hsv_stop_service for a positive pid returns, and it acts on the process in these steps:
  -- SIGTERM is sent, unless kill fails; then waitpid is called with WNOHANG at most 50 times,
  -- until it hands the process over or fails other than by EINTR; only after all 50 calls
  -- SIGKILL is sent, unless kill fails, and then waitpid hands the process over or fails other
  -- than by EINTR. Where kill fails with ESRCH, the stop ends there.
  pub hsv_stop_service-Stopping :
      (s : Supervisor W)
      → is_positive pid ≡ true
      → Calm os s (hsv_stop_service os pid s).1
        × Stopping os pid s.out.trace (hsv_stop_service os pid s).1.out.trace
  unfolding hsv_stop_service
  hsv_stop_service-Stopping s p =
      let (calm, kills) = hsv_kill-Kills os wt pid sigterm s in
      let stopped = stop_killed-Stopping s (hsv_kill os pid sigterm s) calm kills in
      if_cases (λ (m : M (Supervisor W) (Unit {0})). Ends (Stopping os pid) s (m s).1)
        (is_positive pid) (λ _. stopped) (λ n. cc)
