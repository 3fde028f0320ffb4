-- ===== src/Hsv/Control/Effects.antt =====
-- Sleeping, the handler and the scripts of a service, and the outside.
use hail2_repos.Prelude.{
  ℕ, zero, suc, ◌≤◌, ◌<◌, ◌≡◌, refl, ◌∙◌, ap, ◌⊎◌, inl, inr, true, ◌||◌, some, List, [], ◌∷◌, ℤ,
  pos, is_negative, eq_ℤ, Text, codes, ◌==◌, if_cases, arith, Bool-cases,
}
use hail2_repos.Kernel.{System, Answer, done, failed, Timespec, M, Event, spawned, collected}
use hail2_repos.Kernel.Errno.{eintr, enoent, enotdir, eacces}
use hail2_repos.Kernel.SignalNumber.{sigterm}
use hail2_repos.Kernel.Watchful.{Watchful, has_sigterm}
use hail2_repos.Log.Effects.{say-Quiet, trace-say}
use hail2_repos.Process.{process_spawn, process_wait}
use hail2_repos.Process.Answers.{process_spawn-Forks, process_wait-Gathers}
use hail2_repos.Kernel.Refusals.{NotForked, Gathers}
use hail2_repos.Process.Quiet.{process_spawn-Quiet, process_wait-Quiet}
use hail2_repos.Hsv.Control.{
  Supervisor, hsv_signal, hsv_signals, deliver, hsv_log, script_wait, script_found, hsv_exec_script,
  sleep_flagged, sleep_answered, sleep_loop, hsv_sleep_ms,
}

-- No event is made that a loop of the supervisor waits for.
abbrev pub Calm : {W : Type 0} → System W → Supervisor W → Supervisor W → Type 0
Calm os s u = os.patience u.out.world ≤ os.patience s.out.world

-- And nothing is done to others.
abbrev pub Silent : {W : Type 0} → System W → Supervisor W → Supervisor W → Type 0
Silent os s u = Calm os s u × (u.out.trace ≡ s.out.trace)

-- The script cannot be accessed, or fork fails.
abbrev pub NotRun : {W : Type 0} → System W → Text → Type 0
NotRun {W} os path = ((e : ℕ) × (w : W) × ((os.access path w).0 ≡ failed e)) ⊎ NotForked os

-- The run of a script, which is then collected; it is left out only when it cannot be run.
abbrev pub Runs : {W : Type 0} → System W → Text → List Event → List Event → Type 0
Runs os path old new =
    ((new ≡ old) × NotRun os path)
    ⊎ ((pid : ℕ) × Gathers os (pos pid) (spawned (path ∷ []) pid ∷ old) new)

module _ {W : Type 0} where
  out-hsv_signal : (sig : ℤ) (s : Supervisor W) → (hsv_signal sig s).out ≡ s.out
  unfolding hsv_signal
  out-hsv_signal sig s = ground arith

  out-hsv_signals : (sigs : List ℤ) (s : Supervisor W) → (hsv_signals sigs s).out ≡ s.out
  unfolding hsv_signals
  out-hsv_signals [] s = refl
  out-hsv_signals (sig ∷ sigs) s = out-hsv_signals sigs (hsv_signal sig s) ∙ out-hsv_signal sig s

  -- A flag that is set stays set.
  hsv_signals-kept :
      (sigs : List ℤ) (s : Supervisor W)
      → s.shutting_down ≡ true
      → (hsv_signals sigs s).shutting_down ≡ true
  unfolding hsv_signals hsv_signal
  hsv_signals-kept [] s h = h
  hsv_signals-kept (sig ∷ sigs) s h = hsv_signals-kept sigs (hsv_signal sig s) (ground arith)

  -- SIGTERM sets it.
  hsv_signals-sigterm :
      (sigs : List ℤ) (s : Supervisor W)
      → has_sigterm sigs ≡ true
      → (hsv_signals sigs s).shutting_down ≡ true
  unfolding hsv_signals
  hsv_signals-sigterm [] s h = cc
  hsv_signals-sigterm (sig ∷ sigs) s h = elim (Bool-cases (eq_ℤ sig sigterm)) [
    | inl e ↦ hsv_signals-kept sigs (hsv_signal sig s) (unfold hsv_signal in rw e)
    | inr e ↦ hsv_signals-sigterm sigs (hsv_signal sig s) (rw e at h)
  ]

module _ {W : Type 0} (os : System W) (wt : Watchful os) where
  pub hsv_log-Silent :
      (m : Text) (level : ℕ) (s : Supervisor W) → Silent os s (hsv_log os m level s).1
  unfolding hsv_log
  hsv_log-Silent m level s = (
    say-Quiet os wt.settles (codes "HSV") m level s.out,
    trace-say os (codes "HSV") m level s.out,
  )

  pub deliver-Silent : (s : Supervisor W) → Silent os s (deliver os s).1
  unfolding deliver
  deliver-Silent s =
      let (sigs, w) = os.arrivals s.out.world in
      let u = record s { out = record s.out { world = w } } in
      rw (out-hsv_signals sigs u) (wt.quiet_arrivals s.out.world, refl)

  -- Each look finds SIGTERM, or there is one fewer to come before it.
  pub deliver-arrives :
      (s : Supervisor W)
      → ((deliver os s).1.shutting_down ≡ true)
        ⊎ (os.patience (deliver os s).1.out.world < os.patience s.out.world)
  unfolding deliver
  deliver-arrives s =
      let (sigs, w) = os.arrivals s.out.world in
      let u = record s { out = record s.out { world = w } } in
      elim (wt.arrives s.out.world) [
        | inl h ↦ inl (hsv_signals-sigterm sigs u h)
        | inr h ↦ inr (rw (out-hsv_signals sigs u) h)
      ]

  sleep_flagged-Silent :
      (again : M (Supervisor W) (Unit {0})) (s : Supervisor W)
      → Silent os s (again s).1
      → Silent os s (sleep_flagged os again s).1
  unfolding sleep_flagged
  sleep_flagged-Silent again s h =
      if_cases (λ (r : Unit {0} × Supervisor W). Silent os s r.1)
        (s.shutting_down || s.restart_requested) (λ _. (omega arith, refl)) (λ _. h)

  sleep_answered-Silent :
      (again : M (Supervisor W) (Unit {0})) (r : Answer (Unit {0})) (s : Supervisor W)
      → Silent os (deliver os s).1 (again (deliver os s).1).1
      → Silent os s (sleep_answered os again r s).1
  unfolding sleep_answered
  sleep_answered-Silent again (done _) s h = (omega arith, refl)
  sleep_answered-Silent again (failed e) s h =
      if_cases (λ (m : M (Supervisor W) (Unit {0})). Silent os s (m s).1) (e == eintr)
        (λ _.
          let d = deliver-Silent s in
          let f = sleep_flagged-Silent again (deliver os s).1 h in
          (omega (arith, d.0, f.0), f.1 ∙ d.1))
        (λ _. (omega arith, refl))

  sleep_loop-Silent :
      (fuel : ℕ) (t : Timespec) (s : Supervisor W) → Silent os s (sleep_loop os fuel t s).1
  unfolding sleep_loop
  sleep_loop-Silent zero t s = (omega arith, refl)
  sleep_loop-Silent (suc fuel) t s =
      let (r, w) = os.nanosleep t s.out.world in
      let u = record s { out = record s.out { world = w } } in
      let rest =
        sleep_answered-Silent (sleep_loop os fuel r.1) r.0 u
          (sleep_loop-Silent fuel r.1 (deliver os u).1) in
      (omega (arith, wt.quiet_nanosleep t s.out.world, rest.0), rest.1)

  pub hsv_sleep_ms-Silent : (ms : ℕ) (s : Supervisor W) → Silent os s (hsv_sleep_ms os ms s).1
  unfolding hsv_sleep_ms
  hsv_sleep_ms-Silent ms s = sleep_loop-Silent _ _ s

  script_wait-Runs :
      (path : Text) (pid : ℕ) (old : List Event) (s : Supervisor W)
      → s.out.trace ≡ spawned (path ∷ []) pid ∷ old
      → Calm os s (script_wait os (pos pid) s).1
        × Runs os path old (script_wait os (pos pid) s).1.out.trace
  unfolding script_wait
  script_wait-Runs path pid old s e =
      let u = record s { out = (process_wait os (pos pid) s.out).1 } in
      if_cases (λ (m : M (Supervisor W) ℤ). Calm os s (m u).1 × Runs os path old (m u).1.out.trace)
        (is_negative (process_wait os (pos pid) s.out).0) (λ _. waited) (λ _. waited)
    where
      waited :
          Calm os s (record s { out = (process_wait os (pos pid) s.out).1 })
          × Runs os path old (process_wait os (pos pid) s.out).1.trace
      waited = (
        process_wait-Quiet os wt (pos pid) s.out,
        inr (
          pid,
          elim (process_wait-Gathers os wt.settles (pos pid) s.out) [
            | inl (status, _, f) ↦ inl (status, f ∙ ap (◌∷◌ (collected (pos pid) status)) e)
            | inr (n, _, f) ↦ inr (n, f ∙ e)
          ],
        ),
      )

  script_spawned-Runs :
      (path : Text) (s : Supervisor W)
      → Calm os s (script_found os path (done tt) s).1
        × Runs os path s.out.trace (script_found os path (done tt) s).1.out.trace
  unfolding script_found
  script_spawned-Runs path s =
      let q = process_spawn-Quiet os wt (some path) s.out in
      let u = record s { out = (process_spawn os (some path) s.out).1 } in
      elim (process_spawn-Forks os path s.out) [
        | inr (n, z, f) ↦ rw z (q, inl (f, inr n))
        | inl (pid, z, f) ↦
            rw z (let r = script_wait-Runs path pid s.out.trace u f in (omega (arith, q, r.0), r.1))
      ]

  script_found-Runs :
      (path : Text) (r : Answer (Unit {0})) (w : W) (s : Supervisor W)
      → (os.access path w).0 ≡ r
      → Calm os s (script_found os path r s).1
        × Runs os path s.out.trace (script_found os path r s).1.out.trace
  script_found-Runs path (done _) w s h = script_spawned-Runs path s
  script_found-Runs path (failed e) w s h =
      unfold script_found in
      if_cases
        (λ (m : M (Supervisor W) ℤ). Calm os s (m s).1 × Runs os path s.out.trace (m s).1.out.trace)
        (e == enoent || (e == enotdir || e == eacces))
        (λ _. (omega arith, inl (refl, inl (e, w, h))))
        (λ _. (omega arith, inl (refl, inl (e, w, h))))

  pub hsv_exec_script-Runs :
      (path : Text) (s : Supervisor W)
      → Calm os s (hsv_exec_script os path s).1
        × Runs os path s.out.trace (hsv_exec_script os path s).1.out.trace
  unfolding hsv_exec_script
  hsv_exec_script-Runs path s =
      let (r, w) = os.access path s.out.world in
      let f =
        script_found-Runs path r s.out.world (record s { out = record s.out { world = w } }) refl in
      (omega (arith, wt.quiet_access path s.out.world, f.0), f.1)
