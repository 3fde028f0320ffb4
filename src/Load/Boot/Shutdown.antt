-- ===== src/Load/Boot/Shutdown.antt =====
-- hsv_shutdown_all of load.c.
use hail2_repos.Prelude.{
  ℕ, zero, suc, ◌-◌, ◌≤◌, ◌≡◌, refl, sym, ◌∙◌, ap, subst, inl, inr, List, [], ◌∷◌, ◌++◌, ℤ,
  is_negative, Text, codes, decimal, snprintf, ◌==◌, arith, if_cases, ne_of_test,
}
use hail2_repos.Kernel.{System, Settles, Answer, done, failed, M, Event}
use hail2_repos.Kernel.Errno.{esrch}
use hail2_repos.Kernel.SignalNumber.{sigterm}
use hail2_repos.Log.{log_level_log}
use hail2_repos.Log.Effects.{trace-say}
use hail2_repos.Process.Answers.{process_wait-Gathers}
use hail2_repos.Kernel.Refusals.{Sends, Gathers}
use hail2_repos.Image.{Image, HsvEntry, HsvTable}
use hail2_repos.Load.Table.{hsv_unregister}
use hail2_repos.Load.Services.{load_log, send_kill}
use hail2_repos.Load.Services.Effects.{send_kill-Sends, send_kill-Outward}
use hail2_repos.Load.Boot.{
  shutdown_killed, shutdown_waited, drop_last, shutdown_one, shutdown_loop, hsv_shutdown_all,
}

-- One supervisor: SIGTERM to it, unless kill fails, and then its collection, unless waitpid fails.
abbrev pub Stopped : {W : Type 0} → System W → ℤ → List Event → List Event → Type 0
Stopped os pid old new = (mid : List Event) × Sends os pid sigterm old mid × Gathers os pid mid new

-- The supervisors with these pids, one after another.
pub data Stops {W : Type 0} (os : System W) : List ℤ → List Event → List Event → Type 0 where
  all_stopped : {old new : List Event} → new ≡ old → Stops os [] old new
  one_stopped :
      {pid : ℤ} {pids : List ℤ} {old mid new : List Event}
      → Stopped os pid old mid
      → Stops os pids mid new
      → Stops os (pid ∷ pids) old new

-- the pids of the first `n` slots, the last first
pub last_first : ℕ → (ℕ → HsvEntry) → List ℤ
last_first zero slot = []
last_first (suc n) slot = (slot n).pid ∷ last_first n slot

-- Nothing is done to others for an empty table.
pub Stops-nothing :
    {W : Type 0} (os : System W) (n : ℕ) (slot : ℕ → HsvEntry) (old new : List Event)
    → n ≡ 0
    → Stops os (last_first n slot) old new
    → new ≡ old
unfolding last_first
Stops-nothing os zero slot old new h (all_stopped e) = e
Stops-nothing os (suc n) slot old new h x = absurd (omega (arith, h))

unregister_last :
    (n : ℕ) (t : HsvTable)
    → t.hsv_count ≡ suc n
    → hsv_unregister (t.hsv_count - 1) t ≡ record { slot = t.slot; hsv_count = n }
unfolding hsv_unregister
unregister_last n t e = ground arith

module _ {W : Type 0} (os : System W) (st : Settles os) where
  load-shutdown_killed :
      (r : Answer (Unit {0})) (s : Image W) → (shutdown_killed os r s).1.load ≡ s.load
  unfolding shutdown_killed load_log
  load-shutdown_killed (done _) s = refl
  load-shutdown_killed (failed e) s =
      if_cases (λ (f : M (Image W) (Unit {0})). (f s).1.load ≡ s.load) (e == esrch) (λ _. refl)
        (λ _. refl)

  load-shutdown_waited : (r : ℤ) (s : Image W) → (shutdown_waited os r s).1.load ≡ s.load
  unfolding shutdown_waited load_log
  load-shutdown_waited r s =
      if_cases (λ (f : M (Image W) (Unit {0})). (f s).1.load ≡ s.load) (is_negative r) (λ _. refl)
        (λ _. refl)

  load-shutdown_one :
      (pid : ℤ) (s : Image W)
      → (shutdown_one os pid s).1.load ≡ hsv_unregister (s.load.hsv_count - 1) s.load
  unfolding shutdown_one drop_last
  load-shutdown_one pid s =
      ap (λ (t : HsvTable). hsv_unregister (t.hsv_count - 1) t)
        (load-shutdown_waited _ _
          ∙ load-shutdown_killed _ _
          ∙ (send_kill-Outward os pid sigterm s).1)

  load-load_log : (m : Text) (level : ℕ) (s : Image W) → (load_log os m level s).1.load ≡ s.load
  unfolding load_log
  load-load_log m level s = refl

  trace-load_log :
      (m : Text) (level : ℕ) (s : Image W) → (load_log os m level s).1.out.trace ≡ s.out.trace
  unfolding load_log
  trace-load_log m level s = trace-say os _ _ _ s.out

  trace-shutdown_killed :
      (r : Answer (Unit {0})) (s : Image W) → (shutdown_killed os r s).1.out.trace ≡ s.out.trace
  unfolding shutdown_killed
  trace-shutdown_killed (done _) s = refl
  trace-shutdown_killed (failed e) s =
      if_cases (λ (f : M (Image W) (Unit {0})). (f s).1.out.trace ≡ s.out.trace) (e == esrch)
        (λ _. refl) (λ _. trace-load_log _ _ s)

  trace-shutdown_waited : (r : ℤ) (s : Image W) → (shutdown_waited os r s).1.out.trace ≡ s.out.trace
  unfolding shutdown_waited
  trace-shutdown_waited r s =
      if_cases (λ (f : M (Image W) (Unit {0})). (f s).1.out.trace ≡ s.out.trace) (is_negative r)
        (λ _. trace-load_log _ _ s) (λ _. refl)

  shutdown_one-Stopped :
      (pid : ℤ) (s : Image W) → Stopped os pid s.out.trace (shutdown_one os pid s).1.out.trace
  unfolding shutdown_one drop_last
  shutdown_one-Stopped pid s =
      let (r, s1) = send_kill os pid sigterm s in
      let s2 = (shutdown_killed os r s1).1 in
      (
        s2.out.trace,
        subst (Sends os pid sigterm s.out.trace) (sym (trace-shutdown_killed r s1))
            (send_kill-Sends os pid sigterm s),
        elim (process_wait-Gathers os st pid s2.out) [
          | inl (status, _, e) ↦ inl (status, trace-shutdown_waited _ _ ∙ e)
          | inr (n, _, e) ↦ inr (n, trace-shutdown_waited _ _ ∙ e)
        ],
      )

  -- What the loop does from a table of `n` entries.
  shutdown_loop_lem :
      (fuel n : ℕ) (s : Image W) (slot : ℕ → HsvEntry)
      → n ≤ fuel
      → s.load ≡ record { slot = slot; hsv_count = n }
      → ((shutdown_loop os fuel s).1.load.hsv_count ≡ 0)
        × Stops os (last_first n slot) s.out.trace (shutdown_loop os fuel s).1.out.trace
  unfolding shutdown_loop last_first
  shutdown_loop_lem zero zero s slot h e = (ap (λ (t : HsvTable). t.hsv_count) e, all_stopped refl)
  shutdown_loop_lem zero (suc n) s slot h e = absurd (omega arith)
  shutdown_loop_lem (suc fuel) zero s slot h e =
      let c : s.load.hsv_count ≡ 0 = ap (λ (t : HsvTable). t.hsv_count) e in
      if_cases
        (λ (r : Unit {0} × Image W).
          (r.1.load.hsv_count ≡ 0) × Stops os [] s.out.trace r.1.out.trace)
        (s.load.hsv_count == 0) (λ _. (c, all_stopped refl)) (λ b. absurd (ne_of_test _ _ b c))
  shutdown_loop_lem (suc fuel) (suc n) s slot h e =
      let c : s.load.hsv_count ≡ suc n = ap (λ (t : HsvTable). t.hsv_count) e in
      let last : s.load.slot (s.load.hsv_count - 1) ≡ slot n =
        ap (λ (t : HsvTable). t.slot (t.hsv_count - 1)) e ∙ ap slot (omega arith) in
      let pid = (s.load.slot (s.load.hsv_count - 1)).pid in
      let next = (shutdown_one os pid s).1 in
      let table : next.load ≡ record { slot = slot; hsv_count = n } =
        load-shutdown_one pid s
        ∙ ap (λ (t : HsvTable). hsv_unregister (t.hsv_count - 1) t) e
        ∙ unregister_last n (record { slot = slot; hsv_count = suc n }) refl in
      let rest = shutdown_loop_lem fuel n next slot (omega arith) table in
      if_cases
        (λ (r : Unit {0} × Image W).
          (r.1.load.hsv_count ≡ 0)
          × Stops os ((slot n).pid ∷ last_first n slot) s.out.trace r.1.out.trace)
        (s.load.hsv_count == 0) (λ b. absurd (ground arith))
        (λ _. (
          rest.0,
          one_stopped
              (subst (λ (x : HsvEntry). Stopped os x.pid s.out.trace next.out.trace) last
                (shutdown_one-Stopped pid s))
              rest.1,
        ))

  -- Where interruptions are finite, hsv_shutdown_all ends with an empty table, and it acts on
  -- the supervisors that were in the table, the last first: it sends SIGTERM to each, unless
  -- kill fails, and then collects it, unless its pid is not positive or waitpid fails other than
  -- by EINTR. It does nothing else to other processes.
  pub hsv_shutdown_all-Stops :
      (s : Image W)
      → let u = (hsv_shutdown_all os s).1 in
        (u.load.hsv_count ≡ 0)
        × Stops os (last_first s.load.hsv_count s.load.slot) s.out.trace u.out.trace
  unfolding hsv_shutdown_all
  hsv_shutdown_all-Stops s =
      let n = s.load.hsv_count in
      let s1 = (load_log os (snprintf 128 (codes "HSV COUNT = " ++ decimal n)) log_level_log s).1 in
      let ran = shutdown_loop_lem n n s1 s.load.slot (omega arith) (load-load_log _ _ s) in
      (
        ap (λ (t : HsvTable). t.hsv_count) (load-load_log _ _ _) ∙ ran.0,
        rw trace-load_log (
            subst (λ t. Stops os (last_first n s.load.slot) t (shutdown_loop os n s1).1.out.trace)
              (trace-load_log _ _ s) ran.1),
      )
