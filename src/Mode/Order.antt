-- ===== src/Mode/Order.antt =====
-- In which order the mode controller acts on its processes.
use hail2_repos.Prelude.{
  ℕ, ℤ, ◌≡◌, refl, ◌∙◌, sym, subst, ◌⊎◌, inl, inr, true, Option, none, some, List, [], ◌∷◌, pos,
  is_positive, is_negative, codes, eq_ℤ, not, Text, if_cases,
}
use hail2_repos.Kernel.{System, Settles, M, Event, spawned}
use hail2_repos.Kernel.Refusals.{NotForked, Sends, Gathers}
use hail2_repos.Kernel.SignalNumber.{sigterm}
use hail2_repos.Process.{process_signal, process_spawn}
use hail2_repos.Process.Answers.{process_spawn-Forks, process_wait-Gathers, process_signal-Sends}
use hail2_repos.Log.{log_level_log}
use hail2_repos.Log.Effects.{trace-say}
use hail2_repos.Image.{Image}
use hail2_repos.Mode.Exits.{md0_path, mode_md0}
use hail2_repos.Mode.Frame.{Operating}
use hail2_repos.Mode.{
  set_mode, mode_start, mode_log, mode_failure, mode_exec, exec_wait, md2_left, terminate_md2,
  mode_stop_md2, md0_finished, note_md2_stop, enter_md0, start_md0,
}

-- The stop of a process: SIGTERM, unless kill fails, and then its collection, unless waitpid fails.
abbrev pub Stopping : {W : Type 0} → System W → ℤ → List Event → List Event → Type 0
Stopping os pid old new = (mid : List Event) × Sends os pid sigterm old mid × Gathers os pid mid new

-- The run of a program to its end: it is started, unless fork fails, and then collected.
abbrev pub Executing : {W : Type 0} → System W → Text → List Event → List Event → Type 0
Executing os program old new =
    (NotForked os × (new ≡ old))
    ⊎ ((pid : ℕ) × Gathers os (pos pid) (spawned (program ∷ []) pid ∷ old) new)

-- The events of a shutdown: first those of stopping MD2, then those of MD0.
abbrev pub ShutsDown : {W : Type 0} → System W → Image W → Image W → Type 0
ShutsDown os s u =
    (mid : List Event) × Stopping os s.mode.md2_pid s.out.trace mid
    × Executing os md0_path mid u.out.trace

module _ {W : Type 0} (os : System W) (st : Settles os) where
  trace-mode_log :
      (t : Text) (level : ℕ) (s : Image W) → (mode_log os t level s).1.out.trace ≡ s.out.trace
  unfolding mode_log
  trace-mode_log t level s = trace-say os _ _ _ s.out

  trace-mode_failure :
      (t : Text) (status : ℤ) (s : Image W) → (mode_failure os t status s).1.out.trace ≡ s.out.trace
  unfolding mode_failure
  trace-mode_failure t status s = trace-mode_log _ _ s

  trace-md2_left : (f : Option ℤ) (s : Image W) → (md2_left os f s).1.out.trace ≡ s.out.trace
  unfolding md2_left
  trace-md2_left none s = trace-mode_log _ _ s
  trace-md2_left (some f) s = trace-mode_failure _ _ s

  terminate_md2-Stopping :
      (pid : ℤ) (s : Image W)
      → is_positive pid ≡ true
      → Stopping os pid s.out.trace (terminate_md2 os pid s).1.out.trace
  unfolding terminate_md2
  terminate_md2-Stopping pid s p =
      let o1 = (process_signal os pid sigterm s.out).1 in
      (
        o1.trace,
        process_signal-Sends os pid sigterm s.out p refl,
        elim (process_wait-Gathers os st pid o1) [
          | inl (status, _, f) ↦ inl (status, trace-md2_left _ _ ∙ f)
          | inr (n, _, f) ↦ inr (n, trace-md2_left _ _ ∙ f)
        ],
      )

  trace-note_md2_stop : (r : ℤ) (s : Image W) → (note_md2_stop os r s).1.out.trace ≡ s.out.trace
  unfolding note_md2_stop
  trace-note_md2_stop r s =
      if_cases (λ (m : M (Image W) (Unit {0})). (m s).1.out.trace ≡ s.out.trace) (is_negative r)
        (λ _. trace-mode_log _ _ s) (λ _. refl)

  exec_wait-Gathers :
      (pid : ℤ) (s : Image W) → Gathers os pid s.out.trace (exec_wait os pid s).1.out.trace
  unfolding exec_wait
  exec_wait-Gathers pid s = elim (process_wait-Gathers os st pid s.out) [
    | inl (status, _, f) ↦ inl (status, f)
    | inr (n, _, f) ↦ inr (n, f)
  ]

  mode_exec-Executing :
      (program : Text) (s : Image W)
      → Executing os program s.out.trace (mode_exec os program s).1.out.trace
  unfolding mode_exec
  mode_exec-Executing program s =
      let u = record s { out = (process_spawn os (some program) s.out).1 } in
      elim (process_spawn-Forks os program s.out) [
        | inl (pid, p, e) ↦ rw p (
            inr (
              pid,
              subst (λ t. Gathers os (pos pid) t (exec_wait os (pos pid) u).1.out.trace) e
                  (exec_wait-Gathers (pos pid) u),
            ))
        | inr (n, p, e) ↦ rw p (inl (n, e))
      ]

  trace-md0_finished : (r : ℤ) (s : Image W) → (md0_finished os r s).1.out.trace ≡ s.out.trace
  unfolding md0_finished
  trace-md0_finished r s =
      if_cases (λ (m : M (Image W) (Unit {0})). (m s).1.out.trace ≡ s.out.trace)
        (not (eq_ℤ r (pos 0))) (λ _. trace-mode_failure _ _ s) (λ _. trace-mode_log _ _ s)

  -- A stop of MD2 that begins in `s`.
  mode_stop_md2-Stopping :
      (s : Image W)
      → is_positive s.mode.md2_pid ≡ true
      → Stopping os s.mode.md2_pid s.out.trace (mode_stop_md2 os s).1.out.trace
  unfolding mode_stop_md2
  mode_stop_md2-Stopping s h =
      if_cases (λ (r : ℤ × Image W). Stopping os s.mode.md2_pid s.out.trace r.1.out.trace)
        (is_positive s.mode.md2_pid) (λ _. terminate_md2-Stopping s.mode.md2_pid s h) (λ n. cc)

  enter_md0-ShutsDown :
      (s : Image W) → is_positive s.mode.md2_pid ≡ true → ShutsDown os s (enter_md0 os s).1
  unfolding enter_md0 mode_log
  enter_md0-ShutsDown s h =
      let s1 = (mode_log os (codes "ENTERING MD0") log_level_log s).1 in
      let (stopped, s2) = mode_stop_md2 os s1 in
      let s3 = (set_mode mode_md0 (note_md2_stop os stopped s2).1).1 in
      let s4 = (mode_exec os md0_path s3).1 in
      (
        s2.out.trace,
        subst (λ t. Stopping os s.mode.md2_pid t s2.out.trace) (trace-mode_log _ _ s)
            (mode_stop_md2-Stopping s1 h),
        subst (Executing os md0_path s2.out.trace) (sym (trace-md0_finished _ s4)) (
            subst (λ t. Executing os md0_path t s4.out.trace) (trace-note_md2_stop stopped s2)
              (mode_exec-Executing md0_path s3)),
      )

  -- Where interruptions are finite, a request for MD0 in MD2, with its process tracked and no
  -- stop under way, acts on processes in this order: it sends SIGTERM to the process of MD2,
  -- unless kill fails, and collects it, unless waitpid fails other than by EINTR; and only then
  -- it starts the MD0 program, unless fork fails, and collects that, unless its pid is not
  -- positive or waitpid so fails.
  pub mode_start-ShutsDown :
      (s : Image W) → Operating s.mode → ShutsDown os s (mode_start os mode_md0 s).1
  unfolding mode_start start_md0
  mode_start-ShutsDown s h =
      subst (λ (m : ℤ). ShutsDown os s (start_md0 os m s).1) (sym h.0) (enter_md0-ShutsDown s h.1)
