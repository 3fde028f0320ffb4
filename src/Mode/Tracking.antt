-- ===== src/Mode/Tracking.antt =====
-- The mode controller over any sequence of requests and exits of children.
use hail2_repos.Prelude.{
  ℤ, ◌≡◌, refl, ◌∙◌, ◌≢◌, ◌⊎◌, inl, inr, arith, eq_ℤ, Bool-cases, false, List, [], ◌∷◌, minus_one,
  if◌then◌else◌,
}
use hail2_repos.Kernel.{System, Forks}
use hail2_repos.Image.{Image, Controller, fresh}
use hail2_repos.Mode.Exits.{mode_none, mode_md0, mode_md1, mode_md2}
use hail2_repos.Mode.Frame.{Operating, Idle, Started}
use hail2_repos.Mode.Transitions.{
  Transition, startup, operate, shutdown, refuse, mode_start-Transition,
}
use hail2_repos.Mode.{mode_init, mode_start, mode_child_exit, mode_log, md2_exited}

-- MD0 was entered, and MD2 is gone.
abbrev pub Halted : Controller → Type 0
Halted c =
    (c.current_mode ≡ mode_md0) × (c.md2_pid ≡ minus_one) × (c.md2_shutdown_requested ≡ false)

-- A process of MD2 is tracked exactly in MD2, and MD1 is over whenever a request returns.
abbrev pub IsTracked : Controller → Type 0
IsTracked c = Operating c ⊎ (Idle c ⊎ Halted c)

Started-IsTracked :
    {c d : Controller}
    → Started c d
    → IsTracked c
    → c.current_mode ≢ mode_md0
    → c.current_mode ≢ mode_md2
    → IsTracked d
Started-IsTracked (inl o) h n0 n2 = inl o
Started-IsTracked (inr (inl i)) h n0 n2 = inr (inl i)
Started-IsTracked (inr (inr e)) h n0 n2 = ground arith

Transition-IsTracked :
    {mode : ℤ} {c d : Controller} → Transition mode c d → IsTracked c → IsTracked d
Transition-IsTracked (startup _ n0 n1 n2 st) h = Started-IsTracked st h n0 n2
Transition-IsTracked (operate _ _ (inl o)) h = inl o
Transition-IsTracked (operate _ _ (inr i)) h = inr (inl i)
Transition-IsTracked (shutdown _ p e) h = ground arith
Transition-IsTracked (refuse _ _ _ e) h = rw e h

pub data Occurrence : Type 0 where
  request : ℤ → Occurrence
  child_exit : ℤ → ℤ → Occurrence

module _ {W : Type 0} (os : System W) where
  -- In a tracked state, mode_child_exit leaves the controller's variables as they are, except
  -- that the exit of the process of MD2 in MD2 ends that mode and forgets the process.
  pub mode_child_exit-mode :
      (pid status : ℤ) (s : Image W)
      → IsTracked s.mode
      → (mode_child_exit os pid status s).1.mode ≡ (
          if eq_ℤ pid s.mode.md2_pid
          then (if eq_ℤ s.mode.current_mode mode_md2
              then record {
                current_mode = mode_none;
                md2_pid = minus_one;
                md2_shutdown_requested = false;
              }
              else s.mode)
          else s.mode)
  unfolding mode_child_exit md2_exited mode_log
  mode_child_exit-mode pid status s h = elim (Bool-cases (eq_ℤ pid s.mode.md2_pid)) [
    | inr e ↦ rw e
    | inl e ↦ rw e (ground arith)
  ]

  pub child_exit-IsTracked :
      (pid status : ℤ) (s : Image W)
      → IsTracked s.mode
      → IsTracked (mode_child_exit os pid status s).1.mode
  child_exit-IsTracked pid status s h = rw (mode_child_exit-mode pid status s h) (ground arith)

  pub child_exit-Halted :
      (pid status : ℤ) (s : Image W)
      → Halted s.mode
      → (mode_child_exit os pid status s).1.mode ≡ s.mode
  child_exit-Halted pid status s h = mode_child_exit-mode pid status s (inr (inr h)) ∙ ground arith

  -- one occurrence
  pub respond : Occurrence → Image W → Image W
  respond (request mode) s = (mode_start os mode s).1
  respond (child_exit pid status) s = (mode_child_exit os pid status s).1

  pub respond_all : List Occurrence → Image W → Image W
  respond_all [] s = s
  respond_all (e ∷ es) s = respond_all es (respond e s)

module _ {W : Type 0} (os : System W) (fk : Forks os) where
  pub mode_start-IsTracked :
      (mode : ℤ) (s : Image W) → IsTracked s.mode → IsTracked (mode_start os mode s).1.mode
  mode_start-IsTracked mode s h = Transition-IsTracked (mode_start-Transition os fk mode s) h

  pub mode_init-IsTracked : (s : Image W) → IsTracked s.mode → IsTracked (mode_init os s).1.mode
  unfolding mode_init mode_log
  mode_init-IsTracked s h = mode_start-IsTracked mode_md1 _ h

  respond-IsTracked :
      (e : Occurrence) (s : Image W) → IsTracked s.mode → IsTracked (respond os e s).mode
  unfolding respond
  respond-IsTracked (request mode) s h = mode_start-IsTracked mode s h
  respond-IsTracked (child_exit pid status) s h = child_exit-IsTracked os pid status s h

  pub respond_all-IsTracked :
      (es : List Occurrence) (s : Image W) → IsTracked s.mode → IsTracked (respond_all os es s).mode
  unfolding respond_all
  respond_all-IsTracked [] s h = h
  respond_all-IsTracked (e ∷ es) s h =
      respond_all-IsTracked es (respond os e s) (respond-IsTracked e s h)

  -- Where fork returns positive pids to the parent, from the start of the program and after any
  -- sequence of mode requests and child exits, MD2 is the current mode exactly with a positive
  -- md2_pid, and in no mode and in MD0 no process is tracked; the controller never rests in MD1,
  -- and no shutdown request is left standing.
  pub run-IsTracked : (es : List Occurrence) (w : W) → IsTracked (respond_all os es (fresh w)).mode
  run-IsTracked es w = respond_all-IsTracked es (fresh w) (inr (inl (refl, refl, refl)))

  pub shutdown-Halted : {c d : Controller} → Transition mode_md0 c d → Operating c → Halted d
  shutdown-Halted (startup p _ _ _ _) h = absurd cc
  shutdown-Halted (operate p _ _) h = absurd cc
  shutdown-Halted (shutdown _ p e) h = ground arith
  shutdown-Halted (refuse _ _ n _) h = absurd (n refl h.0)

  Transition-Halted : {mode : ℤ} {c d : Controller} → Transition mode c d → Halted c → d ≡ c
  Transition-Halted (startup _ n0 n1 n2 st) h = absurd (n0 h.0)
  Transition-Halted (operate _ p _) h = cc
  Transition-Halted (shutdown _ p e) h = cc
  Transition-Halted (refuse _ _ _ e) h = e

  pub mode_start-Halted :
      (mode : ℤ) (s : Image W) → Halted s.mode → (mode_start os mode s).1.mode ≡ s.mode
  mode_start-Halted mode s h = Transition-Halted (mode_start-Transition os fk mode s) h

  respond-Halted : (e : Occurrence) (s : Image W) → Halted s.mode → (respond os e s).mode ≡ s.mode
  unfolding respond
  respond-Halted (request mode) s h = mode_start-Halted mode s h
  respond-Halted (child_exit pid status) s h = child_exit-Halted os pid status s h

  -- Where fork returns positive pids to the parent, once the controller is in MD0 without a
  -- process of MD2, no sequence of mode requests and child exits changes its variables.
  pub respond_all-Halted :
      (es : List Occurrence) (s : Image W) → Halted s.mode → (respond_all os es s).mode ≡ s.mode
  unfolding respond_all
  respond_all-Halted [] s h = refl
  respond_all-Halted (e ∷ es) s h =
      let p = respond-Halted e s h in respond_all-Halted es (respond os e s) (rw p h) ∙ p
