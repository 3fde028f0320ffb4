-- ===== src/Log/Effects.antt =====
-- log_write and the rest of the state.
use hail2_repos.Prelude.{
  true, some, ℕ, ◌≤◌, ◌≡◌, refl, ◌⊎◌, inl, inr, ◌∷◌, ℤ, pos, minus_one, Text, arith, if_cases,
}
use hail2_repos.Kernel.{System, Answer, done, failed, Tm, Out, Settles}
use hail2_repos.Log.{
  log_init, log_opened, log_printed, log_at, log_now, log_checked, log_write, log_line, log_path,
  say,
}

-- the local time in the world `w`
abbrev pub IsNow : {W : Type 0} → System W → W → Tm → Type 0
IsNow os w tm =
    (now : ℕ) × ((os.time w).0 ≡ done now) × ((os.localtime now (os.time w).1).0 ≡ done tm)

-- A call of log_write in the world `w`: it returns 0 and adds its line, or returns -1 and adds none.
abbrev pub Writes : {W : Type 0} → System W → W → Text → Text → ℕ → Out W → ℤ × Out W → Type 0
Writes os w component message level o r =
    (r.1.trace ≡ o.trace)
    × (r.1.log_file ≡ o.log_file)
    × (((r.0 ≡ minus_one) × (r.1.lines ≡ o.lines))
        ⊎ ((r.0 ≡ pos 0)
            × ((tm : Tm) × IsNow os w tm
                × (r.1.lines ≡ log_line tm component message level ∷ o.lines))))

module _ {W : Type 0} (os : System W) where
  log_printed-Writes :
      (c m : Text) (level : ℕ) (tm : Tm) (r : Answer (Unit {0})) (w : W) (o : Out W)
      → IsNow os w tm
      → Writes os w c m level o (log_printed (log_line tm c m level) r o)
  unfolding log_printed
  log_printed-Writes c m level tm (done _) w o h = (refl, refl, inr (refl, (tm, h, refl)))
  log_printed-Writes c m level tm (failed e) w o h = (refl, refl, inl (refl, refl))

  log_at-Writes :
      (c m : Text) (level : ℕ) (r : Answer Tm) (w : W) (o : Out W)
      → ((tm : Tm) → r ≡ done tm → IsNow os w tm)
      → Writes os w c m level o (log_at os c m level r o)
  unfolding log_at
  log_at-Writes c m level (failed e) w o h = (refl, refl, inl (refl, refl))
  log_at-Writes c m level (done tm) w o h =
      log_printed-Writes c m level tm _ w
        (record o { world = (os.fprintf (log_line tm c m level) o.world).1 }) (h tm refl)

  log_now-Writes :
      (c m : Text) (level : ℕ) (r : Answer ℕ) (w : W) (o : Out W)
      → (os.time w).0 ≡ r
      → o.world ≡ (os.time w).1
      → Writes os w c m level o (log_now os c m level r o)
  unfolding log_now
  log_now-Writes c m level (failed e) w o p q = (refl, refl, inl (refl, refl))
  log_now-Writes c m level (done now) w o p q =
      log_at-Writes c m level _ w (record o { world = (os.localtime now o.world).1 })
        (λ tm e. (now, p, rw (← q) e))

  -- On every branch log_write, called with a component and a message, returns 0 and adds one
  -- line, with the local time at its call, or returns -1 and adds none; the log stays open or
  -- closed as it was, and nothing is done to other processes or files.
  pub log_write-Writes :
      (c m : Text) (level : ℕ) (o : Out W)
      → Writes os o.world c m level o (log_write os (some c) (some m) level o)
  unfolding log_write log_checked
  log_write-Writes c m level o =
      if_cases (Writes os o.world c m level o) o.log_file
        (λ _.
          log_now-Writes c m level _ o.world (record o { world = (os.time o.world).1 }) refl refl)
        (λ _. (refl, refl, inl (refl, refl)))

  log_now-done :
      (c m : Text) (level : ℕ) (r : Answer ℕ) (now : ℕ) (tm : Tm) (o : Out W)
      → r ≡ done now
      → (os.localtime now o.world).0 ≡ done tm
      → (os.fprintf (log_line tm c m level) (os.localtime now o.world).1).0 ≡ done tt
      → ((log_now os c m level r o).0 ≡ pos 0)
        × ((log_now os c m level r o).1.lines ≡ log_line tm c m level ∷ o.lines)
  unfolding log_now log_at log_printed
  log_now-done c m level r now tm o p q f = rw (p, q, f) (refl, refl)

  -- When the log is open, and time, localtime_r and fprintf succeed, log_write returns 0 and
  -- adds its line.
  log_write-done :
      (c m : Text) (level now : ℕ) (tm : Tm) (o : Out W)
      → let w = (os.localtime now (os.time o.world).1).1 in
        o.log_file ≡ true
        → (os.time o.world).0 ≡ done now
        → (os.localtime now (os.time o.world).1).0 ≡ done tm
        → (os.fprintf (log_line tm c m level) w).0 ≡ done tt
        → let r = log_write os (some c) (some m) level o in
          (r.0 ≡ pos 0) × (r.1.lines ≡ log_line tm c m level ∷ o.lines)
  unfolding log_write log_checked
  log_write-done c m level now tm o p q e f =
      if_cases (λ (r : ℤ × Out W). (r.0 ≡ pos 0) × (r.1.lines ≡ log_line tm c m level ∷ o.lines))
        o.log_file
        (λ _. log_now-done c m level _ now tm (record o { world = (os.time o.world).1 }) q e f)
        (λ n. cc)

  pub trace-say : (c m : Text) (level : ℕ) (o : Out W) → (say os c m level o).1.trace ≡ o.trace
  trace-say c m level o = (log_write-Writes c m level o).0

  log_opened-trace : (r : Answer (Unit {0})) (o : Out W) → (log_opened r o).1.trace ≡ o.trace
  unfolding log_opened
  log_opened-trace (done _) o = refl
  log_opened-trace (failed e) o = refl

  pub trace-log_init : (o : Out W) → (log_init os o).1.trace ≡ o.trace
  unfolding log_init
  trace-log_init o =
      if_cases (λ (r : ℤ × Out W). r.1.trace ≡ o.trace) o.log_file (λ _. refl)
        (λ _. log_opened-trace _ (record o { world = (os.fopen log_path o.world).1 }))

-- no event of the outside is made by writing to the log
abbrev pub Quiet : {W : Type 0} → System W → {A : Type 0} → Out W → A × Out W → Type 0
Quiet os o r = os.patience r.1.world ≤ os.patience o.world

module _ {W : Type 0} (os : System W) (st : Settles os) where
  log_printed-Quiet :
      (line : Text) (r : Answer (Unit {0})) (o : Out W) → Quiet os o (log_printed line r o)
  unfolding log_printed
  log_printed-Quiet line (done _) o = omega arith
  log_printed-Quiet line (failed e) o = omega arith

  log_at-Quiet :
      (c m : Text) (level : ℕ) (r : Answer Tm) (o : Out W) → Quiet os o (log_at os c m level r o)
  unfolding log_at
  log_at-Quiet c m level (failed e) o = omega arith
  log_at-Quiet c m level (done tm) o =
      let line = log_line tm c m level in
      omega (
        arith,
        st.quiet_fprintf line o.world,
        log_printed-Quiet line (os.fprintf line o.world).0
            (record o { world = (os.fprintf line o.world).1 }),
      )

  log_now-Quiet :
      (c m : Text) (level : ℕ) (r : Answer ℕ) (o : Out W) → Quiet os o (log_now os c m level r o)
  unfolding log_now
  log_now-Quiet c m level (failed e) o = omega arith
  log_now-Quiet c m level (done t) o = omega (
    arith,
    st.quiet_localtime t o.world,
    log_at-Quiet c m level (os.localtime t o.world).0
        (record o { world = (os.localtime t o.world).1 }),
  )

  pub say-Quiet : (c m : Text) (level : ℕ) (o : Out W) → Quiet os o (say os c m level o)
  unfolding log_write log_checked
  say-Quiet c m level o =
      if_cases (Quiet os o) o.log_file
        (λ _. omega (
          arith,
          st.quiet_time o.world,
          log_now-Quiet c m level (os.time o.world).0 (record o { world = (os.time o.world).1 }),
        ))
        (λ _. omega arith)

  log_opened-Quiet : (r : Answer (Unit {0})) (o : Out W) → Quiet os o (log_opened r o)
  unfolding log_opened
  log_opened-Quiet (done _) o = omega arith
  log_opened-Quiet (failed e) o = omega arith

  pub log_init-Quiet : (o : Out W) → Quiet os o (log_init os o)
  unfolding log_init
  log_init-Quiet o =
      let (r, w) = os.fopen log_path o.world in
      if_cases (Quiet os o) o.log_file (λ _. omega arith)
        (λ _.
          omega
            (arith, st.quiet_fopen log_path o.world, log_opened-Quiet r (record o { world = w })))
