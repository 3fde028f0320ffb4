-- ===== src/Load/Services/Effects.antt =====
-- What load_start_service does to the variables of the program.
use hail2_repos.Prelude.{
  ℕ, ◌≡◌, refl, ◌∙◌, sym, codes, ◌++◌, subst, ◌⊎◌, inl, inr, true, not, Option, none, some, ◌∷◌, ℤ,
  pos, minus_one, is_negative, Text, leb, ◌==◌, if_cases, if◌then◌else◌,
}
use hail2_repos.Kernel.{is_directory, System, Answer, done, failed, FileKind, M, signalled, ◌>>=◌}
use hail2_repos.Kernel.Errno.{esrch}
use hail2_repos.Kernel.SignalNumber.{sigterm}
use hail2_repos.Kernel.Refusals.{Sends}
use hail2_repos.Log.{log_level_warn, log_level_critical}
use hail2_repos.Image.{Image}
use hail2_repos.Load.Table.{max_hsv, path_max, load_service_path, hsv_find, hsv_register, is_found}
use hail2_repos.Load.Table.View.{entries, has_service, is_found-hsv_find}
use hail2_repos.Load.Table.Invariant.{Grows, Grows-refl, hsv_register-cases}
use hail2_repos.Load.Services.{
  register, load_log, kill_noted, send_kill, unregistered_killed, register_failed, hsv_started,
  hsv_forked, hsv_masked, start_hsv, start_listed, start_found, start_at, load_start_service,
}

-- The variables of mode.c and signal.c are as before.
abbrev pub SameRest : {W : Type 0} → Image W → Image W → Type 0
SameRest s u = (u.mode ≡ s.mode) × (u.pending ≡ s.pending)

-- Only calls of the system were made.
abbrev pub Outward : {W : Type 0} → Image W → Image W → Type 0
Outward s u = SameRest s u × (u.load ≡ s.load)

-- A start that returns 0 leaves the service in the table, and one that returns -1 the table as it was.
abbrev pub Starts : {W : Type 0} → Text → Image W → ℤ × Image W → Type 0
Starts path s r =
    SameRest s r.1
    × (((r.0 ≡ pos 0) × (has_service path (entries r.1.load) ≡ true) × Grows s.load r.1.load)
        ⊎ ((r.0 ≡ minus_one) × (r.1.load ≡ s.load)))

pub Outward-trans : {W : Type 0} (s u v : Image W) → Outward s u → Outward u v → Outward s v
Outward-trans s u v ((a, b), c) ((a', b'), c') = ((a' ∙ a, b' ∙ b), c' ∙ c)

-- A failure after calls of the system only.
Starts-refused :
    {W : Type 0} (path : Text) (s u : Image W) → Outward s u → Starts path s (minus_one, u)
Starts-refused path s u (a, b) = (a, inr (refl, b))

-- Calls of the system before a start.
Starts-after :
    {W : Type 0} (path : Text) (s u : Image W) (r : ℤ × Image W)
    → Outward s u
    → Starts path u r
    → Starts path s r
Starts-after path s u r ((a, b), c) ((a', b'), inl (z, l, g)) =
    ((a' ∙ a, b' ∙ b), inl (z, l, subst (λ t. Grows t r.1.load) c g))
Starts-after path s u r ((a, b), c) ((a', b'), inr (z, e)) = ((a' ∙ a, b' ∙ b), inr (z, e ∙ c))

module _ {W : Type 0} (os : System W) where
  load_log-Outward : (m : Text) (level : ℕ) (s : Image W) → Outward s (load_log os m level s).1
  unfolding load_log
  load_log-Outward m level s = ((refl, refl), refl)

  failing_log :
      (path m : Text) (level : ℕ) (s : Image W)
      → Starts path s (minus_one, (load_log os m level s).1)
  failing_log path m level s =
      Starts-refused path s (load_log os m level s).1 (load_log-Outward m level s)

  kill_noted-Outward :
      (pid sig : ℤ) (r : Answer (Unit {0})) (s : Image W) → Outward s (kill_noted os pid sig r s).1
  unfolding kill_noted
  kill_noted-Outward pid sig (done _) s = ((refl, refl), refl)
  kill_noted-Outward pid sig (failed e) s = ((refl, refl), refl)

  pub send_kill-Outward : (pid sig : ℤ) (s : Image W) → Outward s (send_kill os pid sig s).1
  unfolding send_kill
  send_kill-Outward pid sig s = kill_noted-Outward pid sig _ _

  unregistered_killed-Outward :
      (r : Answer (Unit {0})) (s : Image W) → Outward s (unregistered_killed os r s).1
  unfolding unregistered_killed
  unregistered_killed-Outward (done _) s = ((refl, refl), refl)
  unregistered_killed-Outward (failed e) s =
      if_cases (λ (f : M (Image W) (Unit {0})). Outward s (f s).1) (e == esrch)
        (λ _. ((refl, refl), refl)) (λ _. load_log-Outward _ _ s)

  register_failed-Starts :
      (path name : Text) (pid : ℤ) (s : Image W) → Starts path s (register_failed os name pid s)
  unfolding register_failed
  register_failed-Starts path name pid s =
      let message = codes "FAILED TO REGISTER HSV FOR " ++ name in
      let s1 = (load_log os message log_level_critical s).1 in
      let (r, s2) = send_kill os pid sigterm s1 in
      Starts-refused path s (register_failed os name pid s).1 (
        Outward-trans s s1 (unregistered_killed os r s2).1
          (load_log-Outward message log_level_critical s)
          (Outward-trans s1 s2 (unregistered_killed os r s2).1 (send_kill-Outward pid sigterm s1)
            (unregistered_killed-Outward r s2)))

  hsv_started-Outward :
      (name : Text) (pid : ℤ) (s : Image W)
      → Outward s (hsv_started os name pid s).1 × ((hsv_started os name pid s).0 ≡ pos 0)
  unfolding hsv_started
  hsv_started-Outward name pid s = (load_log-Outward _ _ _, refl)

  hsv_started-Starts :
      (path name : Text) (pid : ℤ) (s u : Image W)
      → SameRest s u
      → has_service path (entries u.load) ≡ true
      → Grows s.load u.load
      → Starts path s (hsv_started os name pid u)
  unfolding hsv_started load_log
  hsv_started-Starts path name pid s u a l g = (a, inl (refl, l, g))

  -- from the call of hsv_register on
  registered-Starts :
      (name path : Text) (pid : ℤ) (s : Image W)
      → Starts path s (
          (register pid path >>= λ r.
          if is_negative r then register_failed os name pid else hsv_started os name pid)
            s)
  registered-Starts name path pid s =
      let u = record s { load = (hsv_register pid path s.load).1 } in
      elim (hsv_register-cases pid path s.load) [
        | inl (z, e) ↦ rw z (
            Starts-after path s u (register_failed os name pid u) ((refl, refl), e)
              (register_failed-Starts path name pid u))
        | inr (z, g, l) ↦ rw z (hsv_started-Starts path name pid s u (refl, refl) l g)
      ]

  hsv_forked-Starts :
      (name path : Text) (r : Answer ℕ) (s : Image W) → Starts path s (hsv_forked os name path r s)
  unfolding hsv_forked
  hsv_forked-Starts name path (failed e) s =
      failing_log path (codes "FORK FAILED WHILE STARTING HSV") log_level_critical s
  hsv_forked-Starts name path (done pid) s = registered-Starts name path (pos pid) _

  hsv_masked-Starts :
      (name path : Text) (r : Answer (Unit {0})) (s : Image W)
      → Starts path s (hsv_masked os name path r s)
  unfolding hsv_masked
  hsv_masked-Starts name path (failed e) s =
      failing_log path (codes "SIGPROCMASK FAILED") log_level_critical s
  hsv_masked-Starts name path (done _) s = hsv_forked-Starts name path _ _

  start_listed-Starts :
      (name path : Text) (s : Image W) → Starts path s (start_listed os name path s.load s)
  unfolding start_listed start_hsv
  start_listed-Starts name path s =
      if_cases (λ (f : M (Image W) ℤ). Starts path s (f s)) (is_found (hsv_find s.load path))
        (λ y.
          ((refl, refl), inl (refl, sym (is_found-hsv_find s.load path) ∙ y, Grows-refl s.load)))
        (λ _.
          if_cases (λ (f : M (Image W) ℤ). Starts path s (f s)) (leb max_hsv s.load.hsv_count)
            (λ _. failing_log path (codes "MAXIMUM HSV LIMIT REACHED") log_level_critical s)
            (λ _. hsv_masked-Starts name path _ _))

  start_found-Starts :
      (name path : Text) (r : Answer FileKind) (s : Image W)
      → Starts path s (start_found os name path r s)
  unfolding start_found
  start_found-Starts name path (failed e) s =
      failing_log path (codes "SERVICE " ++ (name ++ (codes " DOES NOT EXIST: " ++ os.strerror e)))
        log_level_warn s
  start_found-Starts name path (done kind) s =
      if_cases (λ (f : M (Image W) ℤ). Starts path s (f s)) (not (is_directory kind))
        (λ _.
          failing_log path (codes "SERVICE " ++ (name ++ codes " IS NOT A DIRECTORY"))
            log_level_warn s)
        (λ _. start_listed-Starts name path s)

  start_at-Starts :
      (name path : Text) (s : Image W) → Starts path s (start_at os name (some path) s)
  unfolding start_at
  start_at-Starts name path s = start_found-Starts name path _ _

  -- For a name that load_service_path accepts, load_start_service returns 0 with the service in
  -- the table, which then keeps what it had and stays well formed, or returns -1 with the table
  -- as it was; on every branch the variables of the mode controller and of the signals are as
  -- before.
  pub load_start_service-Starts :
      (name path : Text) (s : Image W)
      → load_service_path path_max (some name) ≡ some path
      → Starts path s (load_start_service os (some name) s)
  unfolding load_start_service
  load_start_service-Starts name path s e = rw e (start_at-Starts name path s)

  -- A name that gives no path.
  pub load_start_service_refused :
      (service : Option Text) (s : Image W)
      → load_service_path path_max service ≡ none
      → Outward s (load_start_service os service s).1
        × ((load_start_service os service s).0 ≡ minus_one)
  unfolding load_start_service start_at
  load_start_service_refused none s e = rw e (load_log-Outward _ _ s, refl)
  load_start_service_refused (some name) s e =
      rw e (load_log-Outward (codes "INVALID SERVICE NAME") log_level_warn s, refl)

  -- The signal was sent, or kill failed.
  abbrev pub Kills : ℤ → ℤ → Image W → Answer (Unit {0}) × Image W → Type 0
  Kills pid sig s r =
      (r.1.out.trace ≡ s.out.trace) ⊎ (r.1.out.trace ≡ signalled pid sig ∷ s.out.trace)

  kill_noted-Kills :
      (pid sig : ℤ) (r : Answer (Unit {0})) (s : Image W)
      → Kills pid sig s (kill_noted os pid sig r s)
  unfolding kill_noted
  kill_noted-Kills pid sig (done _) s = inr refl
  kill_noted-Kills pid sig (failed e) s = inl refl

  kill_noted-Sends :
      (pid sig : ℤ) (r : Answer (Unit {0})) (w : W) (s : Image W)
      → (os.kill pid sig w).0 ≡ r
      → Sends os pid sig s.out.trace (kill_noted os pid sig r s).1.out.trace
  unfolding kill_noted
  kill_noted-Sends pid sig (done _) w s h = inl refl
  kill_noted-Sends pid sig (failed e) w s h = inr ((e, w, h), refl)

  pub send_kill-Sends :
      (pid sig : ℤ) (s : Image W)
      → Sends os pid sig s.out.trace (send_kill os pid sig s).1.out.trace
  unfolding send_kill
  send_kill-Sends pid sig s =
      kill_noted-Sends pid sig (os.kill pid sig s.out.world).0 s.out.world
        (record s { out = record s.out { world = (os.kill pid sig s.out.world).1 } }) refl

  pub send_kill-Kills : (pid sig : ℤ) (s : Image W) → Kills pid sig s (send_kill os pid sig s)
  unfolding send_kill
  send_kill-Kills pid sig s = kill_noted-Kills pid sig _ _
