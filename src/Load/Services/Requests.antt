-- ===== src/Load/Services/Requests.antt =====
-- load_stop_service and load_restart_service.
use hail2_repos.Prelude.{
  ℕ, ◌≡◌, refl, sym, ◌⊎◌, inl, inr, Option, none, some, ◌∷◌, ℤ, pos, minus_one, Text, ◌==◌,
  if◌then◌else◌, Bool-cases,
}
use hail2_repos.Kernel.{System, Answer, done, failed, signalled, ◌>>=◌}
use hail2_repos.Kernel.Errno.{esrch}
use hail2_repos.Kernel.SignalNumber.{sigterm, sigusr1}
use hail2_repos.Log.Effects.{trace-say}
use hail2_repos.Image.{Image}
use hail2_repos.Load.Table.{path_max, load_service_path, hsv_find}
use hail2_repos.Load.Table.View.{entries}
use hail2_repos.Load.Table.View.Lookup.{service_pid, pid_at, pid_at-hsv_find}
use hail2_repos.Load.Services.Effects.{Outward}
use hail2_repos.Load.Services.{
  load_log, kill_noted, send_kill, stop_signalled, stop_found, stop_at, load_stop_service,
  restart_signalled, restart_found, restart_at, load_restart_service,
}

-- What follows from the answer of kill; `gone` is the result for a supervisor that is no more.
abbrev pub Answered : {W : Type 0} → ℤ → ℤ → ℤ → Image W → ℤ × Image W → Answer (Unit {0}) → Type 0
Answered gone pid sig s r (done _) =
    (r.0 ≡ pos 0) × (r.1.out.trace ≡ signalled pid sig ∷ s.out.trace)
Answered gone pid sig s r (failed e) =
    (r.0 ≡ (if e == esrch then gone else minus_one)) × (r.1.out.trace ≡ s.out.trace)

module _ {W : Type 0} (os : System W) where
  -- The end of both operations, for the answer `a` of kill.
  abbrev pub Ends : ℤ → ℤ → ℤ → Image W → Answer (Unit {0}) → ℤ × Image W → Type 0
  Ends gone pid sig s a r = Outward s r.1 × Answered gone pid sig s r a

  -- A request to the supervisor of the service at `path`.
  abbrev pub Requests : ℤ → ℤ → Text → Image W → ℤ × Image W → Type 0
  Requests gone sig path s r =
      ((service_pid path (entries s.load) ≡ none) × (r ≡ (gone, s)))
      ⊎ ((pid : ℤ) × (service_pid path (entries s.load) ≡ some pid)
          × Ends gone pid sig s (os.kill pid sig s.out.world).0 r)

  stop_signalled-Ends :
      (name : Text) (pid : ℤ) (a : Answer (Unit {0})) (s : Image W)
      → Ends (pos 0) pid sigterm s a ((kill_noted os pid sigterm a >>= stop_signalled os name) s)
  unfolding kill_noted stop_signalled load_log
  stop_signalled-Ends name pid (done _) s = (((refl, refl), refl), (refl, trace-say os _ _ _ _))
  stop_signalled-Ends name pid (failed e) s = elim (Bool-cases (e == esrch)) [
    | inl t ↦ rw t (((refl, refl), refl), (refl, refl))
    | inr n ↦ rw n (((refl, refl), refl), (refl, trace-say os _ _ _ _))
  ]

  restart_signalled-Ends :
      (name : Text) (pid : ℤ) (a : Answer (Unit {0})) (s : Image W)
      → Ends minus_one pid sigusr1 s a
          ((kill_noted os pid sigusr1 a >>= restart_signalled os name) s)
  unfolding kill_noted restart_signalled load_log
  restart_signalled-Ends name pid (done _) s = (((refl, refl), refl), (refl, trace-say os _ _ _ _))
  restart_signalled-Ends name pid (failed e) s = elim (Bool-cases (e == esrch)) [
    | inl t ↦ rw t (((refl, refl), refl), (refl, refl))
    | inr n ↦ rw n (((refl, refl), refl), (refl, trace-say os _ _ _ _))
  ]

  stop_found-Requests :
      (name path : Text) (i : Option ℕ) (s : Image W)
      → pid_at s.load.slot i ≡ service_pid path (entries s.load)
      → Requests (pos 0) sigterm path s (stop_found os name i s.load s)
  unfolding stop_found send_kill
  stop_found-Requests name path none s h = inl (sym h, refl)
  stop_found-Requests name path (some i) s h =
      let pid = (s.load.slot i).pid in
      let (a, w) = os.kill pid sigterm s.out.world in
      inr
        (pid, sym h, stop_signalled-Ends name pid a (record s { out = record s.out { world = w } }))

  restart_found-Requests :
      (name path : Text) (i : Option ℕ) (s : Image W)
      → pid_at s.load.slot i ≡ service_pid path (entries s.load)
      → Requests minus_one sigusr1 path s (restart_found os name i s.load s)
  unfolding restart_found send_kill
  restart_found-Requests name path none s h = inl (sym h, refl)
  restart_found-Requests name path (some i) s h =
      let pid = (s.load.slot i).pid in
      let (a, w) = os.kill pid sigusr1 s.out.world in
      inr (
        pid,
        sym h,
        restart_signalled-Ends name pid a (record s { out = record s.out { world = w } }),
      )

  stop_at-Requests :
      (name path : Text) (s : Image W)
      → Requests (pos 0) sigterm path s (stop_at os name (some path) s)
  unfolding stop_at
  stop_at-Requests name path s =
      stop_found-Requests name path (hsv_find s.load path) s (pid_at-hsv_find s.load path)

  restart_at-Requests :
      (name path : Text) (s : Image W)
      → Requests minus_one sigusr1 path s (restart_at os name (some path) s)
  unfolding restart_at
  restart_at-Requests name path s =
      restart_found-Requests name path (hsv_find s.load path) s (pid_at-hsv_find s.load path)

  -- For a name that load_service_path accepts, load_stop_service returns 0 and changes nothing
  -- when the table has no such service; else it sends SIGTERM to the pid of its first entry,
  -- leaves the variables of the program, but for those of the log, as they were, and returns 0
  -- when kill succeeds or says ESRCH and -1 when it fails otherwise.
  pub load_stop_service-Requests :
      (name path : Text) (s : Image W)
      → load_service_path path_max (some name) ≡ some path
      → Requests (pos 0) sigterm path s (load_stop_service os (some name) s)
  unfolding load_stop_service
  load_stop_service-Requests name path s e = rw e (stop_at-Requests name path s)

  -- For a name that load_service_path accepts, load_restart_service returns -1 and changes
  -- nothing when the table has no such service; else it sends SIGUSR1 to the pid of its first
  -- entry, leaves the variables of the program, but for those of the log, as they were, and
  -- returns 0 when kill succeeds and -1 when it fails.
  pub load_restart_service-Requests :
      (name path : Text) (s : Image W)
      → load_service_path path_max (some name) ≡ some path
      → Requests minus_one sigusr1 path s (load_restart_service os (some name) s)
  unfolding load_restart_service
  load_restart_service-Requests name path s e = rw e (restart_at-Requests name path s)
