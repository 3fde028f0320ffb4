-- ===== src/Load/Services.antt =====
-- [ENG]/load.c: starting, stopping and restarting one service.
pub mod Effects
pub mod Requests
use hail2_repos.Prelude.{
  ℕ, ◌+◌, Bool, true, false, not, ◌&&◌, Option, none, some, [], ◌∷◌, ◌++◌, ℤ, pos, minus_one,
  is_negative, Text, codes, snprintf, show_int, leb, ◌==◌, if◌then◌else◌,
}
use hail2_repos.Kernel.{
  is_directory, System, Answer, done, failed, FileKind, directory, symlink_file, other_file, block,
  restore, Out, M, pure, call, emit, spawned, signalled, ◌>>=◌, ◌>>◌,
}
use hail2_repos.Kernel.Errno.{esrch}
use hail2_repos.Kernel.SignalNumber.{sigterm, sigusr1, sigchld}
use hail2_repos.Log.{say, log_level_log, log_level_warn, log_level_critical}
use hail2_repos.Process.{process_wait}
use hail2_repos.Image.{Image, HsvEntry, HsvTable, lift}
use hail2_repos.Load.Table.{max_hsv, path_max, load_service_path, hsv_find, hsv_register, is_found}

abbrev pub hsv_path : Text
hsv_path = codes "/usr/lib/hinit/hsv"

module _ {W : Type 0} where
  abbrev pub get_table : M (Image W) HsvTable
  get_table s = (s.load, s)

  -- hsv_register on the static table
  abbrev pub register : ℤ → Text → M (Image W) ℤ
  register pid path s = let (r, t) = hsv_register pid path s.load in (r, record s { load = t })

module _ {W : Type 0} (os : System W) where
  unfoldable pub load_log : Text → ℕ → M (Image W) (Unit {0})
  load_log message level = do lift (say os (codes "LOAD") (snprintf 256 message) level); pure tt

  -- kill, with its event
  pub kill_noted : ℤ → ℤ → Answer (Unit {0}) → M (Image W) (Answer (Unit {0}))
  kill_noted pid sig (done u) = do lift (emit (signalled pid sig)); pure (done u)
  kill_noted pid sig (failed e) = pure (failed e)

  pub send_kill : ℤ → ℤ → M (Image W) (Answer (Unit {0}))
  send_kill pid sig = do r ← lift (call (os.kill pid sig)); kill_noted pid sig r

  pub unregistered_killed : Answer (Unit {0}) → M (Image W) (Unit {0})
  unregistered_killed (done _) = pure tt
  unregistered_killed (failed e) =
      if e == esrch
      then pure tt
      else load_log (codes "FAILED TO TERMINATE UNREGISTERED HSV") log_level_critical

  pub register_failed : Text → ℤ → M (Image W) ℤ
  register_failed name pid = do
    load_log (codes "FAILED TO REGISTER HSV FOR " ++ name) log_level_critical
    killed ← send_kill pid sigterm
    unregistered_killed killed
    lift (process_wait os pid)
    lift (call (os.sigprocmask restore))
    pure minus_one

  pub hsv_started : Text → ℤ → M (Image W) ℤ
  hsv_started name pid = do
    lift (call (os.sigprocmask restore))
    load_log (codes "STARTED SERVICE " ++ (name ++ (codes " (HSV " ++ (show_int pid ++ codes ")"))))
        log_level_log
    pure (pos 0)

  pub hsv_forked : Text → Text → Answer ℕ → M (Image W) ℤ
  hsv_forked name path (failed _) = do
    load_log (codes "FORK FAILED WHILE STARTING HSV") log_level_critical
    lift (call (os.sigprocmask restore))
    pure minus_one
  hsv_forked name path (done pid) = do
    lift (emit (spawned (hsv_path ∷ path ∷ []) pid))
    registered ← register (pos pid) path
    if is_negative registered then register_failed name (pos pid) else hsv_started name (pos pid)

  pub hsv_masked : Text → Text → Answer (Unit {0}) → M (Image W) ℤ
  hsv_masked name path (failed _) = do
    load_log (codes "SIGPROCMASK FAILED") log_level_critical
    pure minus_one
  hsv_masked name path (done _) = do r ← lift (call os.fork); hsv_forked name path r

  pub start_hsv : Text → Text → M (Image W) ℤ
  start_hsv name path = do
    r ← lift (call (os.sigprocmask (block (sigchld ∷ []))))
    hsv_masked name path r

  pub start_listed : Text → Text → HsvTable → M (Image W) ℤ
  start_listed name path t =
      if is_found (hsv_find t path)
      then pure (pos 0)
      else if leb max_hsv t.hsv_count
      then (do load_log (codes "MAXIMUM HSV LIMIT REACHED") log_level_critical; pure minus_one)
      else start_hsv name path

  pub start_found : Text → Text → Answer FileKind → M (Image W) ℤ
  start_found name path (failed e) = do
    load_log (codes "SERVICE " ++ (name ++ (codes " DOES NOT EXIST: " ++ os.strerror e)))
        log_level_warn
    pure minus_one
  start_found name path (done kind) =
      if not (is_directory kind)
      then (do
        load_log (codes "SERVICE " ++ (name ++ codes " IS NOT A DIRECTORY")) log_level_warn
        pure minus_one)
      else (do t ← get_table; start_listed name path t)

  pub start_at : Text → Option Text → M (Image W) ℤ
  start_at name none = do load_log (codes "INVALID SERVICE NAME") log_level_warn; pure minus_one
  start_at name (some path) = do r ← lift (call (os.stat path)); start_found name path r

  pub load_start_service : Option Text → M (Image W) ℤ
  load_start_service none = start_at [] (load_service_path path_max none)
  load_start_service (some name) = start_at name (load_service_path path_max (some name))

  pub stop_signalled : Text → Answer (Unit {0}) → M (Image W) ℤ
  stop_signalled name (done _) = do
    load_log (codes "REQUESTED STOP FOR SERVICE " ++ name) log_level_log
    pure (pos 0)
  stop_signalled name (failed e) = if e == esrch then pure (pos 0) else (do
    load_log (codes "FAILED TO STOP SERVICE " ++ (name ++ (codes ": " ++ os.strerror e)))
        log_level_critical
    pure minus_one)

  pub stop_found : Text → Option ℕ → HsvTable → M (Image W) ℤ
  stop_found name none t = pure (pos 0)
  stop_found name (some i) t = do r ← send_kill (t.slot i).pid sigterm; stop_signalled name r

  pub stop_at : Text → Option Text → M (Image W) ℤ
  stop_at name none = pure minus_one
  stop_at name (some path) = do t ← get_table; stop_found name (hsv_find t path) t

  pub load_stop_service : Option Text → M (Image W) ℤ
  load_stop_service none = stop_at [] (load_service_path path_max none)
  load_stop_service (some name) = stop_at name (load_service_path path_max (some name))

  pub restart_signalled : Text → Answer (Unit {0}) → M (Image W) ℤ
  restart_signalled name (done _) = do
    load_log (codes "REQUESTED RESTART FOR SERVICE " ++ name) log_level_log
    pure (pos 0)
  restart_signalled name (failed e) = if e == esrch then pure minus_one else (do
    load_log (codes "FAILED TO RESTART SERVICE " ++ (name ++ (codes ": " ++ os.strerror e)))
        log_level_critical
    pure minus_one)

  pub restart_found : Text → Option ℕ → HsvTable → M (Image W) ℤ
  restart_found name none t = pure minus_one
  restart_found name (some i) t = do r ← send_kill (t.slot i).pid sigusr1; restart_signalled name r

  pub restart_at : Text → Option Text → M (Image W) ℤ
  restart_at name none = pure minus_one
  restart_at name (some path) = do t ← get_table; restart_found name (hsv_find t path) t

  pub load_restart_service : Option Text → M (Image W) ℤ
  load_restart_service none = restart_at [] (load_service_path path_max none)
  load_restart_service (some name) = restart_at name (load_service_path path_max (some name))
