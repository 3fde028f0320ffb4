-- ===== src/Load/Boot.antt =====
-- [ENG]/load.c: the links of the onboot directory, startup from them, and the stop of all supervisors.
pub mod Startup
pub mod Shutdown
pub mod Links
use hail2_repos.Prelude.{
  joined, fitted, ℕ, zero, suc, ◌-◌, Bool, true, false, not, ◌||◌, Option, none, some, List, [],
  ◌∷◌, ◌++◌, ℤ, pos, minus_one, is_negative, Text, codes, text_eq, has_byte, snprintf, decimal,
  ◌==◌, if◌then◌else◌,
}
use hail2_repos.Kernel.{
  is_directory, System, Answer, done, failed, FileKind, directory, symlink_file, other_file, M,
  pure, call, emit, unlinked, linked, ◌>>=◌, ◌>>◌,
}
use hail2_repos.Kernel.Errno.{esrch, enoent}
use hail2_repos.Kernel.SignalNumber.{sigterm}
use hail2_repos.Log.{log_level_log, log_level_warn, log_level_critical}
use hail2_repos.Process.{process_wait}
use hail2_repos.Image.{Image, HsvTable, lift}
use hail2_repos.Load.Table.{path_max, load_service_path, hsv_unregister}
use hail2_repos.Load.Services.{load_log, send_kill, load_start_service, get_table}

abbrev pub onboot_dir : Text
onboot_dir = codes "/etc/hinit/[LOAD]/onboot"

-- S_ISLNK
abbrev pub is_symlink : FileKind → Bool
is_symlink symlink_file = true
is_symlink directory = false
is_symlink other_file = false

abbrev pub set_table : {W : Type 0} → HsvTable → M (Image W) (Unit {0})
set_table t s = (tt, record s { load = t })

module _ {W : Type 0} (os : System W) where
  -- a message, and the result -1
  pub refused : Text → ℕ → M (Image W) ℤ
  refused message level = do load_log os message level; pure minus_one

  pub symlink_made : Text → Text → Text → Answer (Unit {0}) → M (Image W) ℤ
  symlink_made name path link (failed e) =
      refused (codes "CANNOT ENABLE SERVICE " ++ (name ++ (codes ": " ++ os.strerror e)))
        log_level_critical
  symlink_made name path link (done _) = do
    lift (emit (linked path link))
    load_log os (codes "ENABLED SERVICE " ++ name) log_level_log
    pure (pos 0)

  pub make_symlink : Text → Text → Text → M (Image W) ℤ
  make_symlink name path link = do
    r ← lift (call (os.symlink path link))
    symlink_made name path link r

  pub old_unlinked : Text → Text → Text → Answer (Unit {0}) → M (Image W) ℤ
  old_unlinked name path link (done _) = do lift (emit (unlinked link)); make_symlink name path link
  old_unlinked name path link (failed e) =
      if e == enoent
      then make_symlink name path link
      else refused
          (codes "CANNOT REPLACE ENABLE LINK FOR " ++ (name ++ (codes ": " ++ os.strerror e)))
          log_level_critical

  pub enable_link : Text → Text → Option Text → M (Image W) ℤ
  enable_link name path none = refused (codes "ONBOOT LINK PATH TOO LONG") log_level_warn
  enable_link name path (some link) = do
    r ← lift (call (os.unlink link))
    old_unlinked name path link r

  pub enable_found : Text → Text → Answer FileKind → M (Image W) ℤ
  enable_found name path (failed e) =
      refused (codes "SERVICE " ++ (name ++ (codes " DOES NOT EXIST: " ++ os.strerror e)))
        log_level_warn
  enable_found name path (done kind) =
      if not (is_directory kind)
      then refused (codes "SERVICE " ++ (name ++ codes " IS NOT A DIRECTORY")) log_level_warn
      else enable_link name path (fitted path_max (joined onboot_dir name))

  pub enable_at : Text → Option Text → M (Image W) ℤ
  enable_at name none = pure minus_one
  enable_at name (some path) = do r ← lift (call (os.stat path)); enable_found name path r

  pub load_enable_service : Option Text → M (Image W) ℤ
  load_enable_service none = enable_at [] (load_service_path path_max none)
  load_enable_service (some name) = enable_at name (load_service_path path_max (some name))

  pub link_removed : Text → Text → Answer (Unit {0}) → M (Image W) ℤ
  link_removed name link (done _) = do
    lift (emit (unlinked link))
    load_log os (codes "DISABLED SERVICE " ++ name) log_level_log
    pure (pos 0)
  link_removed name link (failed e) =
      if e == enoent
      then pure (pos 0)
      else refused (codes "CANNOT DISABLE SERVICE " ++ (name ++ (codes ": " ++ os.strerror e)))
          log_level_critical

  pub disable_link : Text → Option Text → M (Image W) ℤ
  disable_link name none = refused (codes "ONBOOT DISABLE LINK PATH TOO LONG") log_level_warn
  disable_link name (some link) = do r ← lift (call (os.unlink link)); link_removed name link r

  pub load_disable_service : Option Text → M (Image W) ℤ
  load_disable_service none = refused (codes "INVALID SERVICE NAME FOR DISABLE") log_level_warn
  load_disable_service (some []) = refused (codes "INVALID SERVICE NAME FOR DISABLE") log_level_warn
  load_disable_service (some (c ∷ cs)) =
      if has_byte 47 (c ∷ cs)
      then refused (codes "INVALID SERVICE NAME FOR DISABLE") log_level_warn
      else disable_link (c ∷ cs) (fitted path_max (joined onboot_dir (c ∷ cs)))

  pub entry_target : Text → Text → Answer FileKind → M (Image W) ℤ
  entry_target name path (failed e) =
      refused (codes "SERVICE TARGET STAT FAILED FOR " ++ (path ++ (codes ": " ++ os.strerror e)))
        log_level_warn
  entry_target name path (done kind) =
      if not (is_directory kind)
      then refused (codes "SERVICE TARGET IS NOT A DIRECTORY: " ++ path) log_level_warn
      else load_start_service os (some name)

  pub entry_resolved : Text → Text → Answer Text → M (Image W) ℤ
  entry_resolved name link (failed e) =
      refused (codes "REALPATH FAILED FOR " ++ (link ++ (codes ": " ++ os.strerror e)))
        log_level_warn
  entry_resolved name link (done path) = do r ← lift (call (os.stat path)); entry_target name path r

  pub entry_seen : Text → Text → Answer FileKind → M (Image W) ℤ
  entry_seen name link (failed e) =
      refused (codes "LSTAT FAILED FOR " ++ (link ++ (codes ": " ++ os.strerror e)))
        log_level_critical
  entry_seen name link (done kind) =
      if not (is_symlink kind)
      then refused (codes "IGNORING NON-SYMLINK SERVICE ENTRY: " ++ link) log_level_warn
      else (do r ← lift (call (os.realpath link)); entry_resolved name link r)

  pub entry_link : Text → Option Text → M (Image W) ℤ
  entry_link name none = refused (codes "SERVICE PATH TOO LONG: " ++ name) log_level_warn
  entry_link name (some link) = do r ← lift (call (os.lstat link)); entry_seen name link r

  -- One round of the loop of `load_directory`: -1 where the source stores -1 in `result`.
  pub load_entry : Text → Text → M (Image W) ℤ
  load_entry dir name =
      if text_eq name (46 ∷ []) || text_eq name (46 ∷ 46 ∷ [])
      then pure (pos 0)
      else entry_link name (fitted path_max (joined dir name))

  -- the loop over what readdir returns; the last argument is `result`
  pub load_entries : Text → List Text → ℤ → M (Image W) ℤ
  load_entries dir [] result s = (result, s)
  load_entries dir (name ∷ names) result s =
      let (r, s') = load_entry dir name s in
      load_entries dir names (if is_negative r then minus_one else result) s'

  pub directory_read : Text → Answer (List Text) → M (Image W) ℤ
  directory_read dir (failed e) =
      refused (codes "CANNOT OPEN LOAD DIRECTORY " ++ (dir ++ (codes ": " ++ os.strerror e)))
        log_level_critical
  directory_read dir (done names) = load_entries dir names (pos 0)

  -- Only called with ONBOOT_DIR: the NULL check has no case here.
  pub load_directory : Text → M (Image W) ℤ
  load_directory dir = do r ← lift (call (os.read_directory dir)); directory_read dir r

  pub load_onboot : M (Image W) (Unit {0})
  load_onboot = do load_directory onboot_dir; pure tt

  pub shutdown_killed : Answer (Unit {0}) → M (Image W) (Unit {0})
  shutdown_killed (done _) = pure tt
  shutdown_killed (failed e) =
      if e == esrch
      then pure tt
      else load_log os (codes "FAILED TO TERMINATE HSV DURING SHUTDOWN") log_level_critical

  pub shutdown_waited : ℤ → M (Image W) (Unit {0})
  shutdown_waited status =
      if is_negative status
      then load_log os (codes "FAILED TO WAIT FOR HSV DURING SHUTDOWN") log_level_critical
      else pure tt

  -- both branches end with hsv_unregister (hsv_count - 1)
  pub drop_last : M (Image W) (Unit {0})
  drop_last = do t ← get_table; set_table (hsv_unregister (t.hsv_count - 1) t)

  -- One round of the loop of `hsv_shutdown_all`, for the pid of the last entry.
  pub shutdown_one : ℤ → M (Image W) (Unit {0})
  shutdown_one pid = do
    killed ← send_kill os pid sigterm
    shutdown_killed killed
    status ← lift (process_wait os pid)
    shutdown_waited status
    drop_last

  -- `while (hsv_count > 0)`, on fuel
  pub shutdown_loop : ℕ → M (Image W) (Unit {0})
  shutdown_loop zero s = (tt, s)
  shutdown_loop (suc fuel) s =
      let next = shutdown_one (s.load.slot (s.load.hsv_count - 1)).pid s in
      let rest = shutdown_loop fuel next.1 in if s.load.hsv_count == 0 then (tt, s) else rest

  pub hsv_shutdown_all : M (Image W) (Unit {0})
  hsv_shutdown_all = do
    t ← get_table
    load_log os (snprintf 128 (codes "HSV COUNT = " ++ decimal t.hsv_count)) log_level_log
    shutdown_loop t.hsv_count
    load_log os (codes "ALL HSV STOPPED") log_level_log
