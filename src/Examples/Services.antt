-- ===== src/Examples/Services.antt =====
-- The theorems on the HSV table and on services at one run each.
use hail2_repos.Prelude.{
  ◌++◌, joined, ℕ, zero, suc, ◌≡◌, ◌↔◌, refl, arith, true, some, [], ◌∷◌, pos, minus_one, Text,
  codes, if◌then◌else◌, is_negative, ◌⊎◌,
}
use hail2_repos.Kernel.{done, failed}
use hail2_repos.Kernel.Errno.{eintr}
use hail2_repos.Image.{Image, HsvEntry, HsvTable, fresh}
use hail2_repos.Load.Table.{
  path_max, service_dir, load_service_path, hsv_find, hsv_register, hsv_unregister, load_child_exit,
}
use hail2_repos.Load.Table.Paths.{Fits, load_service_path-Fits}
use hail2_repos.Load.Table.View.{
  entries, remove_at, remove_pid, entries-hsv_unregister, entries-load_child_exit,
}
use hail2_repos.Load.Table.Invariant.{
  IsTable, empty-IsTable, registrable, hsv_register-entries, hsv_register-IsTable,
}
use hail2_repos.Load.Services.{load_start_service, load_stop_service, load_restart_service}
use hail2_repos.Load.Services.Effects.{SameRest, Starts, load_start_service-Starts}
use hail2_repos.Load.Boot.{
  load_enable_service, load_disable_service, load_directory, onboot_dir, hsv_shutdown_all,
}
use hail2_repos.Kernel.SignalNumber.{sigterm, sigusr1}
use hail2_repos.Load.Services.Requests.{
  Requests, load_stop_service-Requests, load_restart_service-Requests,
}
use hail2_repos.Load.Boot.Links.{
  Replaces, Disables, load_enable_service-Replaces, load_disable_service-Disables,
}
use hail2_repos.Load.Boot.Startup.{AllListed, load_directory-LoadsAll}
use hail2_repos.Load.Table.View.Lookup.{index_of, hsv_find-index_of}
use hail2_repos.Load.Boot.Shutdown.{Stops, last_first, hsv_shutdown_all-Stops}
use hail2_repos.Examples.Script.{Script, scripted, scripted-Settles}

abbrev entry_at : ℕ → HsvEntry
entry_at zero = record { pid = pos 7; service = codes "/a" }
entry_at (suc i) = record { pid = pos 8; service = codes "/b" }

abbrev no_entries : HsvTable
no_entries = record { slot = entry_at; hsv_count = 0 }

abbrev two_entries : HsvTable
two_entries = record { slot = entry_at; hsv_count = 2 }

abbrev web_path : Text
web_path = joined service_dir (codes "web")

web-Fits : Fits path_max (codes "web") web_path
unfolding codes
web-Fits = (λ e. cc e, refl, refl, omega arith)

web-path : load_service_path path_max (some (codes "web")) ≡ some web_path
web-path = (load_service_path-Fits path_max (codes "web") web_path).1 web-Fits

load_service_path-Fits_example :
    (load_service_path path_max (some (codes "web")) ≡ some web_path)
    ↔ Fits path_max (codes "web") web_path
load_service_path-Fits_example = load_service_path-Fits path_max (codes "web") web_path

entries-hsv_unregister_example :
    entries (hsv_unregister 0 two_entries) ≡ remove_at 0 (entries two_entries)
entries-hsv_unregister_example = entries-hsv_unregister two_entries 0 (omega arith)

hsv_find-index_of_example :
    hsv_find two_entries (codes "/b") ≡ index_of (codes "/b") 0 (entries two_entries)
hsv_find-index_of_example = hsv_find-index_of two_entries (codes "/b")

entries-load_child_exit_example :
    entries (load_child_exit (pos 7) two_entries) ≡ remove_pid (pos 7) (entries two_entries)
entries-load_child_exit_example = entries-load_child_exit (pos 7) two_entries

hsv_register-entries_example :
    ((hsv_register (pos 9) (codes "/c") no_entries).0
      ≡ (if registrable (pos 9) (codes "/c") (entries no_entries) then pos 0 else minus_one))
    × (entries (hsv_register (pos 9) (codes "/c") no_entries).1 ≡ (
        if registrable (pos 9) (codes "/c") (entries no_entries)
        then entries no_entries ++ record { pid = pos 9; service = codes "/c" } ∷ []
        else entries no_entries))
hsv_register-entries_example = hsv_register-entries (pos 9) (codes "/c") no_entries

hsv_register-IsTable_example : IsTable (hsv_register (pos 9) (codes "/c") no_entries).1
hsv_register-IsTable_example =
    hsv_register-IsTable (pos 9) (codes "/c") no_entries (empty-IsTable entry_at)

one_entry-IsTable : IsTable (hsv_register (pos 9) (codes "/c") no_entries).1
one_entry-IsTable = hsv_register-IsTable (pos 9) (codes "/c") no_entries (empty-IsTable entry_at)

abbrev running : Image Script
running = record (fresh (failed eintr ∷ done (record { pid = 8; status = 0 }) ∷ [])) {
  load = two_entries;
}

load_start_service-Starts_example :
    Starts web_path running (load_start_service scripted (some (codes "web")) running)
load_start_service-Starts_example =
    load_start_service-Starts scripted (codes "web") web_path running web-path

load_directory-LoadsAll_example :
    let r = load_directory scripted onboot_dir (fresh []) in
    IsTable r.1.load
    × SameRest (fresh []) r.1
    × ((is_negative r.0 ≡ true)
        ⊎ ((r.0 ≡ pos 0) × AllListed scripted ((46 ∷ []) ∷ codes "web" ∷ []) r.1.load))
load_directory-LoadsAll_example =
    load_directory-LoadsAll scripted onboot_dir (fresh []) ((46 ∷ []) ∷ codes "web" ∷ []) refl
      (empty-IsTable _)

hsv_shutdown_all-Stops_example :
    ((hsv_shutdown_all scripted running).1.load.hsv_count ≡ 0)
    × Stops scripted (last_first 2 entry_at) [] (hsv_shutdown_all scripted running).1.out.trace
hsv_shutdown_all-Stops_example = hsv_shutdown_all-Stops scripted scripted-Settles running

load_stop_service-Requests_example :
    Requests scripted
      (pos 0)
      sigterm
      web_path
      running
      (load_stop_service scripted (some (codes "web")) running)
load_stop_service-Requests_example =
    load_stop_service-Requests scripted (codes "web") web_path running web-path

load_restart_service-Requests_example :
    Requests scripted minus_one sigusr1 web_path running
      (load_restart_service scripted (some (codes "web")) running)
load_restart_service-Requests_example =
    load_restart_service-Requests scripted (codes "web") web_path running web-path

load_enable_service-Replaces_example :
    Replaces web_path
      (joined onboot_dir (codes "web"))
      running
      (load_enable_service scripted (some (codes "web")) running)
load_enable_service-Replaces_example =
    load_enable_service-Replaces scripted (codes "web") web_path running web-path

load_disable_service-Disables_example :
    Disables scripted
      (codes "web")
      running
      (load_disable_service scripted (some (codes "web")) running)
load_disable_service-Disables_example = load_disable_service-Disables scripted (codes "web") running
