-- ===== src/Examples/Children.antt =====
-- The theorems on processes and on the log at one run each.
use hail2_repos.Prelude.{some, ◌≡◌, refl, true, [], ◌∷◌, ◌++◌, pos, codes, drop, arith}
use hail2_repos.Kernel.{done, failed, Out, Tm}
use hail2_repos.Kernel.Errno.{eintr}
use hail2_repos.Log.{log_line, log_level_name, log_write}
use hail2_repos.Log.Effects.{Writes, log_write-Writes}
use hail2_repos.Log.Stamp.{read_stamp, IsCalendar, log_line-read_stamp}
use hail2_repos.Process.{process_wait, process_reap}
use hail2_repos.Process.Waiting.{Collects, Reaps, process_wait-Collects, process_reap-Reaps}
use hail2_repos.Examples.Script.{Script, scripted, scripted-Settles}

abbrev outside : Out Script
outside = record {
  world = failed eintr ∷ done (record { pid = 7; status = 256 }) ∷ [];
  log_file = true;
  lines = [];
  trace = [];
  console = [];
}

process_wait-Collects_example :
    Collects scripted (pos 7) outside.world (process_wait scripted (pos 7) outside).0
process_wait-Collects_example = process_wait-Collects scripted scripted-Settles (pos 7) outside refl

process_reap-Reaps_example : Reaps scripted outside.world (process_reap scripted outside).0.0
process_reap-Reaps_example = process_reap-Reaps scripted scripted-Settles outside

-- 31 December 2026, 23:59
abbrev new_years_eve : Tm
new_years_eve = record { tm_mon = 11; tm_mday = 31; tm_year = 126; tm_hour = 23; tm_min = 59 }

new_years_eve-IsCalendar : IsCalendar new_years_eve
new_years_eve-IsCalendar = record {
  mon = omega arith;
  mday = omega arith;
  year = omega arith;
  hour = omega arith;
  min = omega arith;
}

log_line-read_stamp_example :
    (read_stamp (log_line new_years_eve (codes "MODE") (codes "MD1 COMPLETE") 1) ≡ new_years_eve)
    × (drop 21 (log_line new_years_eve (codes "MODE") (codes "MD1 COMPLETE") 1)
        ≡ codes "MODE" ++ (32 ∷ codes "MD1 COMPLETE" ++ (32 ∷ log_level_name 1 ++ 10 ∷ [])))
log_line-read_stamp_example =
    log_line-read_stamp new_years_eve (codes "MODE") (codes "MD1 COMPLETE") 1
      new_years_eve-IsCalendar

log_write-Writes_example :
    Writes scripted outside.world
      (codes "MODE")
      (codes "MD1 COMPLETE")
      0
      outside
      (log_write scripted (some (codes "MODE")) (some (codes "MD1 COMPLETE")) 0 outside)
log_write-Writes_example = log_write-Writes scripted (codes "MODE") (codes "MD1 COMPLETE") 0 outside

abbrev new_years_day_1970 : Tm
new_years_day_1970 = record { tm_mon = 0; tm_mday = 1; tm_year = 70; tm_hour = 0; tm_min = 0 }
