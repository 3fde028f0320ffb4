-- ===== src/Examples/Machines.antt =====
-- The theorems on the preparation of the machine and on the programs of the modes, at one run each.
use hail2_repos.Prelude.{◌≡◌, ◌⊎◌, false, true, [], ◌∷◌, ℤ}
use hail2_repos.Kernel.{Out, done, failed}
use hail2_repos.Kernel.Errno.{eintr}
use hail2_repos.Image.{fresh}
use hail2_repos.Machine.Startup.{sysload_prepare}
use hail2_repos.Machine.Startup.Preparing.{Prepares, sysload_prepare-Prepares}
use hail2_repos.Machine.Shutdown.{sysdown_prepare}
use hail2_repos.Machine.Shutdown.PoweringOff.{PowersOff, sysdown_prepare-PowersOff}
use hail2_repos.Md.Md0.{md0_main}
use hail2_repos.Md.Md0.ShuttingDown.{md0_main-PowersOff}
use hail2_repos.Md.Md2.{Operator}
use hail2_repos.Examples.Script.{Script, scripted, scripted-Settles}

-- The first program is waited for through an interruption; the second one exits with status 1.
abbrev answers : Script
answers =
    failed eintr
    ∷ done (record { pid = 7; status = 0 })
    ∷ done (record { pid = 7; status = 256 })
    ∷ []

abbrev booting : Out Script
booting = record { world = answers; log_file = false; lines = []; trace = []; console = [] }

abbrev operating : Operator Script
operating = record { out = booting; running = true }

sysload_prepare-Prepares_example : Prepares scripted [] (sysload_prepare scripted booting).1.trace
sysload_prepare-Prepares_example = sysload_prepare-Prepares scripted scripted-Settles booting

sysdown_prepare-PowersOff_example :
    PowersOff scripted []
      (sysdown_prepare scripted booting).0
      (sysdown_prepare scripted booting).1.trace
sysdown_prepare-PowersOff_example = sysdown_prepare-PowersOff scripted scripted-Settles booting

md0_main-PowersOff_example :
    let r = md0_main scripted (fresh answers) in
    ((r.0 ≡ 1) × (r.1.out.trace ≡ []))
    ⊎ ((r.0 ≡ 0) × ((result : ℤ) × PowersOff scripted [] result r.1.out.trace))
md0_main-PowersOff_example = md0_main-PowersOff scripted scripted-Settles answers
