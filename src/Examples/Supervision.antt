-- ===== src/Examples/Supervision.antt =====
-- The theorems on the supervisor at one run each.
use hail2_repos.Prelude.{refl, false, [], ◌∷◌, pos}
use hail2_repos.Kernel.{done, failed}
use hail2_repos.Kernel.Errno.{eintr}
use hail2_repos.Hsv.Control.{Supervisor}
use hail2_repos.Hsv.Control.Effects.{Calm}
use hail2_repos.Hsv.Stop.{hsv_stop_service}
use hail2_repos.Hsv.Stop.Leaving.{Stopping, hsv_stop_service-Stopping}
use hail2_repos.Examples.Script.{Script, scripted, scripted-Watchful}

-- A supervisor at its start; waitpid is interrupted, then its service runs on, then leaves.
abbrev started : Supervisor Script
started = record {
  out = record {
    world =
        failed eintr
        ∷ done (record { pid = 0; status = 0 })
        ∷ done (record { pid = 7; status = 0 })
        ∷ [];
    log_file = false;
    lines = [];
    trace = [];
    console = [];
  };
  shutting_down = false;
  restart_requested = false;
}

hsv_stop_service-Stopping_example :
    Calm scripted started (hsv_stop_service scripted (pos 7) started).1
    × Stopping scripted (pos 7) [] (hsv_stop_service scripted (pos 7) started).1.out.trace
hsv_stop_service-Stopping_example =
    hsv_stop_service-Stopping scripted scripted-Watchful (pos 7) started refl
