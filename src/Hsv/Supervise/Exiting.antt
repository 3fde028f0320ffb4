-- ===== src/Hsv/Supervise/Exiting.antt =====
-- `main` of the supervisor.
use hail2_repos.Prelude.{ℕ, ℤ, ◌≤◌, length, ◌≡◌, ◌⊎◌, true, Option, some, List, Text, codes, joined}
use hail2_repos.Kernel.{System, failed, Event}
use hail2_repos.Kernel.Watchful.{Watchful}
use hail2_repos.Load.Table.{path_max}
use hail2_repos.Hsv.Control.{Supervisor}
use hail2_repos.Hsv.Control.Effects.{Runs}
use hail2_repos.Hsv.Supervise.Lives.{Lives}
use hail2_repos.Hsv.Supervise.{Scripts}

-- the scripts in the directory of a service
abbrev pub service_scripts : Text → Scripts
service_scripts service = record {
  run_path = joined service (codes "run");
  stop_path = joined service (codes "stop");
  finish_path = joined service (codes "finish");
}

-- What a supervisor that was started does: the service lives, and then the hooks run.
abbrev pub Supervises : {W : Type 0} → System W → Scripts → List Event → List Event → Type 0
Supervises os scripts old new =
    (lived : List Event) × (stopped : List Event) × Lives os scripts old lived
    × Runs os scripts.stop_path lived stopped
    × Runs os scripts.finish_path stopped new

-- What keeps a service from being supervised.
pub data Unsupervised {W : Type 0} (os : System W) (service : Text) : Type 0 where
  too_long : (script : Text) → path_max ≤ length (joined service script) → Unsupervised os service
  no_handler :
      (sig : ℤ) (w : W) (e : ℕ) → (os.sigaction sig w).0 ≡ failed e → Unsupervised os service

-- The outcome of `main`: failure with nothing done, for a reason, or success after the supervision.
abbrev pub Exits :
    {W : Type 0} → System W → Text → Scripts → Supervisor W → Option ℕ × Supervisor W → Type 0
Exits os service scripts s r =
    ((r.0 ≡ some 1) × (r.1.out.trace ≡ s.out.trace) × Unsupervised os service)
    ⊎ ((r.0 ≡ some 0)
        × (r.1.shutting_down ≡ true)
        × Supervises os scripts s.out.trace r.1.out.trace)
