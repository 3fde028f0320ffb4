-- ===== src/Examples/Modes.antt =====
-- The theorems on modes, signals and PID 1 at one run each.
use hail2_repos.Prelude.{
  ◌||◌, none, some, ◌≡◌, refl, true, false, [], ◌∷◌, ◌++◌, pos, minus_one, inl, codes, eq_ℤ,
  if◌then◌else◌,
}
use hail2_repos.Kernel.{done, failed}
use hail2_repos.Kernel.Errno.{eintr}
use hail2_repos.Kernel.SignalNumber.{sigterm, sigint, sigchld}
use hail2_repos.Image.{Image, fresh}
use hail2_repos.Mode.{mode_start, mode_child_exit}
use hail2_repos.Mode.Exits.{
  mode_none, mode_md0, mode_md1, mode_md2, signal_result, mode_exec_result, mode_failure_message,
  md2_exit_failure,
}
use hail2_repos.Mode.Exits.Encoding.{ending, message-ending, md2_exit_failure-result}
use hail2_repos.Mode.Frame.{Operating, Idle}
use hail2_repos.Mode.Transitions.{Transition, mode_start-Transition}
use hail2_repos.Mode.Tracking.{
  IsTracked, Halted, request, child_exit, mode_child_exit-mode, respond_all, run-IsTracked,
  respond_all-Halted,
}
use hail2_repos.Mode.Order.{ShutsDown, mode_start-ShutsDown}
use hail2_repos.Signals.{signal_process, process_sigterm, process_sigchld, clear_sigchld}
use hail2_repos.Signals.Draining.{Drains, process_sigchld-Drains}
use hail2_repos.Signals.Handling.{none_pending, signal_process-idle, signal_process-pending}
use hail2_repos.Hinit.{suspend, main_loop}
use hail2_repos.Hinit.Running.{sigterm-shutdown, main_loop-Idle}
use hail2_repos.Examples.Script.{Script, scripted, scripted-Settles, scripted-Forks}

-- waitpid is interrupted once, and then hands over the child 7, which exited with status 0.
abbrev interrupted_once : Script
interrupted_once = failed eintr ∷ done (record { pid = 7; status = 0 }) ∷ []

abbrev in_md2 : Image Script
in_md2 = record (fresh interrupted_once) {
  mode = record { current_mode = mode_md2; md2_pid = pos 7; md2_shutdown_requested = false };
}

abbrev in_md0 : Image Script
in_md0 = record (fresh interrupted_once) {
  mode = record { current_mode = mode_md0; md2_pid = minus_one; md2_shutdown_requested = false };
}

abbrev child_waiting : Image Script
child_waiting = record in_md2 {
  pending = record { sigchld_pending = true; sigterm_pending = false; sigint_pending = true };
}

mode_start-Transition_example :
    Transition mode_md0 in_md2.mode (mode_start scripted mode_md0 in_md2).1.mode
mode_start-Transition_example = mode_start-Transition scripted scripted-Forks mode_md0 in_md2

run-IsTracked_example :
    IsTracked
      (respond_all scripted
        (request mode_md1 ∷ child_exit (pos 7) (pos 0) ∷ request mode_md0 ∷ [])
        (fresh interrupted_once)).mode
run-IsTracked_example =
    run-IsTracked scripted scripted-Forks
      (request mode_md1 ∷ child_exit (pos 7) (pos 0) ∷ request mode_md0 ∷ []) interrupted_once

mode_start-ShutsDown_example : ShutsDown scripted in_md2 (mode_start scripted mode_md0 in_md2).1
mode_start-ShutsDown_example =
    mode_start-ShutsDown scripted scripted-Settles in_md2 (refl, refl, refl)

in_md2-idle : Operating (signal_process scripted in_md2).1.mode
in_md2-idle = rw (signal_process-idle scripted in_md2 refl) (refl, refl, refl)

sigterm-shutdown_example :
    let arrived =
      (suspend scripted ((sigchld ∷ []) ++ (sigterm ∷ [])) (signal_process scripted in_md2).1).1 in
    ShutsDown scripted arrived (process_sigterm scripted arrived).1
    × Halted
        (main_loop scripted
          (((sigchld ∷ []) ++ (sigterm ∷ [])) ∷ ([] ∷ ((sigint ∷ []) ∷ [])))
          in_md2).1.mode
sigterm-shutdown_example =
    sigterm-shutdown scripted scripted-Forks scripted-Settles (sigchld ∷ []) [] []
      ((sigint ∷ []) ∷ []) in_md2 in_md2-idle

respond_all-Halted_example :
    (respond_all scripted (request mode_md2 ∷ child_exit (pos 7) (pos 0) ∷ []) in_md0).mode
    ≡ in_md0.mode
respond_all-Halted_example =
    respond_all-Halted scripted scripted-Forks (request mode_md2 ∷ child_exit (pos 7) (pos 0) ∷ [])
      in_md0 (refl, refl, refl)

mode_child_exit-mode_example :
    (mode_child_exit scripted (pos 7) (pos 9) in_md2).1.mode
    ≡ record { current_mode = mode_none; md2_pid = minus_one; md2_shutdown_requested = false }
mode_child_exit-mode_example =
    mode_child_exit-mode scripted (pos 7) (pos 9) in_md2 (inl (refl, refl, refl))

process_sigchld-Drains_example :
    Drains scripted (clear_sigchld child_waiting).1 (process_sigchld scripted child_waiting).1
process_sigchld-Drains_example = process_sigchld-Drains scripted scripted-Settles child_waiting refl

signal_process-pending_example : (signal_process scripted child_waiting).1.pending ≡ none_pending
signal_process-pending_example = signal_process-pending scripted child_waiting

-- a program that SIGKILL ended
message-ending_example :
    mode_failure_message (codes "MD1") (mode_exec_result (pos 9)) ≡ codes "MD1" ++ ending 9
message-ending_example = message-ending (codes "MD1") 9

md2_exit_failure-result_example : md2_exit_failure (pos 9) ≡ (
    if eq_ℤ (mode_exec_result (pos 9)) (pos 0) || eq_ℤ (mode_exec_result (pos 9)) (signal_result 15)
    then none
    else some (mode_exec_result (pos 9)))
md2_exit_failure-result_example = md2_exit_failure-result (pos 9)

main_loop-Idle_example :
    Idle (main_loop scripted ((sigterm ∷ sigchld ∷ []) ∷ ([] ∷ [])) (fresh interrupted_once)).1.mode
main_loop-Idle_example =
    main_loop-Idle scripted scripted-Forks ((sigterm ∷ sigchld ∷ []) ∷ ([] ∷ []))
      (fresh interrupted_once) (refl, refl, refl)
