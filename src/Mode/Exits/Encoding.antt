-- ===== src/Mode/Exits/Encoding.antt =====
-- What the numbers that mode.c computes from a wait status say.
use hail2_repos.Prelude.{
  ℕ, ◌≡◌, refl, ◌||◌, none, some, ◌++◌, ℤ, pos, negsuc, eq_ℤ, Text, codes, show_int, if◌then◌else◌,
  arith,
}
use hail2_repos.Kernel.WaitStatus.{if_exited, exit_status, if_signaled, term_signal}
use hail2_repos.Mode.Exits.{signal_result, mode_exec_result, mode_failure_message, md2_exit_failure}

-- how a child ended, in words
pub ending : ℕ → Text
ending status =
    if if_exited status
    then codes " EXITED WITH STATUS " ++ show_int (pos (exit_status status))
    else if if_signaled status
    then codes " TERMINATED BY SIGNAL " ++ show_int (pos (term_signal status))
    else codes " FAILED TO EXECUTE OR WAIT"

-- The message that mode_failure makes of a result of mode_exec names the exit status or the
-- signal that the wait status holds, and for any other wait status says that the program failed
-- to execute or wait.
pub message-ending :
    (component : Text) (status : ℕ)
    → mode_failure_message component (mode_exec_result (pos status)) ≡ component ++ ending status
unfolding mode_failure_message mode_exec_result ending
message-ending component status = ground (arith)

-- For every result of process_wait, what mode_stop_md2 reports is what mode_exec would return,
-- except that an exit with status 0 and a death by SIGTERM are no failure.
pub md2_exit_failure-result :
    (r : ℤ)
    → md2_exit_failure r ≡ (
        if eq_ℤ (mode_exec_result r) (pos 0) || eq_ℤ (mode_exec_result r) (signal_result 15)
        then none
        else some (mode_exec_result r))
unfolding md2_exit_failure mode_exec_result
md2_exit_failure-result (negsuc n) = refl
md2_exit_failure-result (pos status) = ground arith
