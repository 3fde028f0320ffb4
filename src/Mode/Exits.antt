-- ===== src/Mode/Exits.antt =====
-- [ENG]/mode.c: its constants, and what it makes of the exit of a mode's program.
pub mod Encoding
use hail2_repos.Prelude.{
  ℕ, ◌+◌, ◌-◌, Option, none, some, ◌++◌, ℤ, pos, negsuc, minus_one, eq_ℤ, lt_ℤ, Text, codes,
  show_int, if◌then◌else◌, ◌==◌,
}
use hail2_repos.Kernel.SignalNumber.{sigterm}
use hail2_repos.Kernel.WaitStatus.{if_exited, exit_status, if_signaled, term_signal}

abbrev pub md1_path : Text
md1_path = codes "/usr/lib/hinit/md1"

abbrev pub md2_path : Text
md2_path = codes "/usr/lib/hinit/md2"

abbrev pub md0_path : Text
md0_path = codes "/usr/lib/hinit/md0"

abbrev pub mode_none : ℤ
mode_none = minus_one

abbrev pub mode_md0 : ℤ
mode_md0 = pos 0

abbrev pub mode_md1 : ℤ
mode_md1 = pos 1

abbrev pub mode_md2 : ℤ
mode_md2 = pos 2

-- -128 - WTERMSIG(status)
abbrev pub signal_result : ℕ → ℤ
signal_result sig = negsuc (127 + sig)

-- -128 - status, where `status` is below -128
abbrev result_signal : ℤ → ℤ
result_signal (negsuc n) = pos (n - 127)
result_signal (pos n) = negsuc (127 + n)

-- what `mode_exec` makes of the status that process_wait returned
unfoldable pub mode_exec_result : ℤ → ℤ
unfolding if_exited exit_status if_signaled term_signal
mode_exec_result (negsuc _) = minus_one
mode_exec_result (pos status) =
    if if_exited status
    then pos (exit_status status)
    else if if_signaled status
    then signal_result (term_signal status)
    else minus_one

-- the text that `mode_failure` logs
pub mode_failure_message : Text → ℤ → Text
mode_failure_message component status =
    if lt_ℤ status (negsuc 127)
    then component ++ (codes " TERMINATED BY SIGNAL " ++ show_int (result_signal status))
    else if eq_ℤ status minus_one
    then component ++ codes " FAILED TO EXECUTE OR WAIT"
    else component ++ (codes " EXITED WITH STATUS " ++ show_int status)

-- What `mode_stop_md2` makes of the status of MD2: `none` is a clean exit, else the failure.
unfoldable pub md2_exit_failure : ℤ → Option ℤ
unfolding if_exited exit_status if_signaled term_signal
md2_exit_failure (negsuc _) = some minus_one
md2_exit_failure (pos status) =
    if if_exited status
    then (if exit_status status == 0 then none else some (pos (exit_status status)))
    else if if_signaled status
    then (if eq_ℤ (pos (term_signal status)) sigterm
        then none
        else some (signal_result (term_signal status)))
    else some minus_one
