-- ===== src/Machine/Exec.antt =====
-- [SYSLOAD]/sysload.c and sysdown.c: an external program, run to its end. The two files have the same
-- function but for the tag of its messages.
pub mod Running
use hail2_repos.Prelude.{
  ℕ, zero, suc, false, not, Option, none, some, List, [], ◌∷◌, ◌++◌, ℤ, pos, minus_one, is_negative,
  Text, codes, show_int, ◌==◌, if◌then◌else◌,
}
use hail2_repos.Kernel.{
  System, Answer, done, failed, Waited, Out, M, pure, call, emit, complain, spawned, collected,
  ◌>>=◌, ◌>>◌,
}
use hail2_repos.Kernel.Errno.{eintr}
use hail2_repos.Kernel.WaitStatus.{if_exited, exit_status, if_signaled, term_signal}

-- "[<tag>] <action> <program> failed: <why>\n"
abbrev pub exec_message : Text → Text → Text → Text → Text
exec_message tag action program why =
    91 ∷ tag
    ++ (codes "] " ++ (action ++ (32 ∷ program ++ (codes " failed: " ++ (why ++ 10 ∷ [])))))

-- "[<tag>] <text>\n"
abbrev pub tagged : Text → Text → Text
tagged tag text = 91 ∷ tag ++ (codes "] " ++ (text ++ 10 ∷ []))

module _ {W : Type 0} (os : System W) where
  -- what the status of the program makes of the result
  pub exec_status : Text → Text → ℕ → M (Out W) ℤ
  exec_status tag program status =
      if if_signaled status
      then (do
        complain (
            tagged tag
              (program ++ (codes " terminated by signal " ++ show_int (pos (term_signal status)))))
        pure minus_one)
      else if not (if_exited status)
      then (do complain (tagged tag (program ++ codes " terminated abnormally")); pure minus_one)
      else pure (pos (exit_status status))

  -- one round of the loop; `again` is the next one
  pub exec_waited : M (Out W) ℤ → Text → Text → ℤ → Answer Waited → M (Out W) ℤ
  exec_waited again tag program pid (done x) = do
    emit (collected pid x.status)
    exec_status tag program x.status
  exec_waited again tag program pid (failed e) = if e == eintr then again else (do
    complain (exec_message tag (codes "waitpid") program (os.strerror e))
    pure minus_one)

  -- the `for (;;)`, on fuel
  pub exec_loop : ℕ → Text → Text → ℤ → M (Out W) ℤ
  exec_loop zero tag program pid o = (minus_one, o)
  exec_loop (suc fuel) tag program pid o =
      (do
        r ← call (os.waitpid pid false)
        exec_waited (exec_loop fuel tag program pid) tag program pid r)
        o

  pub exec_begin : Text → Text → ℤ → M (Out W) ℤ
  exec_begin tag program pid o = exec_loop (suc (os.patience o.world)) tag program pid o

  pub exec_forked : Text → Text → List Text → Answer ℕ → M (Out W) ℤ
  exec_forked tag program argv (failed e) = do
    complain (exec_message tag (codes "fork") program (os.strerror e))
    pure minus_one
  exec_forked tag program argv (done pid) = do
    emit (spawned argv pid)
    exec_begin tag program (pos pid)

  -- Only called with a program and its arguments: the NULL checks have no case here.
  pub exec_program : Text → Text → List Text → M (Out W) ℤ
  exec_program tag program argv = do r ← call os.fork; exec_forked tag program argv r
