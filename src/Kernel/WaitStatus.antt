-- ===== src/Kernel/WaitStatus.antt =====
-- The macros of <sys/wait.h> over the status that waitpid stores, as the C library defines them.
use hail2_repos.Prelude.{ℕ, ◌/◌, ◌%◌, Bool, ◌&&◌, ltb, ◌==◌}

-- WTERMSIG, the low seven bits
unfoldable pub term_signal : ℕ → ℕ
term_signal status = status % 128

-- WIFEXITED
unfoldable pub if_exited : ℕ → Bool
unfolding term_signal
if_exited status = term_signal status == 0

-- WEXITSTATUS, the second byte
unfoldable pub exit_status : ℕ → ℕ
exit_status status = status / 256 % 256

-- WIFSIGNALED: the low seven bits are neither 0 nor 127 (a stopped process)
unfoldable pub if_signaled : ℕ → Bool
unfolding term_signal
if_signaled status = ltb 0 (term_signal status) && ltb (term_signal status) 127
