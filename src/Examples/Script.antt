-- ===== src/Examples/Script.antt =====
-- A system whose waitpid answers from a script and whose other calls succeed.
use hail2_repos.Prelude.{
  ◌≤◌, refl, inl, pos, ◌<◌, ◌≡◌, ◌≢◌, sym, List, [], ◌∷◌, codes, length, arith,
}
use hail2_repos.Kernel.{
  System, Settles, Forks, Answer, done, failed, Waited, directory, symlink_file,
}
use hail2_repos.Kernel.SignalNumber.{sigterm}
use hail2_repos.Kernel.Watchful.{Watchful}
use hail2_repos.Kernel.Errno.{eintr, echild}

-- what waitpid will answer, in order; then that there are no children
abbrev pub Script : Type 0
Script = List (Answer Waited)

abbrev pub next : Script → Answer Waited × Script
next [] = (failed echild, [])
next (x ∷ xs) = (x, xs)

-- the system of a script
abbrev pub scripted : System Script
scripted = record {
  fork = λ w. (done 7, w);
  waitpid = λ pid nohang w. next w;
  kill = λ pid sig w. (done tt, w);
  stat = λ path w. (done directory, w);
  lstat = λ path w. (done symlink_file, w);
  realpath = λ path w. (done path, w);
  read_directory = λ path w. (done ((46 ∷ []) ∷ codes "web" ∷ []), w);
  unlink = λ path w. (done tt, w);
  symlink = λ target link w. (done tt, w);
  sigprocmask = λ change w. (done tt, w);
  fopen = λ path w. (done tt, w);
  time = λ w. (done 0, w);
  localtime =
      λ t w. (done (record { tm_mon = 0; tm_mday = 1; tm_year = 70; tm_hour = 0; tm_min = 0 }), w);
  fprintf = λ line w. (done tt, w);
  strerror = λ e. [];
  errno = λ w. 0;
  access = λ path w. (done tt, w);
  nanosleep = λ request w. ((done tt, request), w);
  sigaction = λ sig w. (done tt, w);
  arrivals = λ w. (sigterm ∷ [], w);
  getppid = λ w. (pos 1, w);
  mkdir = λ path mode w. (done tt, w);
  mount = λ source target type options w. (done tt, w);
  sync = λ w. w;
  sleep = λ seconds w. w;
  reboot = λ w. (done tt, w);
  patience = λ w. length w;
}

shorter :
    (w : Script) (r : Answer Waited)
    → (next w).0 ≡ r
    → r ≢ failed echild
    → length (next w).1 < length w
shorter [] r e n = absurd (n (sym e))
shorter (x ∷ xs) r e n = omega arith

pub scripted-Settles : Settles scripted
scripted-Settles = record {
  interrupted = λ pid nohang w e. shorter w (failed eintr) e λ p. cc p;
  reaped = λ pid nohang w x e h. shorter w (done x) e λ p. cc;
  quiet_fopen = λ path w. omega arith;
  quiet_time = λ w. omega arith;
  quiet_localtime = λ t w. omega arith;
  quiet_fprintf = λ line w. omega arith;
}

pub scripted-Forks : Forks scripted
scripted-Forks = record { positive = λ w pid e. ground arith }

next-le : (w : Script) → length (next w).1 ≤ length w
next-le [] = omega arith
next-le (x ∷ xs) = omega arith

pub scripted-Watchful : Watchful scripted
scripted-Watchful = record {
  settles = scripted-Settles;
  arrives = λ w. inl refl;
  interrupted_sleep = λ t w e. absurd (cc e);
  quiet_arrivals = λ w. omega arith;
  quiet_nanosleep = λ t w. omega arith;
  quiet_fork = λ w. omega arith;
  quiet_waitpid = λ pid nohang w. next-le w;
  quiet_kill = λ pid sig w. omega arith;
  quiet_access = λ path w. omega arith;
  quiet_sigaction = λ sig w. omega arith;
  quiet_stat = λ path w. omega arith;
  quiet_getppid = λ w. omega arith;
  quiet_sleep = λ seconds w. omega arith;
}
