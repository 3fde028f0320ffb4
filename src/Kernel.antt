-- ===== src/Kernel.antt =====
-- What the program asks of the operating system, as an interface: every system call is a parameter.
-- A call takes the state `W` of everything outside the process and returns its answer with the new
-- state. A failed answer carries `errno`.
pub mod Errno
pub mod SignalNumber
pub mod WaitStatus
pub mod Watchful
pub mod Refusals
use hail2_repos.Prelude.{ℕ, ◌≤◌, ◌<◌, ◌≡◌, Bool, Option, List, ◌∷◌, ℤ, pos, Text, true, false}
use hail2_repos.Kernel.Errno.{eintr}

pub data Answer (A : Type 0) : Type 0 where
  done : A → Answer A
  failed : ℕ → Answer A

-- `struct tm`; `tm_year` counts from 1900
pub record Tm : Type 0 where
  pub tm_mon : ℕ
  pub tm_mday : ℕ
  pub tm_year : ℕ
  pub tm_hour : ℕ
  pub tm_min : ℕ

-- What waitpid returns and stores: pid 0 under WNOHANG says that no child has changed state.
pub record Waited : Type 0 where
  pub pid : ℕ
  pub status : ℕ

-- `st_mode`, as S_ISDIR and S_ISLNK read it
pub data FileKind : Type 0 where
  directory symlink_file other_file : FileKind

-- `struct timespec`
pub record Timespec : Type 0 where
  pub tv_sec : ℕ
  pub tv_nsec : ℕ

-- The uses of sigprocmask: SIG_BLOCK with a set, and SIG_SETMASK with the mask saved before.
pub data MaskChange : Type 0 where
  block : List ℤ → MaskChange
  restore : MaskChange

pub record System (W : Type 0) : Type 0 where
  pub fork : W → Answer ℕ × W  -- the answer in the parent
  pub waitpid : ℤ → Bool → W → Answer Waited × W  -- the flag is WNOHANG
  pub kill : ℤ → ℤ → W → Answer (Unit {0}) × W
  pub stat : Text → W → Answer FileKind × W
  pub lstat : Text → W → Answer FileKind × W
  pub realpath : Text → W → Answer Text × W
  pub read_directory : Text → W → Answer (List Text) × W  -- opendir, readdir until NULL, closedir
  pub unlink : Text → W → Answer (Unit {0}) × W
  pub symlink : Text → Text → W → Answer (Unit {0}) × W  -- the target, then the link
  pub sigprocmask : MaskChange → W → Answer (Unit {0}) × W
  pub fopen : Text → W → Answer (Unit {0}) × W
  pub time : W → Answer ℕ × W
  pub localtime : ℕ → W → Answer Tm × W
  pub fprintf : Text → W → Answer (Unit {0}) × W
  pub strerror : ℕ → Text
  pub errno : W → ℕ  -- errno, as the calls so far left it
  pub access : Text → W → Answer (Unit {0}) × W  -- for X_OK
  pub nanosleep : Timespec → W → (Answer (Unit {0}) × Timespec) × W  -- with what remains
  pub sigaction : ℤ → W → Answer (Unit {0}) × W  -- the program's handler for the signal
  pub arrivals : W → List ℤ × W  -- the signals that came since they were last looked for
  pub getppid : W → ℤ × W
  pub mkdir : Text → ℕ → W → Answer (Unit {0}) × W
  pub mount : Text → Text → Text → Option Text → W → Answer (Unit {0}) × W  -- flags 0
  pub sync : W → W
  pub sleep : ℕ → W → W  -- in seconds, or until a signal comes
  pub reboot : W → Answer (Unit {0}) × W  -- RB_POWER_OFF; an answer means that it came back
  pub patience : W → ℕ  -- how many more calls of waitpid are interrupted or hand over a child

-- Documented behaviour that the wait loops need to end: each interruption of waitpid and each child
-- that it hands over is an event of the outside that is then past, and writing a log line makes none.
pub record Settles {W : Type 0} (os : System W) : Type 0 where
  pub interrupted :
      (pid : ℤ) (nohang : Bool) (w : W)
      → (os.waitpid pid nohang w).0 ≡ failed eintr
      → os.patience (os.waitpid pid nohang w).1 < os.patience w
  pub reaped :
      (pid : ℤ) (nohang : Bool) (w : W) (x : Waited)
      → (os.waitpid pid nohang w).0 ≡ done x
      → 0 < x.pid
      → os.patience (os.waitpid pid nohang w).1 < os.patience w
  pub quiet_fopen : (path : Text) (w : W) → os.patience (os.fopen path w).1 ≤ os.patience w
  pub quiet_time : (w : W) → os.patience (os.time w).1 ≤ os.patience w
  pub quiet_localtime : (t : ℕ) (w : W) → os.patience (os.localtime t w).1 ≤ os.patience w
  pub quiet_fprintf : (line : Text) (w : W) → os.patience (os.fprintf line w).1 ≤ os.patience w

-- fork returns a positive pid to the parent.
pub record Forks {W : Type 0} (os : System W) : Type 0 where
  pub positive : (w : W) (pid : ℕ) → (os.fork w).0 ≡ done pid → 0 < pid

-- What a process does to others, newest first.
pub data Event : Type 0 where
  spawned : List Text → ℕ → Event  -- argv, and the pid of the child
  signalled : ℤ → ℤ → Event  -- a pid and a signal: kill returned 0
  collected : ℤ → ℕ → Event  -- a child that waitpid returned, and its status
  unreachable : ℤ → ℕ → Event  -- a call said that the process cannot be waited for or signalled
  polled : ℤ → Event  -- a look of hsv_stop_service for the process
  unlinked : Text → Event
  linked : Text → Text → Event  -- the target and the link
  made_directory : Text → Event
  mounted : Text → Event  -- the target
  synced : Event
  powered_off : Event

-- The part of a process that its system calls see: the outside, the log file of log.c (`log_file` is
-- true when the FILE pointer is not NULL), the lines written to it, newest first, the events, and what
-- sysload.c and sysdown.c write to the console, newest first.
pub record Out (W : Type 0) : Type 0 where
  pub world : W
  pub log_file : Bool
  pub lines : List Text
  pub trace : List Event
  pub console : List Text

-- Code that changes a state.
abbrev pub M : Type 0 → Type 0 → Type 0
M S A = S → A × S

module _ {S A : Type 0} where
  abbrev pub pure : A → M S A
  pure a s = (a, s)

module _ {S A B : Type 0} where
  infixl 5 ◌>>=◌ ◌>>◌
  abbrev pub ◌>>=◌ : M S A → (A → M S B) → M S B
  ◌>>=◌ m f s = let (a, s') = m s in f a s'

  abbrev pub ◌>>◌ : M S A → M S B → M S B
  m >> k = m >>= λ _. k

module _ {W A : Type 0} where
  -- one system call
  abbrev pub call : (W → A × W) → M (Out W) A
  call f o = let (a, w) = f o.world in (a, record o { world = w })

abbrev pub emit : {W : Type 0} → Event → M (Out W) (Unit {0})
emit e o = (tt, record o { trace = e ∷ o.trace })

-- fprintf to the standard error, or printf
abbrev pub complain : {W : Type 0} → Text → M (Out W) (Unit {0})
complain message o = (tt, record o { console = message ∷ o.console })

-- S_ISDIR
abbrev pub is_directory : FileKind → Bool
is_directory directory = true
is_directory symlink_file = false
is_directory other_file = false
