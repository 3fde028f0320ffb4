-- ===== src/Log.antt =====
-- [LOG]/log.c and [LOG]/log.h: the log file, and one line for each message.
pub mod Effects
pub mod Stamp
use hail2_repos.Prelude.{
  ℕ, zero, suc, ◌+◌, true, false, Option, some, [], ◌∷◌, ◌++◌, ℤ, pos, minus_one, Text, codes,
  padded, if◌then◌else◌,
}
use hail2_repos.Kernel.{System, Answer, done, failed, Tm, Out, M, pure, call, ◌>>=◌}

abbrev pub log_path : Text
log_path = codes "/var/log/logs.log"

abbrev pub log_level_log : ℕ
log_level_log = 0

abbrev pub log_level_warn : ℕ
log_level_warn = 1

abbrev pub log_level_critical : ℕ
log_level_critical = 2

abbrev pub log_level_fatal : ℕ
log_level_fatal = 3

unfoldable pub log_level_name : ℕ → Text
log_level_name zero = codes "LOG"
log_level_name (suc zero) = codes "WARN"
log_level_name (suc (suc zero)) = codes "CRITICAL"
log_level_name (suc (suc (suc zero))) = codes "FATAL"
log_level_name _ = codes "UNKNOWN"

-- "[%02d/%02d/%04d] [%02d:%02d] "
unfoldable pub time_stamp : Tm → Text
time_stamp tm =
    91 ∷ padded 2 (tm.tm_mon + 1)
    ++ (47 ∷ padded 2 tm.tm_mday
        ++ (47 ∷ padded 4 (tm.tm_year + 1900)
            ++ (93 ∷ 32 ∷ 91 ∷ padded 2 tm.tm_hour ++ (58 ∷ padded 2 tm.tm_min ++ 93 ∷ 32 ∷ []))))

-- the arguments of fprintf in `log_write`
unfoldable pub log_line : Tm → Text → Text → ℕ → Text
unfolding time_stamp log_level_name
log_line tm component message level =
    time_stamp tm ++ (component ++ (32 ∷ message ++ (32 ∷ log_level_name level ++ 10 ∷ [])))

pub log_opened : {W : Type 0} → Answer (Unit {0}) → M (Out W) ℤ
log_opened (done _) o = (pos 0, record o { log_file = true })
log_opened (failed _) o = (minus_one, o)

pub log_printed : {W : Type 0} → Text → Answer (Unit {0}) → M (Out W) ℤ
log_printed line (done _) o = (pos 0, record o { lines = line ∷ o.lines })
log_printed line (failed _) o = (minus_one, o)

module _ {W : Type 0} (os : System W) where
  pub log_init : M (Out W) ℤ
  log_init o = if o.log_file then (pos 0, o) else (do r ← call (os.fopen log_path); log_opened r) o

  pub log_at : Text → Text → ℕ → Answer Tm → M (Out W) ℤ
  log_at component message level (failed _) = pure minus_one
  log_at component message level (done tm) = do
    let line = log_line tm component message level
    r ← call (os.fprintf line)
    log_printed line r

  pub log_now : Text → Text → ℕ → Answer ℕ → M (Out W) ℤ
  log_now component message level (failed _) = pure minus_one
  log_now component message level (done now) = do
    r ← call (os.localtime now)
    log_at component message level r

  pub log_checked : Option Text → Option Text → ℕ → M (Out W) ℤ
  log_checked (some component) (some message) level = do
    r ← call os.time
    log_now component message level r
  log_checked _ _ level = pure minus_one

  pub log_write : Option Text → Option Text → ℕ → M (Out W) ℤ
  log_write component message level o =
      if o.log_file then log_checked component message level o else (minus_one, o)

  -- A call with literals, whose result the caller drops.
  abbrev pub say : Text → Text → ℕ → M (Out W) ℤ
  say component message level = log_write (some component) (some message) level

abbrev pub log_close : {W : Type 0} → M (Out W) (Unit {0})
log_close o = (tt, record o { log_file = false })
