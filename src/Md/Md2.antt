-- ===== src/Md/Md2.antt =====
-- [MD]/md2.c: the program of the operating mode, which watches PID 1 and its directory.
pub mod Checking
pub mod Leaving
use hail2_repos.Prelude.{
  ℕ, zero, suc, Bool, false, not, ◌||◌, Option, none, some, List, [], ◌∷◌, ◌++◌, ℤ, pos, minus_one,
  is_negative, eq_ℤ, Text, codes, ◌==◌, if◌then◌else◌,
}
use hail2_repos.Kernel.{
  System, Answer, done, failed, FileKind, Out, M, pure, call, complain, is_directory, ◌>>=◌, ◌>>◌,
}
use hail2_repos.Kernel.Errno.{eperm, enoent, esrch}
use hail2_repos.Kernel.SignalNumber.{sigterm, sigint}
use hail2_repos.Log.{log_init, say, log_level_log, log_level_warn, log_level_fatal}
use hail2_repos.Machine.Exec.{tagged}

abbrev pub runtime_dir : Text
runtime_dir = codes "/run/hinit"

-- The static variables: those of log.c and the calls made, and the flag.
pub record Operator (W : Type 0) : Type 0 where
  pub out : Out W
  pub running : Bool

module _ {W : Type 0} where
  unfoldable pub md2_signal : ℤ → Operator W → Operator W
  md2_signal sig s = if eq_ℤ sig sigterm || eq_ℤ sig sigint then record s { running = false } else s

  -- the handler, for each signal that came
  unfoldable pub md2_signals : List ℤ → Operator W → Operator W
  md2_signals [] s = s
  md2_signals (sig ∷ sigs) s = md2_signals sigs (md2_signal sig s)

module _ {W A : Type 0} where
  -- code of log.c, or a call of the system
  abbrev pub md2_outer : M (Out W) A → M (Operator W) A
  md2_outer m s = let (a, o) = m s.out in (a, record s { out = o })

module _ {W : Type 0} (os : System W) where
  -- The signals that came are handled: this may be before any look at the flag.
  unfoldable pub md2_deliver : M (Operator W) (Unit {0})
  md2_deliver s =
      let (sigs, w) = os.arrivals s.out.world in
      (tt, md2_signals sigs (record s { out = record s.out { world = w } }))

  -- log_write, and fprintf to the standard error
  abbrev pub md2_report : Text → ℕ → Text → M (Operator W) (Unit {0})
  md2_report logged level printed = do
    md2_outer (say os (codes "MD2") logged level)
    md2_outer (complain (tagged (codes "MD2") printed))

  -- perror, with errno as the calls before it left it
  abbrev pub md2_print_error : Text → M (Operator W) (Unit {0})
  md2_print_error printed s =
      md2_outer
        (complain
          (tagged (codes "MD2") (printed ++ (codes ": " ++ os.strerror (os.errno s.out.world)))))
        s

  -- log_write, and perror
  abbrev pub md2_perror : Text → Text → M (Operator W) (Unit {0})
  md2_perror logged printed = do
    md2_outer (say os (codes "MD2") logged log_level_fatal)
    md2_print_error printed

  pub hinit_answered : Answer (Unit {0}) → M (Operator W) ℤ
  hinit_answered (done _) = pure (pos 0)
  hinit_answered (failed e) =
      if e == esrch
      then (do
        md2_report (codes "HINIT PID1 DISAPPEARED") log_level_fatal
            (codes "Critical: HInit/PID1 disappeared")
        pure (pos 0))
      else if e == eperm
      then (do
        md2_report (codes "CANNOT INSPECT HINIT PID1") log_level_warn
            (codes "Warning: cannot inspect HInit/PID1")
        pure (pos 0))
      else (do
        md2_perror (codes "HINIT PID1 CHECK FAILED") (codes "Critical: HInit/PID1 check")
        pure minus_one)

  pub parent_answered : ℤ → M (Operator W) ℤ
  parent_answered parent =
      if not (eq_ℤ parent (pos 1))
      then (do
        md2_report (codes "HINIT IS NO LONGER PID1") log_level_fatal
            (codes "Critical: HInit is no longer PID1")
        pure minus_one)
      else (do r ← md2_outer (call (os.kill (pos 1) (pos 0))); hinit_answered r)

  pub md2_check_hinit : M (Operator W) ℤ
  md2_check_hinit = do parent ← md2_outer (call os.getppid); parent_answered parent

  pub runtime_answered : Answer FileKind → M (Operator W) ℤ
  runtime_answered (failed e) =
      if e == enoent
      then (do
        md2_report (codes "/RUN/HINIT DISAPPEARED") log_level_fatal
            (codes "Critical: /run/hinit disappeared")
        pure minus_one)
      else (do
        md2_perror (codes "/RUN/HINIT CHECK FAILED") (codes "Critical: /run/hinit check")
        pure minus_one)
  runtime_answered (done kind) =
      if not (is_directory kind)
      then (do
        md2_report (codes "/RUN/HINIT IS NOT A DIRECTORY") log_level_fatal
            (codes "Critical: /run/hinit is not a directory")
        pure minus_one)
      else pure (pos 0)

  pub md2_check_runtime : M (Operator W) ℤ
  md2_check_runtime = do r ← md2_outer (call (os.stat runtime_dir)); runtime_answered r

  pub hinit_checked : ℤ → M (Operator W) ℤ
  hinit_checked hinit =
      if is_negative hinit
      then pure minus_one
      else (do runtime ← md2_check_runtime; pure (if is_negative runtime then minus_one else pos 0))

  pub md2_check : M (Operator W) ℤ
  md2_check = do hinit ← md2_check_hinit; hinit_checked hinit

  -- sleep (1)
  abbrev pub md2_sleep : M (Operator W) (Unit {0})
  md2_sleep s = (tt, record s { out = record s.out { world = os.sleep 1 s.out.world } })

  pub md2_checked : M (Operator W) (Option ℕ) → ℤ → M (Operator W) (Option ℕ)
  md2_checked again result =
      if is_negative result
      then (do
        md2_report (codes "CRITICAL OPERATIONAL FAILURE") log_level_fatal
            (codes "Critical operational failure")
        pure (some 1))
      else (do md2_sleep; again)

  -- what follows the loop
  pub md2_leave : M (Operator W) (Option ℕ)
  md2_leave = do
    md2_outer (say os (codes "MD2") (codes "LEAVING OPERATING MODE") log_level_log)
    pure (some 0)

  -- one round of `while (running)`; `again` is the next one. Signals come during the checks too, which do
  -- not look at the flag.
  pub md2_round : M (Operator W) (Option ℕ) → M (Operator W) (Option ℕ)
  md2_round again s =
      if s.running
      then (do result ← md2_check; md2_deliver; md2_checked again result) s
      else md2_leave s

  -- the loop and what follows it, on fuel: `none` when the fuel ran out
  pub md2_loop : ℕ → M (Operator W) (Option ℕ)
  md2_loop zero s = (none, s)
  md2_loop (suc fuel) s = (do md2_deliver; md2_round (md2_loop fuel)) s

  pub md2_begin : M (Operator W) (Option ℕ)
  md2_begin s = md2_loop (suc (os.patience s.out.world)) s

  pub sigint_handled : Answer (Unit {0}) → M (Operator W) (Option ℕ)
  sigint_handled (done _) = md2_begin
  sigint_handled (failed e) = do
    md2_perror (codes "SIGACTION SIGINT FAILED") (codes "sigaction SIGINT")
    pure (some 1)

  pub sigterm_handled : Answer (Unit {0}) → M (Operator W) (Option ℕ)
  sigterm_handled (done _) = do r ← md2_outer (call (os.sigaction sigint)); sigint_handled r
  sigterm_handled (failed e) = do
    md2_perror (codes "SIGACTION SIGTERM FAILED") (codes "sigaction SIGTERM")
    pure (some 1)

  pub md2_opened : ℤ → M (Operator W) (Option ℕ)
  md2_opened opened =
      if is_negative opened
      then (do
        md2_outer (complain (tagged (codes "MD2") (codes "Failed to initialize logger")))
        pure (some 1))
      else (do
        md2_outer (say os (codes "MD2") (codes "SYSTEM OPERATING") log_level_log)
        r ← md2_outer (call (os.sigaction sigterm))
        sigterm_handled r)

  -- `main`: the exit status, and `none` when the fuel ran out
  pub md2_main : M (Operator W) (Option ℕ)
  md2_main = do opened ← md2_outer (log_init os); md2_opened opened
