-- ===== src/Logger/Session.antt =====
-- [LOG]/logger.c: the main loop.
pub mod Following
use hail2_repos.Prelude.{
  ℕ, zero, suc, ◌+◌, ◌-◌, Bool, true, false, ◌&&◌, Option, none, some, leb, ltb, codes, ◌++◌, [],
  ◌∷◌, ◌==◌, if◌then◌else◌,
}
use hail2_repos.Kernel.{Answer, done, failed, M, pure, ◌>>=◌, ◌>>◌}
use hail2_repos.Log.{log_path}
use hail2_repos.Logger.Terminal.{
  Terminal, Viewer, ask, printf, logger_visible_lines, logger_draw, logger_load_file,
  logger_terminal_restore, logger_terminal_raw,
}
use hail2_repos.Logger.Keys.{logger_end, logger_read_key, logger_process_key}

abbrev pub logger_refresh_ms : ℕ
logger_refresh_ms = 250

module _ {W : Type 0} (os : Terminal W) where
  pub follow_within : ℕ → M (Viewer W) (Unit {0})
  follow_within visible v =
      if ltb visible v.lines.line_count && leb (v.lines.line_count - 1) (v.top_line + visible)
      then logger_end os v
      else (tt, v)

  -- `if (position >= 0)`
  pub follow : Answer ℕ → M (Viewer W) (Unit {0})
  follow (failed e) = pure tt
  follow (done position) = do visible ← logger_visible_lines os; follow_within visible

  -- the second half of a round: the file is read again
  pub logger_refresh : M (Viewer W) (Unit {0})
  logger_refresh = do
    position ← ask os.ftell
    logger_load_file os
    follow position
    logger_draw os
    λ v. (tt, record v { world = os.pause logger_refresh_ms v.world })

  -- what follows logger_process_key: true when the loop is left
  pub key_processed : ℕ → M (Viewer W) Bool
  key_processed result =
      if result == 1 then pure true else (do logger_draw os; logger_refresh; pure false)

  -- what follows logger_read_key
  pub key_pressed : ℕ → M (Viewer W) Bool
  key_pressed key =
      if key == 0
      then (do logger_refresh; pure false)
      else (do result ← logger_process_key os key; key_processed result)

  -- one round of the loop: true when it is left
  pub logger_round : M (Viewer W) Bool
  logger_round = do key ← logger_read_key os; key_pressed key

  pub round_done : M (Viewer W) Bool → Bool → M (Viewer W) Bool
  round_done again left = if left then pure true else again

  -- at most so many rounds of the loop: true when it was left
  pub logger_loop : ℕ → M (Viewer W) Bool
  logger_loop zero = pure false
  logger_loop (suc rounds) = do left ← logger_round; round_done (logger_loop rounds) left

  -- up to the loop
  pub logger_begin : M (Viewer W) (Unit {0})
  logger_begin = do logger_load_file os; logger_end os; logger_draw os

  -- after the loop: fclose, and what atexit has registered
  pub logger_leave : Bool → M (Viewer W) (Option ℕ)
  logger_leave true = do
    λ v. (tt, record v { world = os.close_log v.world })
    logger_terminal_restore os
    pure (some 0)
  logger_leave false = pure none

  pub terminal_answered : ℕ → Answer (Unit {0}) → M (Viewer W) (Option ℕ)
  terminal_answered rounds (failed e) = do
    printf (codes "logger: cannot configure terminal: " ++ (os.strerror e ++ 10 ∷ []))
    λ v. (tt, record v { world = os.close_log v.world })
    pure (some 1)
  terminal_answered rounds (done _) = do logger_begin; left ← logger_loop rounds; logger_leave left

  pub log_answered : ℕ → Answer (Unit {0}) → M (Viewer W) (Option ℕ)
  log_answered rounds (failed e) = do
    printf
        (codes "logger: cannot open " ++ (log_path ++ (codes ": " ++ (os.strerror e ++ 10 ∷ []))))
    pure (some 1)
  log_answered rounds (done _) = do r ← logger_terminal_raw os; terminal_answered rounds r

  -- `main`, for at most so many rounds of its loop: the exit status, and `none` when the loop goes on
  pub logger_main : ℕ → M (Viewer W) (Option ℕ)
  logger_main rounds = do r ← ask os.open_log; log_answered rounds r
