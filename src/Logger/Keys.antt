-- ===== src/Logger/Keys.antt =====
-- [LOG]/logger.c: the keys, and the moves in the lines.
pub mod Moves
use hail2_repos.Prelude.{
  ℕ, suc, ◌+◌, ◌-◌, Bool, ◌&&◌, ◌||◌, [], ◌∷◌, Text, length, leb, ltb, ◌==◌, if◌then◌else◌,
}
use hail2_repos.Kernel.{M, pure, ◌>>=◌, ◌>>◌}
use hail2_repos.Logger.Lines.{byte_at}
use hail2_repos.Logger.Terminal.{Terminal, Viewer, set_top, ask, logger_visible_lines}

module _ {W : Type 0} where
  pub logger_scroll_up : ℕ → M (Viewer W) (Unit {0})
  logger_scroll_up amount v =
      if leb amount v.top_line then set_top (v.top_line - amount) v else set_top 0 v

  pub logger_home : M (Viewer W) (Unit {0})
  logger_home = set_top 0

  -- logger_scroll_down after its first call
  pub scroll_within : ℕ → ℕ → M (Viewer W) (Unit {0})
  scroll_within amount visible v =
      if leb v.lines.line_count visible
      then set_top 0 v
      else if leb (v.lines.line_count - visible) (v.top_line + amount)
      then set_top (v.lines.line_count - visible) v
      else set_top (v.top_line + amount) v

  -- logger_end after its first call
  pub end_within : ℕ → M (Viewer W) (Unit {0})
  end_within visible v =
      if ltb visible v.lines.line_count
      then set_top (v.lines.line_count - visible) v
      else set_top 0 v

-- visible > 1 ? visible - 1 : 1
pub page : ℕ → ℕ
page visible = if ltb 1 visible then visible - 1 else 1

-- The key of an escape sequence, for the bytes that read gave.
pub escape_key : Text → ℕ
escape_key sequence =
    if leb 2 (length sequence) && byte_at 0 sequence == 91
    then (if byte_at 1 sequence == 65
        then 1001
        else if byte_at 1 sequence == 66
        then 1002
        else if byte_at 1 sequence == 72
        then 1005
        else if byte_at 1 sequence == 70
        then 1006
        else if byte_at 1 sequence == 53 && (leb 3 (length sequence) && byte_at 2 sequence == 126)
        then 1003
        else if byte_at 1 sequence == 54 && (leb 3 (length sequence) && byte_at 2 sequence == 126)
        then 1004
        else 0)
    else 0

module _ {W : Type 0} (os : Terminal W) where
  pub logger_scroll_down : ℕ → M (Viewer W) (Unit {0})
  logger_scroll_down amount = do visible ← logger_visible_lines os; scroll_within amount visible

  pub logger_end : M (Viewer W) (Unit {0})
  logger_end = do visible ← logger_visible_lines os; end_within visible

  -- `logger_read_key` after its first read
  pub key_read : Text → M (Viewer W) ℕ
  key_read [] = pure 0
  key_read (key ∷ _) =
      if key == 113 || key == 81
      then pure 113
      else if key == 27
      then (do sequence ← ask (os.read 3); pure (escape_key sequence))
      else if key == 103
      then (do logger_home; pure 1)
      else if key == 71
      then (do logger_end; pure 1)
      else pure 0

  pub logger_read_key : M (Viewer W) ℕ
  logger_read_key = do bytes ← ask (os.read 1); key_read bytes

  -- the switch of `logger_process_key`
  pub key_action : ℕ → ℕ → M (Viewer W) ℕ
  key_action key visible =
      if key == 113
      then pure 1
      else if key == 1001
      then (do logger_scroll_up 1; pure 2)
      else if key == 1002
      then (do logger_scroll_down 1; pure 2)
      else if key == 1003
      then (do logger_scroll_up (page visible); pure 2)
      else if key == 1004
      then (do logger_scroll_down (page visible); pure 2)
      else if key == 1005
      then (do logger_home; pure 2)
      else if key == 1006
      then (do logger_end; pure 2)
      else pure 0

  pub logger_process_key : ℕ → M (Viewer W) ℕ
  logger_process_key key = do visible ← logger_visible_lines os; key_action key visible
