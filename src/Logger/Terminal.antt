-- ===== src/Logger/Terminal.antt =====
-- [LOG]/logger.c: what it asks of the system, its static variables, and its screen.
pub mod Drawing
use hail2_repos.Prelude.{
  ℕ, zero, suc, ◌+◌, ◌-◌, Bool, true, false, List, [], ◌∷◌, ◌++◌, ℤ, pos, minus_one, Text, codes,
  decimal, leb, ltb, ◌==◌, if◌then◌else◌,
}
use hail2_repos.Kernel.{Answer, done, failed, M, pure, ◌>>=◌, ◌>>◌}
use hail2_repos.Logger.Lines.{Lines, load_content}

-- The calls, with the outside as in System.
pub record Terminal (W : Type 0) : Type 0 where
  pub open_log : W → Answer (Unit {0}) × W  -- fopen of LOG_FILE
  pub close_log : W → W
  pub contents : W → Text × W  -- rewind, and what fgets reads until it returns NULL
  pub ftell : W → Answer ℕ × W
  pub tcgetattr : W → Answer (Unit {0}) × W
  pub tcsetattr : Bool → W → Answer (Unit {0}) × W  -- true for the raw mode, false for the old one
  pub window_rows : W → Answer ℕ × W  -- TIOCGWINSZ
  pub read : ℕ → W → Text × W  -- at most so many bytes, and none when there are none or read fails
  pub pause : ℕ → W → W  -- nanosleep, in milliseconds
  pub strerror : ℕ → Text

-- The static variables, and what was printed, newest first.
pub record Viewer (W : Type 0) : Type 0 where
  pub world : W
  pub lines : Lines
  pub top_line : ℕ
  pub terminal_raw : Bool
  pub printed : List Text

-- the visible lines, for what TIOCGWINSZ gives
unfoldable pub visible_of : Answer ℕ → ℕ
visible_of (failed e) = 20
visible_of (done rows) = if leb rows 2 then 1 else rows - 2

module _ {W : Type 0} where
  abbrev pub printf : Text → M (Viewer W) (Unit {0})
  printf text v = (tt, record v { printed = text ∷ v.printed })

  abbrev pub set_top : ℕ → M (Viewer W) (Unit {0})
  set_top top v = (tt, record v { top_line = top })

  abbrev pub set_raw : Bool → M (Viewer W) (Unit {0})
  set_raw raw v = (tt, record v { terminal_raw = raw })

module _ {W A : Type 0} where
  abbrev pub ask : (W → A × W) → M (Viewer W) A
  ask f v = let (a, w) = f v.world in (a, record v { world = w })

-- "\033[2J\033[H"
abbrev pub clear_screen : Text
clear_screen = 27 ∷ codes "[2J" ++ (27 ∷ codes "[H")

abbrev pub title : ℕ → Text
title count = codes " Hail2 Logger  |  " ++ (decimal count ++ (codes " logs" ++ 10 ∷ []))

-- Here and in `help`, a character of several bytes is written by its code.
abbrev pub ruler : Text
ruler = codes " ────────────────────────────────────────────────" ++ 10 ∷ []

abbrev pub help : Text
help =
    27 ∷ codes "[7m"
    ++ (codes " ↑↓ Navigate   PgUp/PgDn Scroll   Home/End   q Quit " ++ (27 ∷ codes "[0m"))

module _ {W : Type 0} where
  abbrev pub logger_clear_screen : M (Viewer W) (Unit {0})
  logger_clear_screen = printf clear_screen

  -- the first test of `logger_draw`
  pub clamp_top : M (Viewer W) (Unit {0})
  clamp_top v =
      if v.lines.line_count == 0
      then set_top 0 v
      else if leb v.lines.line_count v.top_line
      then set_top (v.lines.line_count - 1) v
      else (tt, v)

  -- the loop over the lines from `i`, with `rounds` left
  pub draw_lines : ℕ → ℕ → M (Viewer W) (Unit {0})
  draw_lines zero i v = (tt, v)
  draw_lines (suc rounds) i v = (do printf (v.lines.slot i ++ 10 ∷ []); draw_lines rounds (suc i)) v

  -- the loop that fills the screen
  pub draw_blank : ℕ → M (Viewer W) (Unit {0})
  draw_blank zero v = (tt, v)
  draw_blank (suc rounds) v = (do printf (10 ∷ []); draw_blank rounds) v

module _ {W : Type 0} (os : Terminal W) where
  unfoldable pub logger_visible_lines : M (Viewer W) ℕ
  logger_visible_lines = do rows ← ask os.window_rows; pure (visible_of rows)

  -- `logger_draw` from clear_screen on
  pub draw_screen : ℕ → M (Viewer W) (Unit {0})
  draw_screen visible v =
      (do
        logger_clear_screen
        printf (title v.lines.line_count)
        printf ruler
        let top = v.top_line
        let count = v.lines.line_count
        let end = if ltb count (top + visible) then count else top + visible
        draw_lines (end - top) top
        draw_blank (top + visible - (top + (end - top)))
        printf help)
        v

  pub logger_draw : M (Viewer W) (Unit {0})
  logger_draw = do visible ← logger_visible_lines; clamp_top; draw_screen visible

  -- Only called with a file: the result is 0.
  pub logger_load_file : M (Viewer W) (Unit {0})
  logger_load_file v =
      let (content, w) = os.contents v.world in
      (tt, record v { world = w; lines = load_content content v.lines })

  pub logger_terminal_restore : M (Viewer W) (Unit {0})
  logger_terminal_restore v =
      if v.terminal_raw
      then (do ask (os.tcsetattr false); set_raw false; printf (27 ∷ codes "[?25h")) v
      else (tt, v)

  pub raw_set : Answer (Unit {0}) → M (Viewer W) (Answer (Unit {0}))
  raw_set (failed e) = pure (failed e)
  raw_set (done _) = do set_raw true; printf (27 ∷ codes "[?25l"); pure (done tt)

  pub raw_got : Answer (Unit {0}) → M (Viewer W) (Answer (Unit {0}))
  raw_got (failed e) = pure (failed e)
  raw_got (done _) = do r ← ask (os.tcsetattr true); raw_set r

  -- `done` for the result 0, and `failed` with errno for -1
  pub logger_terminal_raw : M (Viewer W) (Answer (Unit {0}))
  logger_terminal_raw = do r ← ask os.tcgetattr; raw_got r
