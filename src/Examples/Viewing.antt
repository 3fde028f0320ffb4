-- ===== src/Examples/Viewing.antt =====
-- The theorems on the log viewer at one run each.
use hail2_repos.Prelude.{ℕ, ◌≡◌, refl, false, List, [], ◌∷◌, Text, arith}
use hail2_repos.Kernel.{done}
use hail2_repos.Logger.Lines.{Lines, fgets, keep_line, load_lines, load_content}
use hail2_repos.Logger.Lines.Keeping.{Reads, load_content-Reads}
use hail2_repos.Logger.Terminal.{Terminal, Viewer, visible_of, logger_draw}
use hail2_repos.Logger.Terminal.Drawing.{Visible, Shows, logger_draw-Shows}
use hail2_repos.Logger.Session.{logger_round}
use hail2_repos.Logger.Session.Following.{logger_round-up}

abbrev next_bytes : List Text → Text × List Text
next_bytes [] = ([], [])
next_bytes (x ∷ xs) = (x, xs)

-- "a\nb\n"
abbrev two_lines : Text
two_lines = 97 ∷ 10 ∷ 98 ∷ 10 ∷ []

-- A window of three rows, and keys from a list.
abbrev window : Terminal (List Text)
window = record {
  open_log = λ w. (done tt, w);
  close_log = λ w. w;
  contents = λ w. (two_lines, w);
  ftell = λ w. (done 4, w);
  tcgetattr = λ w. (done tt, w);
  tcsetattr = λ raw w. (done tt, w);
  window_rows = λ w. (done 3, w);
  read = λ n w. next_bytes w;
  pause = λ n w. w;
  strerror = λ e. [];
}

abbrev no_lines : Lines
no_lines = record { slot = λ i. []; line_count = 0 }

-- at the second of two lines, with the bytes of the key Up to come
abbrev viewing : Viewer (List Text)
viewing = record {
  world = (27 ∷ []) ∷ (91 ∷ 65 ∷ []) ∷ [];
  lines = record { slot = λ i. 97 ∷ []; line_count = 2 };
  top_line = 1;
  terminal_raw = false;
  printed = [];
}

counted : (load_content two_lines viewing.lines).line_count ≡ 2
unfolding load_content load_lines keep_line fgets
counted = refl

low_window : visible_of (done 3) ≡ 1
unfolding visible_of
low_window = refl

load_content-Reads_example :
    Reads two_lines (record no_lines { line_count = 0 }) (load_content two_lines no_lines)
load_content-Reads_example = load_content-Reads two_lines no_lines

logger_draw-Shows_example :
    (visible : ℕ) × Visible (done 3) visible × Shows visible viewing (logger_draw window viewing).1
logger_draw-Shows_example = logger_draw-Shows window viewing

logger_round-up_example :
    ((logger_round window viewing).0 ≡ false)
    × ((logger_round window viewing).1.top_line ≡ viewing.top_line)
logger_round-up_example =
    logger_round-up window (done 3) (λ w. refl) 2 (λ w. (4, refl)) viewing (λ w. counted) refl
      (omega (arith, low_window)) (omega (arith, low_window)) refl refl
