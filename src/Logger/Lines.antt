-- ===== src/Logger/Lines.antt =====
-- [LOG]/logger.c: the lines that are kept of the file.
pub mod Pieces
pub mod Shown
pub mod Trimming
pub mod Keeping
use hail2_repos.Prelude.{
  ℕ, zero, suc, ◌+◌, ◌-◌, ◌||◌, List, [], ◌∷◌, Text, c_string, snprintf, length, take, ltb, ◌==◌,
  if◌then◌else◌,
}

abbrev pub logger_max_lines : ℕ
logger_max_lines = 4096

abbrev pub logger_line_size : ℕ
logger_line_size = 512

-- the array `lines`, as a function of the index, and `line_count`
pub record Lines : Type 0 where
  pub slot : ℕ → Text
  pub line_count : ℕ

abbrev pub byte_at : ℕ → Text → ℕ
byte_at i [] = 0
byte_at zero (c ∷ cs) = c
byte_at (suc i) (c ∷ cs) = byte_at i cs

-- The loop of `logger_trim_newline`, for the value of `length`.
unfoldable pub trim_from : ℕ → Text → Text
trim_from zero line = []
trim_from (suc length) line =
    let rest = trim_from length line in
    if byte_at length line == 10 || byte_at length line == 13 then rest else take (suc length) line

-- Only called with a buffer: the NULL check has no case here.
unfoldable pub logger_trim_newline : Text → Text
logger_trim_newline line = trim_from (length (c_string line)) line

-- fgets into a buffer of `n + 1` bytes: what it reads, and what is left. It reads nothing only at the
-- end of the file, where it returns NULL.
unfoldable pub fgets : ℕ → Text → Text × Text
fgets zero content = ([], content)
fgets (suc n) [] = ([], [])
fgets (suc n) (c ∷ cs) =
    let (piece, rest) = fgets n cs in if c == 10 then (c ∷ [], cs) else (c ∷ piece, rest)

-- a store into `lines[index]`
unfoldable pub set_line : ℕ → Text → (ℕ → Text) → ℕ → Text
set_line index line slot i = if i == index then line else slot i

-- memmove of all lines but one to the front
unfoldable pub move_lines : (ℕ → Text) → ℕ → Text
move_lines slot i = if ltb i (logger_max_lines - 1) then slot (i + 1) else slot i

-- one round of the loop of `logger_load_file`, after logger_trim_newline
unfoldable pub keep_line : Text → Lines → Lines
keep_line buffer t =
    if ltb t.line_count logger_max_lines
    then record {
      slot = set_line t.line_count (snprintf logger_line_size buffer) t.slot;
      line_count = t.line_count + 1;
    }
    else record {
      slot = set_line (logger_max_lines - 1) (snprintf logger_line_size buffer) (move_lines t.slot);
      line_count = t.line_count;
    }

-- `while (fgets (...) != NULL)`, on fuel
unfoldable pub load_lines : ℕ → Text → Lines → Lines
load_lines zero content t = t
load_lines (suc fuel) [] t = t
load_lines (suc fuel) (c ∷ cs) t =
    let (buffer, rest) = fgets (logger_line_size - 1) (c ∷ cs) in
    load_lines fuel rest (keep_line (logger_trim_newline buffer) t)

-- `logger_load_file` for what the file holds; each round reads at least one byte
unfoldable pub load_content : Text → Lines → Lines
load_content content t = load_lines (suc (length content)) content (record t { line_count = 0 })
