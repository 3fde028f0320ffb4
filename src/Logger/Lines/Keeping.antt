-- ===== src/Logger/Lines/Keeping.antt =====
-- The lines that logger_load_file keeps of a file.
use hail2_repos.Prelude.{
  ℕ, zero, suc, ◌+◌, ◌-◌, ◌≤◌, ◌<◌, ◌≡◌, refl, sym, ap, ◌∙◌, List, [], ◌∷◌, ◌++◌, Text, length,
  length-append, c_string, take, snprintf, ltb, if_cases, arith, map,
}
use mathlib.Core.List.{append_assoc, append-nil}
use hail2_repos.Logger.Lines.{
  Lines, logger_max_lines, logger_line_size, set_line, move_lines, keep_line, load_lines,
  load_content, logger_trim_newline, fgets,
}
use hail2_repos.Logger.Lines.Pieces.{IsPiece, fgets-IsPiece, fgets-progress}
use hail2_repos.Logger.Lines.Trimming.{trimmed, logger_trim_newline-trimmed}
use hail2_repos.Logger.Lines.Shown.{
  shown, newest, length-shown, shown-ext, shown-set_line, shown-front, newest-append, newest-newest,
  newest-all, newest-full,
}

-- the lines as a list
abbrev pub entries : Lines → List Text
entries t = shown t.line_count t.slot

-- what is kept of a piece: the string in it, without the line ends at its end
abbrev pub kept : Text → Text
kept piece = take (logger_line_size - 1) (trimmed (c_string piece))

kept_lem : (piece : Text) → snprintf logger_line_size (logger_trim_newline piece) ≡ kept piece
kept_lem piece = ap (take (logger_line_size - 1)) (logger_trim_newline-trimmed piece)

move_lines-shown :
    (slot : ℕ → Text)
    → shown (logger_max_lines - 1) (move_lines slot)
      ≡ shown (logger_max_lines - 1) (λ i. slot (i + 1))
unfolding move_lines
move_lines-shown slot =
    shown-ext (logger_max_lines - 1) (move_lines slot) (λ i. slot (i + 1)) λ i h. ground (arith, h)

keep_line-entries :
    (buffer : Text) (t : Lines)
    → t.line_count ≤ logger_max_lines
    → ((keep_line buffer t).line_count ≤ logger_max_lines)
      × (entries (keep_line buffer t)
          ≡ newest logger_max_lines (entries t ++ snprintf logger_line_size buffer ∷ []))
unfolding keep_line
keep_line-entries buffer t h =
    let line = snprintf logger_line_size buffer in
    if_cases
      (λ (u : Lines).
        (u.line_count ≤ logger_max_lines)
        × (entries u ≡ newest logger_max_lines (entries t ++ line ∷ [])))
      (ltb t.line_count logger_max_lines)
      (λ less.
        let e : t.line_count + 1 ≡ suc t.line_count = omega arith in
        let short : t.line_count ≤ logger_max_lines - 1 = ground (arith, less) in
        (
          omega (arith, short),
          ap (λ (n : ℕ). shown n (set_line t.line_count line t.slot)) e
              ∙ shown-set_line t.line_count line t.slot
              ∙ sym (
                  newest-append (logger_max_lines - 1) (entries t) line
                    (omega (arith, short, length-shown t.line_count t.slot))),
        ))
      (λ more.
        let full : t.line_count ≡ logger_max_lines = ground (arith, more, h) in
        let last = logger_max_lines - 1 in
        let later = shown last (λ i. t.slot (i + 1)) in
        (
          h,
          ap (λ (n : ℕ). shown n (set_line last line (move_lines t.slot))) full
              ∙ shown-set_line last line (move_lines t.slot)
              ∙ ap (λ (l : List Text). l ++ line ∷ []) (move_lines-shown t.slot)
              ∙ sym (
                  ap (λ (l : List Text). newest logger_max_lines (l ++ line ∷ []))
                    (ap (λ (n : ℕ). shown n t.slot) full ∙ shown-front last t.slot)
                  ∙ newest-full last line (t.slot 0) later
                      (length-shown last (λ i. t.slot (i + 1)))),
        ))

abbrev pub concat : List Text → Text
concat [] = []
concat (x ∷ xs) = x ++ concat xs

-- The pieces of a file, none of which is empty.
abbrev pub ArePieces : List Text → Type 0
ArePieces [] = Unit {0}
ArePieces (piece ∷ pieces) =
    (0 < length piece) × IsPiece (logger_line_size - 1) piece (concat pieces) × ArePieces pieces

-- How a file was read: cut in pieces, of which the newest are kept.
abbrev pub Reads : Text → Lines → Lines → Type 0
Reads content t u =
    (pieces : List Text) × (concat pieces ≡ content)
    × ArePieces pieces
    × (u.line_count ≤ logger_max_lines)
    × (entries u ≡ newest logger_max_lines (entries t ++ map kept pieces))

load_lines-Reads :
    (fuel : ℕ) (content : Text) (t : Lines)
    → length content < fuel
    → t.line_count ≤ logger_max_lines
    → Reads content t (load_lines fuel content t)
unfolding load_lines
load_lines-Reads zero content t h k = absurd (omega (arith, h))
load_lines-Reads (suc fuel) [] t h k = (
  [],
  refl,
  tt,
  k,
  sym (newest-all logger_max_lines (entries t) (omega (arith, k, length-shown t.line_count t.slot)))
      ∙ ap (λ (l : List Text). newest logger_max_lines l) (sym (append-nil (entries t))),
)
load_lines-Reads (suc fuel) (c ∷ cs) t h k =
    let (piece, rest) = fgets (logger_line_size - 1) (c ∷ cs) in
    let (whole, is_piece) = fgets-IsPiece (logger_line_size - 1) (c ∷ cs) in
    let less = fgets-progress (logger_line_size - 2) c cs in
    let (few, step) = keep_line-entries (logger_trim_newline piece) t k in
    let (pieces, all, are, count, view) =
      load_lines-Reads fuel rest (keep_line (logger_trim_newline piece) t) (omega (arith, h, less))
        few in
    (
      piece ∷ pieces,
      ap (λ (r : Text). piece ++ r) all ∙ whole,
      (
        omega (arith, less, ap (λ (s : Text). length s) whole, length-append piece rest),
        rw all is_piece,
        are,
      ),
      count,
      view
          ∙ ap (λ (l : List Text). newest logger_max_lines (l ++ map kept pieces))
              (step
                ∙ ap (λ (l : Text). newest logger_max_lines (entries t ++ l ∷ [])) (kept_lem piece))
          ∙ newest-newest logger_max_lines (entries t ++ kept piece ∷ []) (map kept pieces)
          ∙ ap (λ (l : List Text). newest logger_max_lines l)
              (append_assoc (entries t) (kept piece ∷ []) (map kept pieces)),
    )

-- What logger_load_file keeps of a file, from any lines before: the file is cut into pieces that
-- together are the file, each a line with its newline, or 511 bytes without one, or the end of
-- the file; and the kept lines are the newest 4096 of the pieces, in order, each up to its first
-- zero byte and without the line feeds and carriage returns at its end.
pub load_content-Reads :
    (content : Text) (t : Lines)
    → Reads content (record t { line_count = 0 }) (load_content content t)
unfolding load_content
load_content-Reads content t =
    load_lines-Reads (suc (length content)) content (record t { line_count = 0 }) (omega arith)
      (omega arith)
