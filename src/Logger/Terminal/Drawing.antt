-- ===== src/Logger/Terminal/Drawing.antt =====
-- What logger_draw shows.
use hail2_repos.Prelude.{
  ℕ, zero, suc, ◌+◌, ◌-◌, ◌≤◌, ◌<◌, ◌≡◌, refl, ◌∙◌, ap, ◌⊎◌, inl, inr, List, [], ◌∷◌, ◌++◌, Text,
  replicate, leb, ltb, ◌==◌, if_cases, arith, if◌then◌else◌,
}
use hail2_repos.Kernel.{Answer, done, failed}
use hail2_repos.Logger.Lines.{load_content}
use hail2_repos.Logger.Terminal.{
  Terminal, Viewer, visible_of, clamp_top, draw_lines, draw_blank, clear_screen, title, ruler, help,
  logger_visible_lines, draw_screen, logger_draw, logger_load_file,
}

-- texts printed after others, where the newest stands first
abbrev pub push : List Text → List Text → List Text
push [] printed = printed
push (x ∷ xs) printed = push xs (x ∷ printed)

-- `n` lines from the index `i`, each with a newline
abbrev pub rows : ℕ → ℕ → (ℕ → Text) → List Text
rows zero i slot = []
rows (suc n) i slot = (slot i ++ 10 ∷ []) ∷ rows n (suc i) slot

-- A screen of `visible` rows below the two of its head: first lines that are kept, from the top line
-- on, as many as fit and as there are, and then empty rows.
abbrev pub Shows : {W : Type 0} → ℕ → Viewer W → Viewer W → Type 0
Shows visible v u =
    (u.lines ≡ v.lines)
    × (u.top_line ≤ v.lines.line_count - 1)
    × (n : ℕ) × (blank : ℕ) × (n + blank ≡ visible)
    × (u.top_line + n ≤ v.lines.line_count)
    × ((n ≡ visible) ⊎ (u.top_line + n ≡ v.lines.line_count))
    × (u.printed
        ≡ help
          ∷ push (replicate blank (10 ∷ [])) (
              push (rows n u.top_line v.lines.slot)
                (ruler ∷ title v.lines.line_count ∷ clear_screen ∷ v.printed)))

module _ {W : Type 0} where
  draw_lines_lem :
      (n i : ℕ) (v : Viewer W)
      → (draw_lines n i v).1 ≡ record v { printed = push (rows n i v.lines.slot) v.printed }
  unfolding draw_lines
  draw_lines_lem zero i v = refl
  draw_lines_lem (suc n) i v =
      draw_lines_lem n (suc i) (record v { printed = (v.lines.slot i ++ 10 ∷ []) ∷ v.printed })

  draw_blank_lem :
      (n : ℕ) (v : Viewer W)
      → (draw_blank n v).1 ≡ record v { printed = push (replicate n (10 ∷ [])) v.printed }
  unfolding draw_blank
  draw_blank_lem zero v = refl
  draw_blank_lem (suc n) v = draw_blank_lem n (record v { printed = (10 ∷ []) ∷ v.printed })

  clamp_top_lem :
      (v : Viewer W)
      → let u = (clamp_top v).1 in
        (u.lines ≡ v.lines) × (u.printed ≡ v.printed) × (u.top_line ≤ v.lines.line_count - 1)
  unfolding clamp_top
  clamp_top_lem v =
      let P = λ (r : Unit {0} × Viewer W).
        (r.1.lines ≡ v.lines)
        × (r.1.printed ≡ v.printed)
        × (r.1.top_line ≤ v.lines.line_count - 1) in
      if_cases P (v.lines.line_count == 0) (λ _. (refl, refl, omega arith))
        (λ _.
          if_cases P (leb v.lines.line_count v.top_line) (λ _. (refl, refl, omega arith))
            (λ less. (refl, refl, ground (arith, less))))

-- The rows below the head: 20 where the size of the window is not known; the rows of the window but
-- two, and 1 at least.
abbrev pub Visible : Answer ℕ → ℕ → Type 0
Visible (failed e) visible = visible ≡ 20
Visible (done rows) visible = ((rows ≤ 2) × (visible ≡ 1)) ⊎ ((2 < rows) × (visible + 2 ≡ rows))

visible_of-Visible : (rows : Answer ℕ) → Visible rows (visible_of rows)
unfolding visible_of
visible_of-Visible (failed e) = refl
visible_of-Visible (done rows) =
    if_cases (λ (n : ℕ). ((rows ≤ 2) × (n ≡ 1)) ⊎ ((2 < rows) × (n + 2 ≡ rows))) (leb rows 2)
      (λ few. inl (ground (arith, few), refl))
      (λ many. inr (ground (arith, many), ground (arith, many)))

-- At least one line is visible.
pub visible_of-positive : (rows : Answer ℕ) → 0 < visible_of rows
unfolding visible_of
visible_of-positive (failed e) = omega arith
visible_of-positive (done rows) = ground arith

-- where the lines of a screen end
end_cases :
    (count top visible : ℕ)
    → top ≤ count - 1
    → let end = if ltb count (top + visible) then count else top + visible in
      (end ≤ count) × (top ≤ end) × (end ≤ top + visible) × ((end ≡ top + visible) ⊎ (end ≡ count))
end_cases count top visible h =
    if_cases
      (λ (end : ℕ).
        (end ≤ count)
        × (top ≤ end)
        × (end ≤ top + visible)
        × ((end ≡ top + visible) ⊎ (end ≡ count)))
      (ltb count (top + visible))
      (λ less. (omega arith, omega (arith, h), ground (arith, less), inr refl))
      (λ more. (ground (arith, more), omega arith, omega arith, inl refl))

module _ {W : Type 0} (os : Terminal W) where
  draw_screen-Shows :
      (visible : ℕ) (v : Viewer W)
      → v.top_line ≤ v.lines.line_count - 1
      → Shows visible v (draw_screen os visible v).1
  unfolding draw_screen
  draw_screen-Shows visible v h =
      let top = v.top_line in
      let count = v.lines.line_count in
      let end = if ltb count (top + visible) then count else top + visible in
      let (a, b, c, d) = end_cases count top visible h in
      let n = end - top in
      let blank = top + visible - (top + n) in
      let head = record v { printed = ruler ∷ title count ∷ clear_screen ∷ v.printed } in
      let body = record head { printed = push (rows n top v.lines.slot) head.printed } in
      rw (draw_lines_lem n top head, draw_blank_lem blank body)
        (
          refl,
          h,
          n,
          blank,
          omega (arith, a, b, c),
          omega (arith, a, b),
          elim d [ inl e ↦ inl (omega (arith, e)) | inr e ↦ inr (omega (arith, e, b)) ],
          refl,
        )

  -- the number of rows below the head
  abbrev visible_now : Viewer W → ℕ
  visible_now v = visible_of (os.window_rows v.world).0

  -- Whatever the top line and the window are, logger_draw moves the top line below the count of
  -- lines (to 0 when there are none), and then prints below its head as many rows as the window
  -- has but two, and at least one, or 20 when the size of the window is not known: first kept
  -- lines from the top line on, none of them at or beyond the count, until the rows or the lines
  -- end, and then empty rows. A line of help follows.
  pub logger_draw-Shows :
      (v : Viewer W)
      → (visible : ℕ) × Visible (os.window_rows v.world).0 visible
        × Shows visible v (logger_draw os v).1
  unfolding logger_draw logger_visible_lines
  logger_draw-Shows v =
      let u = record v { world = (os.window_rows v.world).1 } in
      let (same, quiet, low) = clamp_top_lem u in
      let s = draw_screen-Shows (visible_now v) (clamp_top u).1 (rw same low) in
      (visible_now v, visible_of-Visible (os.window_rows v.world).0, rw (same, quiet) at s)

  draw_screen-kept :
      (visible : ℕ) (v : Viewer W)
      → let u = (draw_screen os visible v).1 in (u.lines ≡ v.lines) × (u.top_line ≡ v.top_line)
  unfolding draw_screen
  draw_screen-kept visible v =
      let top = v.top_line in
      let count = v.lines.line_count in
      let end = if ltb count (top + visible) then count else top + visible in
      let n = end - top in
      let head = record v { printed = ruler ∷ title count ∷ clear_screen ∷ v.printed } in
      let body = record head { printed = push (rows n top v.lines.slot) head.printed } in
      rw (draw_lines_lem n top head, draw_blank_lem (top + visible - (top + n)) body) (refl, refl)

  clamp_top-below : (v : Viewer W) → v.top_line < v.lines.line_count → (clamp_top v).1 ≡ v
  unfolding clamp_top
  clamp_top-below v h =
      if_cases (λ (r : Unit {0} × Viewer W). r.1 ≡ v) (v.lines.line_count == 0)
        (λ e. absurd (ground (arith, e, h)))
        (λ _.
          if_cases (λ (r : Unit {0} × Viewer W). r.1 ≡ v) (leb v.lines.line_count v.top_line)
            (λ e. absurd (ground (arith, e, h))) (λ _. refl))

  -- a top line below the count stays
  pub logger_draw-kept :
      (v : Viewer W)
      → v.top_line < v.lines.line_count
      → let u = (logger_draw os v).1 in (u.lines ≡ v.lines) × (u.top_line ≡ v.top_line)
  unfolding logger_draw logger_visible_lines
  logger_draw-kept v h =
      let u = record v { world = (os.window_rows v.world).1 } in
      let kept = draw_screen-kept (visible_now v) (clamp_top u).1 in
      let same = clamp_top-below u h in
      (
        kept.0 ∙ ap (λ (x : Viewer W). x.lines) same,
        kept.1 ∙ ap (λ (x : Viewer W). x.top_line) same,
      )

  pub logger_load_file-lines :
      (v : Viewer W)
      → let u = (logger_load_file os v).1 in
        (u.lines ≡ load_content (os.contents v.world).0 v.lines) × (u.top_line ≡ v.top_line)
  unfolding logger_load_file
  logger_load_file-lines v = (refl, refl)
