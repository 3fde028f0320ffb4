-- ===== src/Logger/Session/Following.antt =====
-- A round of the loop follows the end of the file.
use hail2_repos.Prelude.{
  ℕ, ◌+◌, ◌-◌, ◌≤◌, ◌<◌, ◌≡◌, refl, sym, ◌∙◌, ap, false, ◌&&◌, [], ◌∷◌, leb, ltb, if_cases, arith,
}
use hail2_repos.Kernel.{Answer, done}
use hail2_repos.Logger.Lines.{Lines, load_content}
use hail2_repos.Logger.Terminal.{
  Terminal, Viewer, visible_of, logger_visible_lines, logger_draw, logger_load_file,
}
use hail2_repos.Logger.Terminal.Drawing.{
  visible_of-positive, logger_load_file-lines, logger_draw-kept,
}
use hail2_repos.Logger.Keys.{logger_process_key}
use hail2_repos.Logger.Keys.Moves.{logger_end-bottom, logger_read_key-up, logger_process_key-up}
use hail2_repos.Logger.Session.{
  follow_within, follow, logger_refresh, key_processed, key_pressed, logger_round,
}

module _ {W : Type 0} (os : Terminal W) (rows : Answer ℕ)
    (steady : (w : W) → (os.window_rows w).0 ≡ rows) where
  -- from at most one line above the bottom
  follow-bottom :
      (position : Answer ℕ) (p : ℕ) (v : Viewer W)
      → position ≡ done p
      → visible_of rows < v.lines.line_count
      → v.lines.line_count ≤ v.top_line + visible_of rows + 1
      → let u = (follow os position v).1 in
        (u.lines ≡ v.lines) × (u.top_line ≡ v.lines.line_count - visible_of rows)
  unfolding follow follow_within logger_visible_lines
  follow-bottom position p v e h near =
      let x = record v { world = (os.window_rows v.world).1 } in
      rw (e, steady v.world)
        (if_cases
          (λ (r : Unit {0} × Viewer W).
            (r.1.lines ≡ v.lines) × (r.1.top_line ≡ v.lines.line_count - visible_of rows))
          (ltb (visible_of rows) v.lines.line_count
            && leb (v.lines.line_count - 1) (v.top_line + visible_of rows))
          (λ _. logger_end-bottom os rows steady x h) (λ n. absurd (ground (arith, n, h, near))))

  module _ (count : ℕ) (told : (w : W) → (p : ℕ) × ((os.ftell w).0 ≡ done p)) where
    logger_refresh-bottom :
        (v : Viewer W)
        → ((w : W) → (load_content (os.contents w).0 v.lines).line_count ≡ count)
        → visible_of rows < count
        → count ≤ v.top_line + visible_of rows + 1
        → (logger_refresh os v).1.top_line ≡ count - visible_of rows
    unfolding logger_refresh
    logger_refresh-bottom v holds h near =
        let k = visible_of rows in
        let (p, e) = told v.world in
        let x = record v { world = (os.ftell v.world).1 } in
        let y = (logger_load_file os x).1 in
        let same = logger_load_file-lines os x in
        let c : y.lines.line_count ≡ count =
          ap (λ (l : Lines). l.line_count) same.0 ∙ holds x.world in
        let u = (follow os (os.ftell v.world).0 y).1 in
        let followed =
          follow-bottom (os.ftell v.world).0 p y e (omega (arith, c, h))
            (omega (arith, c, near, same.1)) in
        let d : u.lines.line_count ≡ count = ap (λ (l : Lines). l.line_count) followed.0 ∙ c in
        let positive = visible_of-positive rows in
        let drawn = logger_draw-kept os u (omega (arith, d, c, followed.1, positive, h)) in
        drawn.1 ∙ followed.1 ∙ ap (λ (n : ℕ). n - k) c

    -- Where the window keeps its size, ftell succeeds and the number of lines of the file does
    -- not change, a round of the loop in which the key Up is pressed at the bottom, with more
    -- lines than are visible, ends at the bottom again: the move by one line is undone by the
    -- test that follows new lines.
    pub logger_round-up :
        (v : Viewer W)
        → ((w : W) → (load_content (os.contents w).0 v.lines).line_count ≡ count)
        → v.lines.line_count ≡ count
        → visible_of rows < count
        → v.top_line ≡ count - visible_of rows
        → (os.read 1 v.world).0 ≡ 27 ∷ []
        → (os.read 3 (os.read 1 v.world).1).0 ≡ 91 ∷ 65 ∷ []
        → ((logger_round os v).0 ≡ false) × ((logger_round os v).1.top_line ≡ v.top_line)
    unfolding logger_round key_pressed key_processed
    logger_round-up v holds c h bottom a b =
        let x = record v { world = (os.read 3 (os.read 1 v.world).1).1 } in
        let (r, y) = logger_process_key os 1001 x in
        let (two, same, top) = logger_process_key-up os x (omega (arith, bottom, h)) in
        let z = (logger_draw os y).1 in
        let positive = visible_of-positive rows in
        let n : y.lines.line_count ≡ count = ap (λ (l : Lines). l.line_count) same ∙ c in
        let drawn = logger_draw-kept os y (omega (arith, n, top, bottom, positive, h)) in
        let back =
          logger_refresh-bottom z (λ w. rw (drawn.0, same) (holds w)) h
            (omega (arith, drawn.1, top, bottom)) in
        rw (logger_read_key-up os v a b, two) (refl, back ∙ sym bottom)
