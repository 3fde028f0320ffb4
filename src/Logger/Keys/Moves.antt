-- ===== src/Logger/Keys/Moves.antt =====
-- What single keys do.
use hail2_repos.Prelude.{ℕ, ◌-◌, ◌<◌, ◌≡◌, refl, [], ◌∷◌, leb, ltb, if_cases, arith}
use hail2_repos.Kernel.{Answer}
use hail2_repos.Logger.Terminal.{Terminal, Viewer, visible_of, logger_visible_lines}
use hail2_repos.Logger.Keys.{
  logger_scroll_up, end_within, logger_end, escape_key, key_read, logger_read_key, key_action,
  logger_process_key,
}

module _ {W : Type 0} (os : Terminal W) (rows : Answer ℕ)
    (steady : (w : W) → (os.window_rows w).0 ≡ rows) where
  pub logger_end-bottom :
      (v : Viewer W)
      → visible_of rows < v.lines.line_count
      → let u = (logger_end os v).1 in
        (u.lines ≡ v.lines) × (u.top_line ≡ v.lines.line_count - visible_of rows)
  unfolding logger_end logger_visible_lines end_within
  logger_end-bottom v h = rw (steady v.world) (
      if_cases
        (λ (r : Unit {0} × Viewer W).
          (r.1.lines ≡ v.lines) × (r.1.top_line ≡ v.lines.line_count - visible_of rows))
        (ltb (visible_of rows) v.lines.line_count) (λ _. (refl, refl))
        (λ e. absurd (ground (arith, e, h))))

module _ {W : Type 0} (os : Terminal W) where
  -- the bytes of the key Up
  pub logger_read_key-up :
      (v : Viewer W)
      → (os.read 1 v.world).0 ≡ 27 ∷ []
      → (os.read 3 (os.read 1 v.world).1).0 ≡ 91 ∷ 65 ∷ []
      → logger_read_key os v ≡ (1001, record v { world = (os.read 3 (os.read 1 v.world).1).1 })
  unfolding logger_read_key key_read escape_key
  logger_read_key-up v a b = rw (a, b) refl

  pub logger_process_key-up :
      (v : Viewer W)
      → 0 < v.top_line
      → let r = logger_process_key os 1001 v in
        (r.0 ≡ 2) × (r.1.lines ≡ v.lines) × (r.1.top_line ≡ v.top_line - 1)
  unfolding logger_process_key key_action logger_scroll_up logger_visible_lines
  logger_process_key-up v h =
      let two : ℕ = 2 in
      if_cases
        (λ (r : Unit {0} × Viewer W).
          (two ≡ 2) × (r.1.lines ≡ v.lines) × (r.1.top_line ≡ v.top_line - 1))
        (leb 1 v.top_line) (λ _. (refl, refl, refl)) (λ e. absurd (ground (arith, e, h)))
