-- ===== src/Mode/Transitions.antt =====
-- Which machine mode follows which.
use hail2_repos.Prelude.{ℤ, ◌≡◌, refl, ◌≢◌, ◌⊎◌, inl, inr, eq_ℤ-cases}
use hail2_repos.Kernel.{System, Forks}
use hail2_repos.Image.{Image, Controller}
use hail2_repos.Mode.Exits.{mode_md0, mode_md1, mode_md2}
use hail2_repos.Mode.Frame.{
  Operating, Idle, Started, stopped, mode-enter_md0, mode-enter_md1, mode-enter_md2,
}
use hail2_repos.Mode.{mode_start, mode_log, start_md0, start_md1, start_md2}

-- The effect of a request on the variables of the mode controller: `c` before and `d` after.
pub data Transition (mode : ℤ) (c d : Controller) : Type 0 where
  startup :
      mode ≡ mode_md1
      → c.current_mode ≢ mode_md0
      → c.current_mode ≢ mode_md1
      → c.current_mode ≢ mode_md2
      → Started c d
      → Transition mode c d
  operate : mode ≡ mode_md2 → c.current_mode ≡ mode_md1 → Operating d ⊎ Idle d → Transition mode c d
  shutdown :
      mode ≡ mode_md0
      → c.current_mode ≡ mode_md2
      → d ≡ record (stopped c) { current_mode = mode_md0 }
      → Transition mode c d
  refuse :
      (mode ≡ mode_md1
        → (c.current_mode ≡ mode_md0) ⊎ (c.current_mode ≡ mode_md1) ⊎ (c.current_mode ≡ mode_md2))
      → (mode ≡ mode_md2 → c.current_mode ≢ mode_md1)
      → (mode ≡ mode_md0 → c.current_mode ≢ mode_md2)
      → d ≡ c
      → Transition mode c d

module _ {W : Type 0} (os : System W) (fk : Forks os) where
  start_md1-Transition :
      (s : Image W) → Transition mode_md1 s.mode (start_md1 os s.mode.current_mode s).1.mode
  unfolding start_md1 mode_log
  start_md1-Transition s = elim (eq_ℤ-cases s.mode.current_mode mode_md1) [
    | inl (p, e) ↦ rw e (refuse (λ _. inr (inl p)) (λ q. cc) (λ q. cc) refl)
    | inr (n1, e1) ↦ elim (eq_ℤ-cases s.mode.current_mode mode_md2) [
      | inl (p, e) ↦ rw (e1, e) (refuse (λ _. inr (inr p)) (λ q. cc) (λ q. cc) refl)
      | inr (n2, e2) ↦ elim (eq_ℤ-cases s.mode.current_mode mode_md0) [
        | inl (p, e) ↦ rw (e1, e2, e) (refuse (λ _. inl p) (λ q. cc) (λ q. cc) refl)
        | inr (n0, e0) ↦ rw (e1, e2, e0) (startup refl n0 n1 n2 (mode-enter_md1 os fk s))
      ]
    ]
  ]

  start_md2-Transition :
      (s : Image W) → Transition mode_md2 s.mode (start_md2 os s.mode.current_mode s).1.mode
  unfolding start_md2 mode_log
  start_md2-Transition s = elim (eq_ℤ-cases s.mode.current_mode mode_md2) [
    | inl (p, e) ↦ rw e (refuse (λ q. cc) (λ q r. cc) (λ q. cc) refl)
    | inr (n1, e1) ↦ elim (eq_ℤ-cases s.mode.current_mode mode_md0) [
      | inl (p, e) ↦ rw (e1, e) (refuse (λ q. cc) (λ q r. cc) (λ q. cc) refl)
      | inr (n2, e2) ↦ elim (eq_ℤ-cases s.mode.current_mode mode_md1) [
        | inl (p, e) ↦ rw (e1, e2, e) (operate refl p (mode-enter_md2 os fk s))
        | inr (n0, e0) ↦ rw (e1, e2, e0) (refuse (λ q. cc) (λ q. n0) (λ q. cc) refl)
      ]
    ]
  ]

  start_md0-Transition :
      (s : Image W) → Transition mode_md0 s.mode (start_md0 os s.mode.current_mode s).1.mode
  unfolding start_md0 mode_log
  start_md0-Transition s = elim (eq_ℤ-cases s.mode.current_mode mode_md0) [
    | inl (p, e) ↦ rw e (refuse (λ q. cc) (λ q. cc) (λ q r. cc) refl)
    | inr (n1, e1) ↦ elim (eq_ℤ-cases s.mode.current_mode mode_md2) [
      | inl (p, e) ↦ rw (e1, e) (shutdown refl p (mode-enter_md0 os s))
      | inr (n2, e2) ↦ rw (e1, e2) (refuse (λ q. cc) (λ q. cc) (λ q. n2) refl)
    ]
  ]

  -- Where fork returns positive pids to the parent, every request to mode_start, in any state
  -- and whatever the calls of the system answer, is one of four transitions: MD1 is run only
  -- when none of the three modes is current, and ends in MD2 with a tracked process or in no
  -- mode; MD2 is entered only from MD1; MD0 is entered only from MD2, and MD2 is forgotten then;
  -- every other request leaves the controller's variables as they were.
  pub mode_start-Transition :
      (mode : ℤ) (s : Image W) → Transition mode s.mode (mode_start os mode s).1.mode
  unfolding mode_start mode_log
  mode_start-Transition mode s = elim (eq_ℤ-cases mode mode_md1) [
    | inl (p, e) ↦ rw (e, p) (start_md1-Transition s)
    | inr (n1, e1) ↦ elim (eq_ℤ-cases mode mode_md2) [
      | inl (p, e) ↦ rw (e1, e, p) (start_md2-Transition s)
      | inr (n2, e2) ↦ elim (eq_ℤ-cases mode mode_md0) [
        | inl (p, e) ↦ rw (e1, e2, e, p) (start_md0-Transition s)
        | inr (n0, e0) ↦
            rw (e1, e2, e0)
              (refuse (λ q. absurd (n1 q)) (λ q. absurd (n2 q)) (λ q. absurd (n0 q)) refl)
      ]
    ]
  ]
