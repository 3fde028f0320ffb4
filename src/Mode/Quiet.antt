-- ===== src/Mode/Quiet.antt =====
-- mode_child_exit and the outside.
use hail2_repos.Prelude.{◌≤◌, ◌≡◌, refl, ℤ, minus_one, not, eq_ℤ, arith, if_cases}
use hail2_repos.Kernel.{System, Settles}
use hail2_repos.Log.Effects.{say-Quiet, trace-say}
use hail2_repos.Image.{Image}
use hail2_repos.Mode.Exits.{mode_md2}
use hail2_repos.Mode.{mode_log, md2_exited, mode_child_exit}

-- Only lines were logged, and the mode controller's variables changed.
abbrev pub Logged : {W : Type 0} → System W → Image W → Image W → Type 0
Logged os s u =
    (os.patience u.out.world ≤ os.patience s.out.world)
    × (u.out.trace ≡ s.out.trace)
    × (u.load ≡ s.load)
    × (u.pending ≡ s.pending)

module _ {W : Type 0} (os : System W) (st : Settles os) where
  pub Logged-refl : (s : Image W) → Logged os s s
  Logged-refl s = (omega arith, refl, refl, refl)

  md2_exited-Logged : (status : ℤ) (s : Image W) → Logged os s (md2_exited os status s).1
  unfolding md2_exited mode_log
  md2_exited-Logged status s =
      if_cases (λ (r : Unit {0} × Image W). Logged os s r.1) s.mode.md2_shutdown_requested
        (λ _. (say-Quiet os st _ _ _ s.out, trace-say os _ _ _ s.out, refl, refl))
        (λ _.
          if_cases (λ (r : Unit {0} × Image W). Logged os s r.1) (eq_ℤ s.mode.current_mode mode_md2)
            (λ _. (say-Quiet os st _ _ _ s.out, trace-say os _ _ _ s.out, refl, refl))
            (λ _. Logged-refl s))

  pub mode_child_exit-Logged :
      (pid status : ℤ) (s : Image W) → Logged os s (mode_child_exit os pid status s).1
  unfolding mode_child_exit
  mode_child_exit-Logged pid status s =
      if_cases (λ (r : Unit {0} × Image W). Logged os s r.1) (not (eq_ℤ pid s.mode.md2_pid))
        (λ _. Logged-refl s)
        (λ _. md2_exited-Logged status (record s { mode = record s.mode { md2_pid = minus_one } }))
