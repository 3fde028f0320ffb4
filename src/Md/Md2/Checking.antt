-- ===== src/Md/Md2/Checking.antt =====
-- The checks of the operating mode.
use hail2_repos.Prelude.{
  ℕ, ◌≤◌, ◌≡◌, ◌≢◌, refl, ◌∙◌, ◌⊎◌, inl, inr, false, [], ℤ, pos, minus_one, eq_ℤ-cases, Text, codes,
  ◌==◌, ne_of_test, if_cases, arith, Bool-cases,
}
use hail2_repos.Kernel.{System, Answer, done, failed, FileKind, M, is_directory}
use hail2_repos.Kernel.Errno.{eperm, enoent, esrch}
use hail2_repos.Kernel.Watchful.{Watchful}
use hail2_repos.Log.Effects.{say-Quiet, trace-say}
use hail2_repos.Md.Md2.{
  Operator, runtime_dir, md2_report, hinit_answered, parent_answered, md2_check_hinit,
  runtime_answered, md2_check_runtime, hinit_checked, md2_check,
}

-- What a failed check has seen of the outside.
pub data Broken {W : Type 0} (os : System W) : Type 0 where
  orphaned : (w : W) → (os.getppid w).0 ≢ pos 1 → Broken os
  uninspected :
      (w : W) (e : ℕ) → (os.kill (pos 1) (pos 0) w).0 ≡ failed e → e ≢ esrch → e ≢ eperm → Broken os
  runtime_lost : (w : W) (e : ℕ) → (os.stat runtime_dir w).0 ≡ failed e → Broken os
  runtime_replaced :
      (w : W) (kind : FileKind)
      → (os.stat runtime_dir w).0 ≡ done kind
      → is_directory kind ≡ false
      → Broken os

-- No event is made, no other process is touched, and the flag stays.
abbrev pub Still : {W : Type 0} → System W → Operator W → Operator W → Type 0
Still os s u =
    (os.patience u.out.world ≤ os.patience s.out.world)
    × (u.out.trace ≡ s.out.trace)
    × (u.running ≡ s.running)

-- A check: 0, or -1 for a reason.
abbrev pub Checks : {W : Type 0} → System W → Operator W → ℤ × Operator W → Type 0
Checks os s r = Still os s r.1 × ((r.0 ≡ pos 0) ⊎ ((r.0 ≡ minus_one) × Broken os))

module _ {W : Type 0} (os : System W) (wt : Watchful os) where
  -- a message, whatever is printed with it
  pub md2_report-Still :
      (logged : Text) (level : ℕ) (s : Operator W) → Still os s (md2_report os logged level [] s).1
  md2_report-Still logged level s = (
    say-Quiet os wt.settles (codes "MD2") logged level s.out,
    trace-say os (codes "MD2") logged level s.out,
    refl,
  )

  Still-trans : (s u v : Operator W) → Still os s u → Still os u v → Still os s v
  Still-trans s u v a b = (omega (arith, a.0, b.0), b.1 ∙ a.1, b.2 ∙ a.2)

  hinit_answered-Checks :
      (r : Answer (Unit {0})) (w : W) (s : Operator W)
      → (os.kill (pos 1) (pos 0) w).0 ≡ r
      → Checks os s (hinit_answered os r s)
  unfolding hinit_answered
  hinit_answered-Checks (done _) w s h = ((omega arith, refl, refl), inl refl)
  hinit_answered-Checks (failed e) w s h =
      let P = λ (m : M (Operator W) ℤ). Checks os s (m s) in
      if_cases P (e == esrch) (λ _. (md2_report-Still _ _ s, inl refl))
        (λ n.
          if_cases P (e == eperm) (λ _. (md2_report-Still _ _ s, inl refl))
            (λ m. (
              md2_report-Still _ _ s,
              inr (refl, uninspected w e h (ne_of_test e esrch n) (ne_of_test e eperm m)),
            )))

  parent_answered-Checks :
      (parent : ℤ) (w : W) (s : Operator W)
      → (os.getppid w).0 ≡ parent
      → Checks os s (parent_answered os parent s)
  unfolding parent_answered
  parent_answered-Checks parent w s h =
      let P = λ (m : M (Operator W) ℤ). Checks os s (m s) in
      elim (eq_ℤ-cases parent (pos 1)) [
        | inl e ↦ rw e.1 (
            let u = record s {
              out = record s.out { world = (os.kill (pos 1) (pos 0) s.out.world).1 };
            } in
            let c =
              hinit_answered-Checks (os.kill (pos 1) (pos 0) s.out.world).0 s.out.world u refl in
            ((omega (arith, wt.quiet_kill (pos 1) (pos 0) s.out.world, c.0.0), c.0.1, c.0.2), c.1))
        | inr e ↦ rw e.1 (md2_report-Still _ _ s, inr (refl, orphaned w (rw h e.0)))
      ]

  md2_check_hinit-Checks : (s : Operator W) → Checks os s (md2_check_hinit os s)
  unfolding md2_check_hinit
  md2_check_hinit-Checks s =
      let u = record s { out = record s.out { world = (os.getppid s.out.world).1 } } in
      let c = parent_answered-Checks (os.getppid s.out.world).0 s.out.world u refl in
      ((omega (arith, wt.quiet_getppid s.out.world, c.0.0), c.0.1, c.0.2), c.1)

  runtime_answered-Checks :
      (r : Answer FileKind) (w : W) (s : Operator W)
      → (os.stat runtime_dir w).0 ≡ r
      → Checks os s (runtime_answered os r s)
  unfolding runtime_answered
  runtime_answered-Checks (failed e) w s h =
      let P = λ (m : M (Operator W) ℤ). Checks os s (m s) in
      if_cases P (e == enoent) (λ _. (md2_report-Still _ _ s, inr (refl, runtime_lost w e h)))
        (λ _. (md2_report-Still _ _ s, inr (refl, runtime_lost w e h)))
  runtime_answered-Checks (done kind) w s h =
      let P = λ (m : M (Operator W) ℤ). Checks os s (m s) in
      elim (Bool-cases (is_directory kind)) [
        | inl e ↦ rw e ((omega arith, refl, refl), inl refl)
        | inr e ↦ rw e (md2_report-Still _ _ s, inr (refl, runtime_replaced w kind h e))
      ]

  md2_check_runtime-Checks : (s : Operator W) → Checks os s (md2_check_runtime os s)
  unfolding md2_check_runtime
  md2_check_runtime-Checks s =
      let u = record s { out = record s.out { world = (os.stat runtime_dir s.out.world).1 } } in
      let c = runtime_answered-Checks (os.stat runtime_dir s.out.world).0 s.out.world u refl in
      ((omega (arith, wt.quiet_stat runtime_dir s.out.world, c.0.0), c.0.1, c.0.2), c.1)

  hinit_checked-Checks :
      (s : Operator W) (r : ℤ × Operator W) → Checks os s r → Checks os s (hinit_checked os r.0 r.1)
  unfolding hinit_checked
  hinit_checked-Checks s r (a, inl h) =
      let q = md2_check_runtime-Checks r.1 in
      rw h (
        Still-trans s r.1 (md2_check_runtime os r.1).1 a q.0,
        elim q.1 [ inl k ↦ rw k (inl refl) | inr k ↦ rw k.0 (inr (refl, k.1)) ],
      )
  hinit_checked-Checks s r (a, inr h) = rw h.0 (a, inr (refl, h.1))

  pub md2_check-Checks : (s : Operator W) → Checks os s (md2_check os s)
  unfolding md2_check
  md2_check-Checks s = hinit_checked-Checks s (md2_check_hinit os s) (md2_check_hinit-Checks s)
