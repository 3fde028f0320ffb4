-- ===== src/Process/Waiting.antt =====
-- The wait loops of process.c.
use hail2_repos.Prelude.{
  ℕ, zero, suc, ◌<◌, ◌≡◌, refl, ap, ◌≢◌, true, false, ℤ, pos, minus_one, is_positive, ◌==◌, ==_iff,
  ne_of_test, if_cases, arith,
}
use hail2_repos.Kernel.{System, Settles, M, Waited, Answer, done, failed, Out}
use hail2_repos.Kernel.Errno.{eintr, echild}
use hail2_repos.Process.{
  process_wait, wait_answered, wait_loop, wait_failed, process_reap, reap_answered, reap_loop,
  reap_found, reap_failed,
}

-- `for (;;)` of process_wait as a relation: a call is repeated while it is interrupted, and the
-- first other answer decides.
pub data Collects {W : Type 0} (os : System W) (pid : ℤ) : W → ℤ → Type 0 where
  child_left :
      (w : W) (x : Waited) → (os.waitpid pid false w).0 ≡ done x → Collects os pid w (pos x.status)
  gave_up :
      (w : W) (e : ℕ)
      → (os.waitpid pid false w).0 ≡ failed e
      → e ≢ eintr
      → Collects os pid w minus_one
  interrupted :
      (w : W) {r : ℤ}
      → (os.waitpid pid false w).0 ≡ failed eintr
      → Collects os pid (os.waitpid pid false w).1 r
      → Collects os pid w r

-- `for (;;)` of process_reap: a pid of 0 says that there is nothing to collect, which is also what
-- it makes of ECHILD.
pub data Reaps {W : Type 0} (os : System W) : W → ℤ → Type 0 where
  found : (w : W) (x : Waited) → (os.waitpid minus_one true w).0 ≡ done x → Reaps os w (pos x.pid)
  no_children : (w : W) → (os.waitpid minus_one true w).0 ≡ failed echild → Reaps os w (pos 0)
  gave_up :
      (w : W) (e : ℕ)
      → (os.waitpid minus_one true w).0 ≡ failed e
      → e ≢ eintr
      → e ≢ echild
      → Reaps os w minus_one
  interrupted :
      (w : W) {r : ℤ}
      → (os.waitpid minus_one true w).0 ≡ failed eintr
      → Reaps os (os.waitpid minus_one true w).1 r
      → Reaps os w r

module _ {W : Type 0} (os : System W) where
  wait_answered-Collects :
      (again : M (Out W) ℤ) (pid : ℤ) (r : Answer Waited) (o : Out W)
      → let o' = record o { world = (os.waitpid pid false o.world).1 } in
        (os.waitpid pid false o.world).0 ≡ r
        → (r ≡ failed eintr → Collects os pid o'.world (again o').0)
        → Collects os pid o.world (wait_answered os again pid r o').0
  unfolding wait_answered wait_failed
  wait_answered-Collects again pid (done x) o e h = child_left o.world x e
  wait_answered-Collects again pid (failed k) o e h =
      if_cases
        (λ (f : M (Out W) ℤ).
          Collects os pid o.world (f (record o { world = (os.waitpid pid false o.world).1 })).0)
        (k == eintr)
        (λ t. let k' = (==_iff k eintr).0 t in interrupted o.world (rw k' at e) (h (ap failed k')))
        (λ t. gave_up o.world k e (ne_of_test k eintr t))

  wait_loop-Collects :
      (st : Settles os) (fuel : ℕ) (pid : ℤ) (o : Out W)
      → os.patience o.world < fuel
      → Collects os pid o.world (wait_loop os fuel pid o).0
  unfolding wait_loop
  wait_loop-Collects st zero pid o h = absurd (omega arith)
  wait_loop-Collects st (suc fuel) pid o h =
      wait_answered-Collects (wait_loop os fuel pid) pid _ o refl
        λ e. wait_loop-Collects st fuel pid _ (omega (arith, st.interrupted pid false o.world e))

  -- Where interruptions of waitpid are finite, process_wait for a positive pid returns, and with
  -- the status of the first call of waitpid that is not interrupted, or with -1 if that call
  -- fails.
  pub process_wait-Collects :
      (st : Settles os) (pid : ℤ) (o : Out W)
      → is_positive pid ≡ true
      → Collects os pid o.world (process_wait os pid o).0
  unfolding process_wait
  process_wait-Collects st pid o p =
      if_cases (λ (r : ℤ × Out W). Collects os pid o.world r.0) (is_positive pid)
        (λ _. wait_loop-Collects st (suc (os.patience o.world)) pid o (omega arith)) (λ n. cc)

  reap_found-pid : (p status : ℕ) (o : Out W) → (reap_found os p status o).0.0 ≡ pos p
  unfolding reap_found
  reap_found-pid zero status o = refl
  reap_found-pid (suc p) status o = refl

  reap_answered-Reaps :
      (again : M (Out W) (ℤ × ℕ)) (r : Answer Waited) (o : Out W)
      → let o' = record o { world = (os.waitpid minus_one true o.world).1 } in
        (os.waitpid minus_one true o.world).0 ≡ r
        → (r ≡ failed eintr → Reaps os o'.world (again o').0.0)
        → Reaps os o.world (reap_answered os again r o').0.0
  unfolding reap_answered reap_failed
  reap_answered-Reaps again (done x) o e h = rw reap_found-pid (found o.world x e)
  reap_answered-Reaps again (failed k) o e h =
      if_cases P (k == eintr)
        (λ t. let k' = (==_iff k eintr).0 t in interrupted o.world (rw k' at e) (h (ap failed k')))
        (λ n.
          if_cases P (k == echild) (λ t. no_children o.world (rw ((==_iff k echild).0 t) at e))
            (λ t. gave_up o.world k e (ne_of_test k eintr n) (ne_of_test k echild t)))
    where
      P : M (Out W) (ℤ × ℕ) → Type 0
      P f = Reaps os o.world (f (record o { world = (os.waitpid minus_one true o.world).1 })).0.0

  reap_loop-Reaps :
      (st : Settles os) (fuel : ℕ) (o : Out W)
      → os.patience o.world < fuel
      → Reaps os o.world (reap_loop os fuel o).0.0
  unfolding reap_loop
  reap_loop-Reaps st zero o h = absurd (omega arith)
  reap_loop-Reaps st (suc fuel) o h =
      reap_answered-Reaps (reap_loop os fuel) _ o refl
        λ e. reap_loop-Reaps st fuel _ (omega (arith, st.interrupted minus_one true o.world e))

  -- Where interruptions of waitpid are finite, process_reap returns, and with the pid of the
  -- first call of waitpid that is not interrupted, with 0 if that call says that there are no
  -- children, and with -1 if it fails otherwise.
  pub process_reap-Reaps : (st : Settles os) (o : Out W) → Reaps os o.world (process_reap os o).0.0
  unfolding process_reap
  process_reap-Reaps st o = reap_loop-Reaps st (suc (os.patience o.world)) o (omega arith)

  -- A result that names a child is one event of the outside less.
  abbrev pub Shrinks : W → (ℤ × ℕ) × Out W → Type 0
  Shrinks w r = is_positive r.0.0 ≡ true → os.patience r.1.world < os.patience w

  reap_found-Shrinks :
      (p status : ℕ) (w : W) (o : Out W)
      → (0 < p → os.patience o.world < os.patience w)
      → Shrinks w (reap_found os p status o)
  unfolding reap_found
  reap_found-Shrinks zero status w o h e = cc
  reap_found-Shrinks (suc p) status w o h e = h (omega arith)

  reap_answered-Shrinks :
      (st : Settles os) (again : M (Out W) (ℤ × ℕ)) (r : Answer Waited) (o : Out W)
      → let o' = record o { world = (os.waitpid minus_one true o.world).1 } in
        (os.waitpid minus_one true o.world).0 ≡ r
        → Shrinks o'.world (again o')
        → Shrinks o.world (reap_answered os again r o')
  unfolding reap_answered reap_failed
  reap_answered-Shrinks st again (done x) o e h =
      reap_found-Shrinks x.pid x.status o.world _ (st.reaped minus_one true o.world x e)
  reap_answered-Shrinks st again (failed k) o e h =
      if_cases P (k == eintr)
        (λ t p.
          let less = st.interrupted minus_one true o.world (rw ((==_iff k eintr).0 t) at e) in
          omega (arith, h p))
        (λ _. if_cases P (k == echild) (λ _ p. cc) (λ _ p. cc))
    where
      P : M (Out W) (ℤ × ℕ) → Type 0
      P f = Shrinks o.world (f (record o { world = (os.waitpid minus_one true o.world).1 }))

  reap_loop-Shrinks :
      (st : Settles os) (fuel : ℕ) (o : Out W) → Shrinks o.world (reap_loop os fuel o)
  unfolding reap_loop
  reap_loop-Shrinks st zero o p = cc
  reap_loop-Shrinks st (suc fuel) o p =
      reap_answered-Shrinks st (reap_loop os fuel) _ o refl (reap_loop-Shrinks st fuel _) p

  pub process_reap-Shrinks : (st : Settles os) (o : Out W) → Shrinks o.world (process_reap os o)
  unfolding process_reap
  process_reap-Shrinks st o = reap_loop-Shrinks st _ o
