-- ===== src/Process/Children.antt =====
-- What the callers of process.c rely on.
use hail2_repos.Prelude.{
  ℕ, ◌<◌, ◌≡◌, refl, true, false, Option, none, some, is_negative, is_positive, Text, arith,
}
use hail2_repos.Kernel.{System, Answer, done, failed, Forks, Out}
use hail2_repos.Process.{process_spawn, spawn_forked}

module _ {W : Type 0} (os : System W) where
  spawn_forked-positive :
      (program : Text) (r : Answer ℕ) (o : Out W)
      → ((pid : ℕ) → r ≡ done pid → 0 < pid)
      → is_negative (spawn_forked os program r o).0 ≡ false
      → is_positive (spawn_forked os program r o).0 ≡ true
  unfolding spawn_forked
  spawn_forked-positive program (done pid) o h e = ground (arith, h pid refl)
  spawn_forked-positive program (failed k) o h e = cc

  -- A pid that is not negative is the pid of a child.
  pub process_spawn-positive :
      Forks os
      → (program : Option Text) (o : Out W) → is_negative (process_spawn os program o).0 ≡ false
      → is_positive (process_spawn os program o).0 ≡ true
  unfolding process_spawn
  process_spawn-positive fk none o e = cc
  process_spawn-positive fk (some program) o e =
      spawn_forked-positive program _ _ (fk.positive o.world) e
