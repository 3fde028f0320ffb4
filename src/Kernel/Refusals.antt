-- ===== src/Kernel/Refusals.antt =====
-- The answers of the system that keep a step from being taken.
use hail2_repos.Prelude.{ℕ, ◌≡◌, ◌≢◌, ◌⊎◌, false, List, ℤ, is_positive, ◌∷◌}
use hail2_repos.Kernel.{System, failed, Event, signalled, collected}
use hail2_repos.Kernel.Errno.{eintr}

-- kill fails
abbrev pub NotSignalled : {W : Type 0} → System W → ℤ → ℤ → Type 0
NotSignalled {W} os pid sig = (e : ℕ) × (w : W) × ((os.kill pid sig w).0 ≡ failed e)

-- There is no such child to ask for, or waitpid fails other than by a signal.
abbrev pub NotCollected : {W : Type 0} → System W → ℤ → Type 0
NotCollected {W} os pid =
    (is_positive pid ≡ false)
    ⊎ ((e : ℕ) × (w : W) × ((os.waitpid pid false w).0 ≡ failed e) × (e ≢ eintr))

-- fork fails
abbrev pub NotForked : {W : Type 0} → System W → Type 0
NotForked {W} os = (e : ℕ) × (w : W) × ((os.fork w).0 ≡ failed e)

-- The signal is sent, unless kill fails.
abbrev pub Sends : {W : Type 0} → System W → ℤ → ℤ → List Event → List Event → Type 0
Sends os pid sig old new = (new ≡ signalled pid sig ∷ old) ⊎ (NotSignalled os pid sig × (new ≡ old))

-- The child is collected, unless it cannot be.
abbrev pub Gathers : {W : Type 0} → System W → ℤ → List Event → List Event → Type 0
Gathers os pid old new =
    ((status : ℕ) × (new ≡ collected pid status ∷ old)) ⊎ (NotCollected os pid × (new ≡ old))
