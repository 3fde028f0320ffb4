-- ===== src/Hsv/Control/Paths.antt =====
-- The paths of a service's scripts.
use hail2_repos.Prelude.{ℕ, ◌≤◌, ◌≡◌, ◌⊎◌, Option, none, some, Text, joined, length, arith}
use hail2_repos.Hsv.Control.{hsv_build_path}

-- The joined path is built, or it does not fit its buffer.
abbrev pub Builds : ℕ → Text → Text → Option Text → Type 0
Builds size service script path =
    (path ≡ some (joined service script))
    ⊎ ((path ≡ none) × (size ≤ length (joined service script)))

pub hsv_build_path-Builds :
    (size : ℕ) (service script : Text)
    → Builds size service script (hsv_build_path size (some service) (some script))
unfolding hsv_build_path
hsv_build_path-Builds size service script = ground arith
