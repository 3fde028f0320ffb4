-- ===== src/Load/Table/Paths.antt =====
-- What load_service_path makes of a service's name.
use hail2_repos.Prelude.{
  joined, fitted, ℕ, ◌≡◌, ◌≢◌, ◌<◌, ◌∙◌, ◌↔◌, false, Option, some, [], ◌∷◌, ◌++◌, Text, has_byte,
  length, arith, if_cases, sym,
}
use hail2_repos.Load.Table.{service_dir, load_service_path}

-- The name is one component of a path that fits the buffer.
abbrev pub Fits : ℕ → Text → Text → Type 0
Fits size name path =
    (name ≢ [])
    × (has_byte 47 name ≡ false)
    × (path ≡ joined service_dir name)
    × (length path < size)

fitted-some :
    (size : ℕ) (text path : Text)
    → (fitted size text ≡ some path) ↔ ((path ≡ text) × (length path < size))
fitted-some size text path = ground arith

-- load_service_path gives a path for a name exactly when the name is not empty and has no slash
-- and the path is the service directory, a slash and the name and is shorter than the buffer.
pub load_service_path-Fits :
    (size : ℕ) (name path : Text)
    → (load_service_path size (some name) ≡ some path) ↔ Fits size name path
unfolding load_service_path
load_service_path-Fits size [] path = ground arith
load_service_path-Fits size (c ∷ cs) path =
    let text = joined service_dir (c ∷ cs) in
    if_cases (λ (r : Option Text). (r ≡ some path) ↔ Fits size (c ∷ cs) path) (has_byte 47 (c ∷ cs))
      (λ y. (λ e. cc, λ h. cc))
      (λ n. (
        λ e. let h = (fitted-some size text path).0 e in (λ q. cc, n, h.0, h.1),
        λ h. (fitted-some size text path).1 (h.2, h.3),
      ))

append-cancel : (a b c : Text) → a ++ b ≡ a ++ c → b ≡ c
append-cancel [] b c e = e
append-cancel (x ∷ a) b c e = append-cancel a b c cc

-- Two names for which load_service_path gives the same path are the same.
load_service_path-injective :
    (size : ℕ) (a b path : Text)
    → load_service_path size (some a) ≡ some path
    → load_service_path size (some b) ≡ some path
    → a ≡ b
load_service_path-injective size a b path p q =
    let e = ((load_service_path-Fits size a path).0 p).2 in
    let f = ((load_service_path-Fits size b path).0 q).2 in
    let g = append-cancel service_dir (47 ∷ a) (47 ∷ b) (sym e ∙ f) in cc
