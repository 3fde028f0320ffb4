-- ===== src/Logger/Lines/Pieces.antt =====
-- What fgets makes of a file.
use hail2_repos.Prelude.{
  ℕ, zero, suc, ◌≤◌, ◌≡◌, refl, ap, ◌⊎◌, inl, inr, false, [], ◌∷◌, ◌++◌, Text, length, has_byte,
  ◌==◌, ==_iff, if_cases, arith,
}
use hail2_repos.Logger.Lines.{fgets}

-- A line with its newline.
abbrev pub IsLine : Text → Type 0
IsLine piece = (line : Text) × (piece ≡ line ++ 10 ∷ []) × (has_byte 10 line ≡ false)

-- A piece of at most `n` bytes, before `rest`: a line, or as many bytes as fit, or the end of the
-- file.
abbrev pub IsPiece : ℕ → Text → Text → Type 0
IsPiece n piece rest =
    (length piece ≤ n)
    × (IsLine piece ⊎ ((has_byte 10 piece ≡ false) × ((length piece ≡ n) ⊎ (rest ≡ []))))

IsPiece-cons :
    (n c : ℕ) (piece rest : Text)
    → (c == 10) ≡ false
    → IsPiece n piece rest
    → IsPiece (suc n) (c ∷ piece) rest
IsPiece-cons n c piece rest h (a, inl (line, e, b)) =
    (omega (arith, a), inl (c ∷ line, ap (λ (t : Text). c ∷ t) e, rw h b))
IsPiece-cons n c piece rest h (a, inr (b, inl k)) =
    (omega (arith, a), inr (rw h b, inl (omega (arith, k))))
IsPiece-cons n c piece rest h (a, inr (b, inr k)) = (omega (arith, a), inr (rw h b, inr k))

pub fgets-IsPiece :
    (n : ℕ) (content : Text)
    → ((fgets n content).0 ++ (fgets n content).1 ≡ content)
      × IsPiece n (fgets n content).0 (fgets n content).1
unfolding fgets
fgets-IsPiece zero content = (refl, (omega arith, inr (refl, inl refl)))
fgets-IsPiece (suc n) [] = (refl, (omega arith, inr (refl, inr refl)))
fgets-IsPiece (suc n) (c ∷ cs) =
    let (whole, piece) = fgets-IsPiece n cs in
    if_cases (λ (r : Text × Text). (r.0 ++ r.1 ≡ c ∷ cs) × IsPiece (suc n) r.0 r.1) (c == 10)
      (λ t. (refl, (omega arith, inl ([], ap (λ (d : ℕ). d ∷ []) ((==_iff c 10).0 t), refl))))
      (λ t.
        (ap (λ (s : Text). c ∷ s) whole, IsPiece-cons n c (fgets n cs).0 (fgets n cs).1 t piece))

fgets-shorter : (n : ℕ) (content : Text) → length (fgets n content).1 ≤ length content
unfolding fgets
fgets-shorter zero content = omega arith
fgets-shorter (suc n) [] = omega arith
fgets-shorter (suc n) (c ∷ cs) =
    let rest = fgets-shorter n cs in
    if_cases (λ (r : Text × Text). length r.1 ≤ suc (length cs)) (c == 10) (λ _. omega arith)
      (λ _. omega (arith, rest))

-- It reads something before the end of the file.
pub fgets-progress : (n c : ℕ) (cs : Text) → length (fgets (suc n) (c ∷ cs)).1 ≤ length cs
unfolding fgets
fgets-progress n c cs =
    if_cases (λ (r : Text × Text). length r.1 ≤ length cs) (c == 10) (λ _. omega arith)
      (λ _. fgets-shorter n cs)
