-- ===== src/Logger/Lines/Trimming.antt =====
-- What logger_trim_newline leaves of a line.
use hail2_repos.Prelude.{
  ℕ, zero, suc, ◌≤◌, ◌≡◌, refl, sym, ap, ◌∙◌, Bool, true, false, ◌||◌, ◌&&◌, [], ◌∷◌, ◌++◌, Text,
  c_string, length, take, ◌==◌, if◌then◌else◌, if_cases, arith,
}
use hail2_repos.Logger.Lines.{byte_at, trim_from, logger_trim_newline}

abbrev pub is_nothing : Text → Bool
is_nothing [] = true
is_nothing (c ∷ cs) = false

-- a text without the line feeds and carriage returns at its end
abbrev pub trimmed : Text → Text
trimmed [] = []
trimmed (c ∷ cs) =
    let rest = trimmed cs in if (c == 10 || c == 13) && is_nothing rest then [] else c ∷ rest

is_nothing-snoc : (xs : Text) (c : ℕ) → is_nothing (xs ++ c ∷ []) ≡ false
is_nothing-snoc [] c = refl
is_nothing-snoc (x ∷ xs) c = refl

trimmed-end :
    (xs : Text) (c : ℕ) → (c == 10 || c == 13) ≡ true → trimmed (xs ++ c ∷ []) ≡ trimmed xs
trimmed-end [] c h = rw h refl
trimmed-end (x ∷ xs) c h = rw (trimmed-end xs c h) refl

trimmed-body :
    (xs : Text) (c : ℕ) → (c == 10 || c == 13) ≡ false → trimmed (xs ++ c ∷ []) ≡ xs ++ c ∷ []
trimmed-body [] c h = rw h refl
trimmed-body (x ∷ xs) c h =
    rw (trimmed-body xs c h, is_nothing-snoc xs c)
      (if_cases (λ (t : Text). t ≡ x ∷ (xs ++ c ∷ [])) ((x == 10 || x == 13) && false)
        (λ e. absurd (ground arith)) (λ _. refl))

take-suc :
    (n : ℕ) (line : Text)
    → suc n ≤ length line
    → take (suc n) line ≡ take n line ++ byte_at n line ∷ []
take-suc n [] h = absurd (omega (arith, h))
take-suc zero (c ∷ cs) h = refl
take-suc (suc n) (c ∷ cs) h = ap (λ (t : Text). c ∷ t) (take-suc n cs (omega (arith, h)))

trim_from-trimmed :
    (n : ℕ) (line : Text) → n ≤ length line → trim_from n line ≡ trimmed (take n line)
unfolding trim_from
trim_from-trimmed zero line h = refl
trim_from-trimmed (suc n) line h =
    let c = byte_at n line in
    rw (take-suc n line h) (
      if_cases (λ (t : Text). t ≡ trimmed (take n line ++ c ∷ [])) (c == 10 || c == 13)
        (λ e. trim_from-trimmed n line (omega (arith, h)) ∙ sym (trimmed-end (take n line) c e))
        (λ e. sym (trimmed-body (take n line) c e)))

c_string-take :
    (line : Text)
    → (length (c_string line) ≤ length line) × (take (length (c_string line)) line ≡ c_string line)
c_string-take [] = (omega arith, refl)
c_string-take (c ∷ cs) =
    let (short, same) = c_string-take cs in
    if_cases (λ (t : Text). (length t ≤ suc (length cs)) × (take (length t) (c ∷ cs) ≡ t)) (c == 0)
      (λ _. (omega arith, refl)) (λ _. (omega (arith, short), ap (λ (t : Text). c ∷ t) same))

-- logger_trim_newline leaves the string in the buffer without the line ends at its end.
pub logger_trim_newline-trimmed : (line : Text) → logger_trim_newline line ≡ trimmed (c_string line)
unfolding logger_trim_newline
logger_trim_newline-trimmed line =
    let (short, same) = c_string-take line in
    trim_from-trimmed (length (c_string line)) line short ∙ ap trimmed same
