-- ===== src/Logger/Lines/Shown.antt =====
-- The kept lines as a list, and the newest of a list.
use hail2_repos.Prelude.{
  ℕ, zero, suc, ◌+◌, ◌-◌, ◌≤◌, ◌<◌, ◌≡◌, refl, sym, ap, ◌∙◌, List, [], ◌∷◌, ◌++◌, Text, length,
  length-append, drop, ==_self, arith,
}
use hail2_repos.Logger.Lines.{set_line}

-- the first `n` lines, in order
pub shown : ℕ → (ℕ → Text) → List Text
shown zero slot = []
shown (suc n) slot = shown n slot ++ slot n ∷ []

-- the last `n` elements
abbrev pub newest : ℕ → List Text → List Text
newest n xs = drop (length xs - n) xs

pub length-shown : (n : ℕ) (slot : ℕ → Text) → length (shown n slot) ≡ n
unfolding shown
length-shown zero slot = refl
length-shown (suc n) slot =
    omega (arith, length-append (shown n slot) (slot n ∷ []), length-shown n slot)

-- It reads no other line.
pub shown-ext :
    (n : ℕ) (slot other : ℕ → Text)
    → ((i : ℕ) → i < n → slot i ≡ other i)
    → shown n slot ≡ shown n other
unfolding shown
shown-ext zero slot other h = refl
shown-ext (suc n) slot other h =
    rw (shown-ext n slot other λ i k. h i (omega (arith, k)), h n (omega arith)) refl

set_line-same : (n : ℕ) (line : Text) (slot : ℕ → Text) → set_line n line slot n ≡ line
unfolding set_line
set_line-same n line slot = rw (==_self n) refl

set_line-other : (n i : ℕ) (line : Text) (slot : ℕ → Text) → i < n → set_line n line slot i ≡ slot i
unfolding set_line
set_line-other n i line slot h = ground (arith, h)

pub shown-set_line :
    (n : ℕ) (line : Text) (slot : ℕ → Text)
    → shown (suc n) (set_line n line slot) ≡ shown n slot ++ line ∷ []
unfolding shown
shown-set_line n line slot =
    rw
      (
        shown-ext n (set_line n line slot) slot λ i k. set_line-other n i line slot k,
        set_line-same n line slot,
      )
      refl

-- the first line, and the others
pub shown-front :
    (n : ℕ) (slot : ℕ → Text) → shown (suc n) slot ≡ slot 0 ∷ shown n (λ i. slot (i + 1))
unfolding shown
shown-front zero slot = refl
shown-front (suc n) slot = let e : n + 1 ≡ suc n = omega arith in rw (shown-front n slot, e) refl

-- a line after the newest ones
pub newest-append :
    (n : ℕ) (xs : List Text) (x : Text)
    → length xs ≤ n
    → newest (suc n) (xs ++ x ∷ []) ≡ xs ++ x ∷ []
newest-append n xs x h =
    let e : length (xs ++ x ∷ []) - suc n ≡ 0 = omega (arith, h, length-append xs (x ∷ [])) in
    rw e refl

length-drop : (n : ℕ) (xs : List Text) → length (drop n xs) ≡ length xs - n
length-drop zero xs = omega arith
length-drop (suc n) [] = omega arith
length-drop (suc n) (x ∷ xs) = omega (arith, length-drop n xs)

drop-append : (n : ℕ) (xs ys : List Text) → n ≤ length xs → drop n (xs ++ ys) ≡ drop n xs ++ ys
drop-append zero xs ys h = refl
drop-append (suc n) [] ys h = absurd (omega (arith, h))
drop-append (suc n) (x ∷ xs) ys h = drop-append n xs ys (omega (arith, h))

drop-nothing : (n : ℕ) → drop {A = Text} n [] ≡ []
drop-nothing zero = refl
drop-nothing (suc n) = refl

drop-drop : (m n : ℕ) (xs : List Text) → drop m (drop n xs) ≡ drop (n + m) xs
drop-drop m zero xs = let e : 0 + m ≡ m = omega arith in rw e refl
drop-drop m (suc n) [] = let e : suc n + m ≡ suc (n + m) = omega arith in rw e (drop-nothing m)
drop-drop m (suc n) (x ∷ xs) =
    let e : suc n + m ≡ suc (n + m) = omega arith in rw e (drop-drop m n xs)

-- What was forgotten before does not matter.
pub newest-newest : (n : ℕ) (xs ys : List Text) → newest n (newest n xs ++ ys) ≡ newest n (xs ++ ys)
newest-newest n xs ys =
    let k = length xs - n in
    let m = length (drop k xs ++ ys) - n in
    let e : k + m ≡ length (xs ++ ys) - n =
      omega (arith, length-drop k xs, length-append (drop k xs) ys, length-append xs ys) in
    ap (λ (l : List Text). drop m l) (sym (drop-append k xs ys (omega arith)))
    ∙ drop-drop m k (xs ++ ys)
    ∙ ap (λ (j : ℕ). drop j (xs ++ ys)) e

pub newest-all : (n : ℕ) (xs : List Text) → length xs ≤ n → newest n xs ≡ xs
newest-all n xs h = let e : length xs - n ≡ 0 = omega (arith, h) in rw e refl

-- a line that pushes out the oldest
pub newest-full :
    (n : ℕ) (x y : Text) (xs : List Text)
    → length xs ≡ n
    → newest (suc n) ((y ∷ xs) ++ x ∷ []) ≡ xs ++ x ∷ []
newest-full n x y xs h =
    let e : suc (length (xs ++ x ∷ [])) - suc n ≡ 1 = omega (arith, h, length-append xs (x ∷ [])) in
    rw e refl
