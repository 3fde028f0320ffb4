-- ===== src/Load/Table/View.antt =====
-- The table as a list of entries, and its operations as operations on lists.
pub mod Lookup
use hail2_repos.Prelude.{
  ℕ, zero, suc, ◌+◌, ◌-◌, ◌≤◌, ◌<◌, ◌≡◌, refl, ap, sym, subst, ◌∙◌, ◌⊎◌, Bool, true, false, none,
  some, List, [], ◌∷◌, ◌++◌, ℤ, eq_ℤ, Text, text_eq, length, leb, ltb, ◌==◌, arith, if◌then◌else◌,
  if_cases, inl, inr, Bool-cases,
}
use hail2_repos.Image.{HsvEntry, HsvTable}
use hail2_repos.Load.Table.{
  find_from, hsv_find, append_entry, memmove, hsv_unregister, find_pid_from, load_child_exit,
  is_found,
}

-- `n` slots from index `i`
pub view_from : ℕ → ℕ → (ℕ → HsvEntry) → List HsvEntry
view_from zero i slot = []
view_from (suc n) i slot = slot i ∷ view_from n (suc i) slot

-- what the table holds
pub entries : HsvTable → List HsvEntry
entries t = view_from t.hsv_count 0 t.slot

-- the operations of the abstract registry
unfoldable pub remove_at : ℕ → List HsvEntry → List HsvEntry
remove_at i [] = []
remove_at zero (e ∷ es) = es
remove_at (suc i) (e ∷ es) = e ∷ remove_at i es

unfoldable pub remove_pid : ℤ → List HsvEntry → List HsvEntry
remove_pid pid [] = []
remove_pid pid (e ∷ es) = if eq_ℤ e.pid pid then es else e ∷ remove_pid pid es

unfoldable pub has_service : Text → List HsvEntry → Bool
has_service path [] = false
has_service path (e ∷ es) = if text_eq e.service path then true else has_service path es

view_from-ext :
    (n i k : ℕ) (f g : ℕ → HsvEntry)
    → ((a b : ℕ) → i ≤ a → a < i + n → a + k ≡ b + i → f a ≡ g b)
    → view_from n i f ≡ view_from n k g
unfolding view_from
view_from-ext zero i k f g h = refl
view_from-ext (suc n) i k f g h = cc (
  h i k (omega arith) (omega arith) (omega arith),
  view_from-ext n (suc i) (suc k) f g
      (λ a b l u e. h a b (omega arith) (omega arith) (omega arith)),
)

view_from-suc :
    (n i m : ℕ) (f : ℕ → HsvEntry) → m ≡ i + n → view_from (suc n) i f ≡ view_from n i f ++ f m ∷ []
unfolding view_from
view_from-suc zero i m f e = let p : m ≡ i = omega arith in rw p
view_from-suc (suc n) i m f e = ap (◌∷◌ (f i)) (view_from-suc n (suc i) m f (omega arith))

length-view_from : (n i : ℕ) (f : ℕ → HsvEntry) → length (view_from n i f) ≡ n
unfolding view_from
length-view_from zero i f = refl
length-view_from (suc n) i f = ap suc (length-view_from n (suc i) f)

pub entries-empty : (slot : ℕ → HsvEntry) → entries (record { slot = slot; hsv_count = 0 }) ≡ []
unfolding entries view_from
entries-empty slot = refl

pub length-entries : (t : HsvTable) → length (entries t) ≡ t.hsv_count
unfolding entries
length-entries t = length-view_from t.hsv_count 0 t.slot

-- An insertion goes to the end.
pub entries-append_entry :
    (t : HsvTable) (e : HsvEntry) → entries (append_entry t e) ≡ entries t ++ e ∷ []
unfolding entries append_entry
entries-append_entry t e =
    let step : (t.hsv_count + 1) ≡ suc t.hsv_count = omega arith in
    let slot' : ℕ → HsvEntry = λ i. if i == t.hsv_count then e else t.slot i in
    rw step (
      view_from-suc t.hsv_count 0 t.hsv_count slot' (omega arith)
      ∙ cc (view_from-ext t.hsv_count 0 0 slot' t.slot (λ a b l u q. ground arith), last))
  where
    last : (if t.hsv_count == t.hsv_count then e else t.slot t.hsv_count) ≡ e
    last = ground arith

-- the slots from `k` on moved down by one
shifted : ℕ → (ℕ → HsvEntry) → ℕ → HsvEntry
shifted k f i = if leb k i then f (suc i) else f i

shifted_above : (f : ℕ → HsvEntry) (k a b : ℕ) → k ≤ a → b ≡ suc a → shifted k f a ≡ f b
unfolding shifted
shifted_above f k a b h e = rw e (ground arith)

view_from-shifted :
    (n k i m : ℕ) (f : ℕ → HsvEntry)
    → k ≤ n
    → m ≡ i + k
    → view_from n i (shifted m f) ≡ remove_at k (view_from (suc n) i f)
unfolding view_from remove_at
view_from-shifted n zero i m f h e =
    view_from-ext n i (suc i) (shifted m f) f
      (λ a b l u q. shifted_above f m a b (omega arith) (omega arith))
view_from-shifted zero (suc k) i m f h e = absurd (omega arith)
view_from-shifted (suc n) (suc k) i m f h e =
    cc (view_from-shifted n k (suc i) m f (omega arith) (omega arith), head)
  where
    head : shifted m f i ≡ f i
    head = unfold shifted in ground arith

memmove-shifted :
    (f : ℕ → HsvEntry) (n i a : ℕ)
    → i < n
    → a < n - 1
    → (if ltb (i + 1) n then memmove i (i + 1) (n - i - 1) f else f) a ≡ shifted i f a
unfolding memmove shifted
memmove-shifted f n i a h u =
    let down : i ≤ a → f (a - i + (i + 1)) ≡ f (suc a) = λ l. ap f (omega arith) in ground arith

-- Over the table as a list of entries, hsv_unregister at an index below the count removes the
-- entry at that index and keeps the others in their order.
pub entries-hsv_unregister :
    (t : HsvTable) (i : ℕ)
    → i < t.hsv_count
    → entries (hsv_unregister i t) ≡ remove_at i (entries t)
unfolding entries hsv_unregister
entries-hsv_unregister t i h =
    let n = t.hsv_count - 1 in
    let count : t.hsv_count ≡ suc n = omega arith in
    let f : ℕ → HsvEntry =
      if ltb (i + 1) t.hsv_count then memmove i (i + 1) (t.hsv_count - i - 1) t.slot else t.slot in
    if_cases
      (λ (u : HsvTable).
        view_from u.hsv_count 0 u.slot ≡ remove_at i (view_from t.hsv_count 0 t.slot))
      (leb t.hsv_count i) (λ b. absurd (ground arith))
      (λ _.
        view_from-ext n 0 0 f (shifted i t.slot) (λ a b l u q.
          let p : a ≡ b = omega arith in
          memmove-shifted t.slot t.hsv_count i a h (omega arith) ∙ ap (shifted i t.slot) p)
        ∙ view_from-shifted n i 0 i t.slot (omega arith) (omega arith)
        ∙ ap (λ k. remove_at i (view_from k 0 t.slot)) (sym count))

is_found-find_from :
    (n i : ℕ) (f : ℕ → HsvEntry) (path : Text)
    → is_found (find_from n i f path) ≡ has_service path (view_from n i f)
unfolding find_from view_from has_service
is_found-find_from zero i f path = refl
is_found-find_from (suc n) i f path = ground (arith, is_found-find_from n (suc i) f path)

-- hsv_find finds an index exactly when the list of entries has one with the path.
pub is_found-hsv_find :
    (t : HsvTable) (path : Text) → is_found (hsv_find t path) ≡ has_service path (entries t)
unfolding hsv_find entries
is_found-hsv_find t path = is_found-find_from t.hsv_count 0 t.slot path

-- the entry that an index search returned
pub find_from_hit :
    (n i : ℕ) (f : ℕ → HsvEntry) (path : Text) {k : ℕ}
    → find_from n i f path ≡ some k
    → (i ≤ k) × (k < i + n) × (text_eq (f k).service path ≡ true)
unfolding find_from
find_from_hit zero i f path h = cc
find_from_hit (suc n) i f path {k} h = elim (Bool-cases (text_eq (f i).service path)) [
  | inl e ↦
      let p : i ≡ k = ground arith in
      (omega arith, omega arith, subst (λ j. text_eq (f j).service path ≡ true) p e)
  | inr e ↦
      let r = find_from_hit n (suc i) f path {k = k} (ground arith) in
      (omega arith, omega arith, r.2)
]

-- Where the search for a pid stops, the list loses its entry.
abbrev PidFound : ℕ → ℕ → (ℕ → HsvEntry) → ℤ → Type 0
PidFound n i f pid =
    ((find_pid_from n i f pid ≡ none) × (remove_pid pid (view_from n i f) ≡ view_from n i f))
    ⊎ ((k : ℕ) × (k < n)
        × (find_pid_from n i f pid ≡ some (i + k))
        × (remove_pid pid (view_from n i f) ≡ remove_at k (view_from n i f)))

PidFound-next :
    (n i : ℕ) (f : ℕ → HsvEntry) (pid : ℤ)
    → eq_ℤ (f i).pid pid ≡ false
    → PidFound n (suc i) f pid
    → PidFound (suc n) i f pid
unfolding find_pid_from view_from remove_pid remove_at
PidFound-next n i f pid e (inl (a, b)) = rw e (inl (a, ap (◌∷◌ (f i)) b))
PidFound-next n i f pid e (inr (k, h, a, b)) =
    rw e (inr (suc k, omega arith, a ∙ ap some (omega arith), ap (◌∷◌ (f i)) b))

find_pid_from-PidFound : (n i : ℕ) (f : ℕ → HsvEntry) (pid : ℤ) → PidFound n i f pid
unfolding find_pid_from view_from remove_pid remove_at
find_pid_from-PidFound zero i f pid = inl (refl, refl)
find_pid_from-PidFound (suc n) i f pid =
    let rest = find_pid_from-PidFound n (suc i) f pid in
    elim (Bool-cases (eq_ℤ (f i).pid pid)) [
      | inl e ↦ rw e (inr (0, omega arith, ap some (omega arith), refl))
      | inr e ↦ PidFound-next n i f pid e rest
    ]

-- Over the table as a list of entries, load_child_exit removes the first entry with the pid, and
-- changes nothing when there is none.
pub entries-load_child_exit :
    (pid : ℤ) (t : HsvTable) → entries (load_child_exit pid t) ≡ remove_pid pid (entries t)
unfolding load_child_exit entries
entries-load_child_exit pid t = elim (find_pid_from-PidFound t.hsv_count 0 t.slot pid) [
  | inl (a, b) ↦ rw a (sym b)
  | inr (k, h, a, b) ↦
      let p : 0 + k ≡ k = omega arith in rw (a, p) (entries-hsv_unregister t k h ∙ sym b)
]
