-- ===== src/Load/Table/View/Lookup.antt =====
-- The pid of a service, over the table as a list.
use hail2_repos.Prelude.{
  ℕ, zero, suc, ◌≡◌, refl, Option, none, some, List, [], ◌∷◌, ℤ, Text, text_eq, Bool-cases,
  if◌then◌else◌, inl, inr,
}
use hail2_repos.Image.{HsvEntry, HsvTable}
use hail2_repos.Load.Table.{find_from, hsv_find}
use hail2_repos.Load.Table.View.{view_from, entries}

-- the pid of the first entry with that path
pub service_pid : Text → List HsvEntry → Option ℤ
service_pid path [] = none
service_pid path (e ∷ es) = if text_eq e.service path then some e.pid else service_pid path es

-- what an index search found, as a pid
abbrev pub pid_at : (ℕ → HsvEntry) → Option ℕ → Option ℤ
pid_at slot none = none
pid_at slot (some i) = some (slot i).pid

pid_at-find_from :
    (n i : ℕ) (f : ℕ → HsvEntry) (path : Text)
    → pid_at f (find_from n i f path) ≡ service_pid path (view_from n i f)
unfolding find_from view_from service_pid
pid_at-find_from zero i f path = refl
pid_at-find_from (suc n) i f path =
    let rest = pid_at-find_from n (suc i) f path in
    elim (Bool-cases (text_eq (f i).service path)) [ inl e ↦ rw e | inr e ↦ rw e rest ]

-- hsv_find leads to the pid of the first entry with the path.
pub pid_at-hsv_find :
    (t : HsvTable) (path : Text) → pid_at t.slot (hsv_find t path) ≡ service_pid path (entries t)
unfolding hsv_find entries
pid_at-hsv_find t path = pid_at-find_from t.hsv_count 0 t.slot path

-- the index of the first entry with that path, counted from `i`
abbrev pub index_of : Text → ℕ → List HsvEntry → Option ℕ
index_of path i [] = none
index_of path i (e ∷ es) =
    let rest = index_of path (suc i) es in if text_eq e.service path then some i else rest

find_from-index_of :
    (n i : ℕ) (f : ℕ → HsvEntry) (path : Text)
    → find_from n i f path ≡ index_of path i (view_from n i f)
unfolding find_from view_from
find_from-index_of zero i f path = refl
find_from-index_of (suc n) i f path = rw (find_from-index_of n (suc i) f path) refl

-- hsv_find gives the index of the first entry of the table that has the path, and none when
-- there is no such entry.
pub hsv_find-index_of : (t : HsvTable) (path : Text) → hsv_find t path ≡ index_of path 0 (entries t)
unfolding hsv_find entries
hsv_find-index_of t path = find_from-index_of t.hsv_count 0 t.slot path
