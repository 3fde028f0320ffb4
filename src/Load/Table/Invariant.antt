-- ===== src/Load/Table/Invariant.antt =====
-- Well-formedness of the table of load.c, and its operations.
use hail2_repos.Prelude.{
  ℕ, ◌≤◌, ◌<◌, ◌≡◌, refl, ap, ◌∙◌, Bool, true, false, not, ◌&&◌, List, [], ◌∷◌, ◌++◌, ℤ, pos,
  minus_one, is_positive, eq_ℤ, Text, text_eq, text_eq_comm, text_eq_iff, ◌⊎◌, length, ltb, arith,
  if◌then◌else◌, if_cases, Bool-cases, inl, inr,
}
use hail2_repos.Image.{HsvEntry, HsvTable}
use hail2_repos.Load.Table.{max_hsv, path_max, append_entry, hsv_register, load_child_exit}
use hail2_repos.Load.Table.View.{
  entries, entries-empty, remove_pid, has_service, length-entries, entries-append_entry,
  is_found-hsv_find, entries-load_child_exit,
}

-- every supervisor has a pid, its path fits the array, and no service has two
abbrev pub IsValid : List HsvEntry → Type 0
IsValid [] = Unit {0}
IsValid (e ∷ es) =
    (is_positive e.pid ≡ true)
    × (length e.service < path_max)
    × (has_service e.service es ≡ false)
    × IsValid es

pub record IsTable (t : HsvTable) : Type 0 where
  pub bounded : t.hsv_count ≤ max_hsv
  pub valid : IsValid (entries t)

-- a table that counts no entries
pub empty-IsTable : (slot : ℕ → HsvEntry) → IsTable (record { slot = slot; hsv_count = 0 })
empty-IsTable slot = record { bounded = omega arith; valid = rw entries-empty tt }

-- the guards of `hsv_register`
abbrev pub registrable : ℤ → Text → List HsvEntry → Bool
registrable pid path es =
    is_positive pid
    && (ltb (length es) max_hsv && (ltb (length path) path_max && not (has_service path es)))

pub hsv_register-append :
    (pid : ℤ) (path : Text) (t : HsvTable)
    → let new : HsvEntry = record { pid = pid; service = path } in
      ((hsv_register pid path t).0
        ≡ (if registrable pid path (entries t) then pos 0 else minus_one))
      × ((hsv_register pid path t).1
          ≡ (if registrable pid path (entries t) then append_entry t new else t))
unfolding hsv_register
hsv_register-append pid path t = rw (length-entries, ← is_found-hsv_find) (ground arith)

-- hsv_register returns 0 and adds its entry at the end of the list of entries when the pid is
-- positive, the table has fewer than 128 entries, the path fits its array and no entry has that
-- path; else it returns -1 and leaves the list as it was.
pub hsv_register-entries :
    (pid : ℤ) (path : Text) (t : HsvTable)
    → let new : HsvEntry = record { pid = pid; service = path } in
      ((hsv_register pid path t).0
        ≡ (if registrable pid path (entries t) then pos 0 else minus_one))
      × (entries (hsv_register pid path t).1
          ≡ (if registrable pid path (entries t) then entries t ++ new ∷ [] else entries t))
hsv_register-entries pid path t =
    let new : HsvEntry = record { pid = pid; service = path } in
    let (result, table) = hsv_register-append pid path t in
    (
      result,
      ap entries table
          ∙ if_cases
              (λ (u : HsvTable).
                entries u
                ≡ (if registrable pid path (entries t) then entries t ++ new ∷ [] else entries t))
              (registrable pid path (entries t)) (λ y. entries-append_entry t new ∙ rw y refl)
              (λ n. rw n refl),
    )

has_service-append :
    (path : Text) (es : List HsvEntry) (e : HsvEntry)
    → has_service path es ≡ false
    → text_eq e.service path ≡ false
    → has_service path (es ++ e ∷ []) ≡ false
unfolding has_service
has_service-append path [] e h n = rw n
has_service-append path (x ∷ es) e h n = ground (arith, has_service-append path es e)

IsValid-append :
    (es : List HsvEntry) (e : HsvEntry)
    → IsValid es
    → is_positive e.pid ≡ true
    → length e.service < path_max
    → has_service e.service es ≡ false
    → IsValid (es ++ e ∷ [])
unfolding has_service
IsValid-append [] e v p l n = (p, l, refl, tt)
IsValid-append (x ∷ es) e v p l n =
    let other : text_eq x.service e.service ≡ false = ground arith in
    (
      v.0,
      v.1,
      has_service-append x.service es e v.2 (text_eq_comm e.service x.service ∙ other),
      IsValid-append es e v.3 p l (ground arith),
    )

has_service-remove_pid :
    (path : Text) (pid : ℤ) (es : List HsvEntry)
    → has_service path es ≡ false
    → has_service path (remove_pid pid es) ≡ false
unfolding has_service remove_pid
has_service-remove_pid path pid [] h = h
has_service-remove_pid path pid (e ∷ es) h = ground (arith, has_service-remove_pid path pid es)

IsValid-remove_pid : (pid : ℤ) (es : List HsvEntry) → IsValid es → IsValid (remove_pid pid es)
unfolding remove_pid
IsValid-remove_pid pid [] v = tt
IsValid-remove_pid pid (e ∷ es) v = elim (Bool-cases (eq_ℤ e.pid pid)) [
  | inl q ↦ rw q v.3
  | inr q ↦
      rw q (v.0, v.1, has_service-remove_pid e.service pid es v.2, IsValid-remove_pid pid es v.3)
]

length-remove_pid-le : (pid : ℤ) (es : List HsvEntry) → length (remove_pid pid es) ≤ length es
unfolding remove_pid
length-remove_pid-le pid [] = omega arith
length-remove_pid-le pid (e ∷ es) = ground (arith, length-remove_pid-le pid es)

-- load_child_exit keeps the table well formed, whatever pid it is told.
pub load_child_exit-IsTable : (pid : ℤ) (t : HsvTable) → IsTable t → IsTable (load_child_exit pid t)
load_child_exit-IsTable pid t h = record {
  bounded = omega (
    arith,
    h.bounded,
    length-entries (load_child_exit pid t),
    length-entries t,
    ap length (entries-load_child_exit pid t),
    length-remove_pid-le pid (entries t),
  );
  valid = rw entries-load_child_exit (IsValid-remove_pid pid (entries t) h.valid);
}

append_entry-IsTable :
    (pid : ℤ) (path : Text) (t : HsvTable)
    → IsTable t
    → registrable pid path (entries t) ≡ true
    → IsTable (append_entry t (record { pid = pid; service = path }))
append_entry-IsTable pid path t h r = record {
  bounded = unfold append_entry in ground (arith, length-entries t);
  valid =
      rw entries-append_entry
        (IsValid-append (entries t) _ h.valid (ground arith) (ground arith) (ground arith));
}

-- hsv_register keeps the table well formed: at most 128 entries, each with a positive pid and a
-- path shorter than PATH_MAX, and no two with the same path.
pub hsv_register-IsTable :
    (pid : ℤ) (path : Text) (t : HsvTable) → IsTable t → IsTable (hsv_register pid path t).1
hsv_register-IsTable pid path t h = rw ((hsv_register-append pid path t).1) (
    if_cases IsTable (registrable pid path (entries t)) (append_entry-IsTable pid path t h)
      (λ _. h))

-- What may happen to the table while services are started.
pub record Grows (t u : HsvTable) : Type 0 where
  pub keeps :
      (path : Text) → has_service path (entries t) ≡ true → has_service path (entries u) ≡ true
  pub valid : IsTable t → IsTable u

pub Grows-refl : (t : HsvTable) → Grows t t
Grows-refl t = record { keeps = λ path h. h; valid = λ h. h }

pub Grows-trans : {t u v : HsvTable} → Grows t u → Grows u v → Grows t v
Grows-trans g h = record {
  keeps = λ path p. h.keeps path (g.keeps path p);
  valid = λ p. h.valid (g.valid p);
}

has_service-append_old :
    (path : Text) (es : List HsvEntry) (e : HsvEntry)
    → has_service path es ≡ true
    → has_service path (es ++ e ∷ []) ≡ true
unfolding has_service
has_service-append_old path [] e h = cc
has_service-append_old path (x ∷ es) e h = ground (arith, has_service-append_old path es e)

has_service-append_new :
    (es : List HsvEntry) (e : HsvEntry) → has_service e.service (es ++ e ∷ []) ≡ true
unfolding has_service
has_service-append_new [] e = rw ((text_eq_iff e.service e.service).1 refl)
has_service-append_new (x ∷ es) e = ground (arith, has_service-append_new es e)

-- The two ways that hsv_register returns.
pub hsv_register-cases :
    (pid : ℤ) (path : Text) (t : HsvTable)
    → let r = hsv_register pid path t in
      ((r.0 ≡ minus_one) × (r.1 ≡ t))
      ⊎ ((r.0 ≡ pos 0) × Grows t r.1 × (has_service path (entries r.1) ≡ true))
hsv_register-cases pid path t = elim (Bool-cases (registrable pid path (entries t))) [
  | inr n ↦
      inl ((hsv_register-append pid path t).0 ∙ rw n, (hsv_register-append pid path t).1 ∙ rw n)
  | inl y ↦
      let e : HsvEntry = record { pid = pid; service = path } in
      let p : (hsv_register pid path t).1 ≡ append_entry t e =
        (hsv_register-append pid path t).1 ∙ rw y in
      inr (
        (hsv_register-append pid path t).0 ∙ rw y,
        record {
          keeps = λ q h. rw (p, entries-append_entry) (has_service-append_old q (entries t) e h);
          valid = hsv_register-IsTable pid path t;
        },
        rw (p, entries-append_entry) (has_service-append_new (entries t) e),
      )
]
