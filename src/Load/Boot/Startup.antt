-- ===== src/Load/Boot/Startup.antt =====
-- What a pass over the onboot directory leaves behind.
use hail2_repos.Prelude.{
  ℕ, ◌≡◌, refl, ◌∙◌, sym, subst, ◌⊎◌, inl, inr, Bool, true, not, ◌||◌, Option, none, some, List, [],
  ◌∷◌, ℤ, pos, minus_one, is_negative, Text, text_eq, if_cases, Bool-cases, Option-cases,
  if◌then◌else◌,
}
use hail2_repos.Kernel.{is_directory, System, Answer, done, failed, FileKind, M}
use hail2_repos.Image.{Image, HsvTable}
use hail2_repos.Load.Table.{path_max, load_service_path}
use hail2_repos.Load.Table.View.{entries, has_service}
use hail2_repos.Load.Table.Invariant.{IsTable, Grows, Grows-refl, Grows-trans}
use hail2_repos.Load.Services.{load_log, load_start_service}
use hail2_repos.Load.Services.Effects.{
  SameRest, Starts, load_start_service-Starts, load_start_service_refused,
}
use hail2_repos.Load.Boot.{
  is_symlink, refused, entry_target, entry_resolved, entry_seen, entry_link, load_entry,
  load_entries, directory_read, load_directory,
}

abbrev pub is_dots : Text → Bool
is_dots name = text_eq name (46 ∷ []) || text_eq name (46 ∷ 46 ∷ [])

-- The table has a supervisor for the service of that name.
abbrev pub IsListed : Text → HsvTable → Type 0
IsListed name t =
    (path : Text) × (load_service_path path_max (some name) ≡ some path)
    × (has_service path (entries t) ≡ true)

-- One entry of the directory: the table only grows, and 0 is returned only for a listed service.
abbrev pub Loads : {W : Type 0} → Text → Image W → ℤ × Image W → Type 0
Loads name s r =
    SameRest s r.1
    × Grows s.load r.1.load
    × ((is_negative r.0 ≡ true) ⊎ ((is_dots name ≡ true) ⊎ IsListed name r.1.load))

Grows-eq : {t u : HsvTable} → u ≡ t → Grows t u
Grows-eq {t} e = subst (Grows t) (sym e) (Grows-refl t)

Starts-Loads :
    {W : Type 0} (name path : Text) (s : Image W) (r : ℤ × Image W)
    → load_service_path path_max (some name) ≡ some path
    → Starts path s r
    → Loads name s r
Starts-Loads name path s r e (a, inl (z, l, g)) = (a, g, inr (inr (path, e, l)))
Starts-Loads name path s r e (a, inr (z, q)) = (a, Grows-eq q, inl (rw z))

module _ {W : Type 0} (os : System W) where
  refused-Loads : (name m : Text) (level : ℕ) (s : Image W) → Loads name s (refused os m level s)
  unfolding refused load_log
  refused-Loads name m level s = ((refl, refl), Grows-refl s.load, inl refl)

  service-Loads : (name : Text) (s : Image W) → Loads name s (load_start_service os (some name) s)
  service-Loads name s = elim (Option-cases (load_service_path path_max (some name))) [
    | inl e ↦
        let (((a, b), c), z) = load_start_service_refused os (some name) s e in
        ((a, b), Grows-eq c, inl (rw z))
    | inr (path, e) ↦
        Starts-Loads name path s (load_start_service os (some name) s) e
          (load_start_service-Starts os name path s e)
  ]

  entry_target-Loads :
      (name path : Text) (r : Answer FileKind) (s : Image W)
      → Loads name s (entry_target os name path r s)
  unfolding entry_target
  entry_target-Loads name path (failed e) s = refused-Loads name _ _ s
  entry_target-Loads name path (done kind) s =
      if_cases (λ (f : M (Image W) ℤ). Loads name s (f s)) (not (is_directory kind))
        (λ _. refused-Loads name _ _ s) (λ _. service-Loads name s)

  entry_resolved-Loads :
      (name link : Text) (r : Answer Text) (s : Image W)
      → Loads name s (entry_resolved os name link r s)
  unfolding entry_resolved
  entry_resolved-Loads name link (failed e) s = refused-Loads name _ _ s
  entry_resolved-Loads name link (done path) s = entry_target-Loads name path _ _

  entry_seen-Loads :
      (name link : Text) (r : Answer FileKind) (s : Image W)
      → Loads name s (entry_seen os name link r s)
  unfolding entry_seen
  entry_seen-Loads name link (failed e) s = refused-Loads name _ _ s
  entry_seen-Loads name link (done kind) s =
      if_cases (λ (f : M (Image W) ℤ). Loads name s (f s)) (not (is_symlink kind))
        (λ _. refused-Loads name _ _ s) (λ _. entry_resolved-Loads name link _ _)

  entry_link-Loads :
      (name : Text) (link : Option Text) (s : Image W) → Loads name s (entry_link os name link s)
  unfolding entry_link
  entry_link-Loads name none s = refused-Loads name _ _ s
  entry_link-Loads name (some link) s = entry_seen-Loads name link _ _

  load_entry-Loads : (dir name : Text) (s : Image W) → Loads name s (load_entry os dir name s)
  unfolding load_entry
  load_entry-Loads dir name s =
      if_cases (λ (f : M (Image W) ℤ). Loads name s (f s)) (is_dots name)
        (λ y. ((refl, refl), Grows-refl s.load, inr (inl y))) (λ _. entry_link-Loads name _ s)

  -- Every entry but the dots has its service in the table.
  abbrev pub AllListed : List Text → HsvTable → Type 0
  AllListed [] t = Unit {0}
  AllListed (name ∷ names) t = ((is_dots name ≡ true) ⊎ IsListed name t) × AllListed names t

  abbrev pub LoadsAll : List Text → ℤ → Image W → ℤ × Image W → Type 0
  LoadsAll names result s r =
      SameRest s r.1
      × Grows s.load r.1.load
      × ((is_negative r.0 ≡ true) ⊎ ((r.0 ≡ result) × AllListed names r.1.load))

  IsListed-Grows : (name : Text) (t u : HsvTable) → Grows t u → IsListed name t → IsListed name u
  IsListed-Grows name t u g (path, e, l) = (path, e, g.keeps path l)

  IsListed-kept :
      (name : Text) (t u : HsvTable)
      → Grows t u
      → (is_dots name ≡ true) ⊎ IsListed name t
      → (is_dots name ≡ true) ⊎ IsListed name u
  IsListed-kept name t u g (inl d) = inl d
  IsListed-kept name t u g (inr l) = inr (IsListed-Grows name t u g l)

  -- once `result` is -1 it stays so
  result_negative :
      (r result q : ℤ)
      → is_negative r ≡ true
      → q ≡ (if is_negative r then minus_one else result)
      → is_negative q ≡ true
  result_negative r result q n e = rw (e, n)

  LoadsAll-cons :
      (name : Text) (names : List Text) (result r : ℤ) (s s' : Image W) (q : ℤ × Image W)
      → Loads name s (r, s')
      → LoadsAll names (if is_negative r then minus_one else result) s' q
      → LoadsAll (name ∷ names) result s q
  LoadsAll-cons name names result r s s' q ((a, b), g, l) ((a', b'), g', l') = (
    (a' ∙ a, b' ∙ b),
    Grows-trans g g',
    elim l' [
      | inl n ↦ inl n
      | inr (e, all) ↦ elim (Bool-cases (is_negative r)) [
        | inl n ↦ inl (result_negative r result q.0 n e)
        | inr n ↦ elim l [
          | inl n' ↦ inl (result_negative r result q.0 n' e)
          | inr found ↦ inr (e ∙ rw n, (IsListed-kept name s'.load q.1.load g' found, all))
        ]
      ]
    ],
  )

  load_entries-LoadsAll :
      (dir : Text) (names : List Text) (result : ℤ) (s : Image W)
      → LoadsAll names result s (load_entries os dir names result s)
  unfolding load_entries
  load_entries-LoadsAll dir [] result s = ((refl, refl), Grows-refl s.load, inr (refl, tt))
  load_entries-LoadsAll dir (name ∷ names) result s =
      let (r, s') = load_entry os dir name s in
      let result' = if is_negative r then minus_one else result in
      LoadsAll-cons name names result r s s' (load_entries os dir names result' s')
        (load_entry-Loads dir name s) (load_entries-LoadsAll dir names result' s')

  -- For a directory that can be read and a well-formed table, load_directory leaves the table
  -- well formed and the variables of the mode controller and of the signals as before, and it
  -- returns -1, or 0 with a supervisor in the table for every entry other than "." and "..".
  pub load_directory-LoadsAll :
      (dir : Text) (s : Image W) (names : List Text)
      → (os.read_directory dir s.out.world).0 ≡ done names
      → IsTable s.load
      → let r = load_directory os dir s in
        IsTable r.1.load
        × SameRest s r.1
        × ((is_negative r.0 ≡ true) ⊎ ((r.0 ≡ pos 0) × AllListed names r.1.load))
  unfolding load_directory directory_read
  load_directory-LoadsAll dir s names e t = rw e (
      let s' = record s { out = record s.out { world = (os.read_directory dir s.out.world).1 } } in
      let all = load_entries-LoadsAll dir names (pos 0) s' in (all.1.valid t, all.0, all.2))
