-- ===== src/Load/Boot/Links.antt =====
-- load_enable_service and load_disable_service.
use hail2_repos.Prelude.{
  joined, fitted, ℕ, ◌≡◌, ◌≢◌, refl, ap, ◌∙◌, true, false, ==_iff, ne_of_test, ◌⊎◌, inl, inr, not,
  Option, some, List, [], ◌∷◌, ◌++◌, ℤ, pos, minus_one, Text, codes, length, leb, has_byte, ◌==◌,
  if_cases,
}
use hail2_repos.Kernel.{
  is_directory, System, Answer, done, failed, FileKind, M, Event, linked, unlinked,
}
use hail2_repos.Kernel.Errno.{enoent}
use hail2_repos.Log.{log_level_warn, log_level_critical}
use hail2_repos.Log.Effects.{trace-say}
use hail2_repos.Image.{Image}
use hail2_repos.Load.Table.{path_max, load_service_path}
use hail2_repos.Load.Services.{load_log}
use hail2_repos.Load.Services.Effects.{Outward}
use hail2_repos.Load.Boot.{
  onboot_dir, refused, symlink_made, make_symlink, old_unlinked, enable_link, enable_found,
  enable_at, load_enable_service, link_removed, disable_link, load_disable_service,
}

-- An old link may be removed; then 0 is returned exactly when the new one is made.
abbrev pub Enables : {W : Type 0} → Text → Text → List Event → Image W → ℤ × Image W → Type 0
Enables path link mid s r =
    Outward s r.1
    × (((r.0 ≡ minus_one) × (r.1.out.trace ≡ mid))
        ⊎ ((r.0 ≡ pos 0) × (r.1.out.trace ≡ linked path link ∷ mid)))

-- With or without the removal of an old link.
abbrev pub Replaces : {W : Type 0} → Text → Text → Image W → ℤ × Image W → Type 0
Replaces path link s r =
    Enables path link s.out.trace s r ⊎ Enables path link (unlinked link ∷ s.out.trace) s r

-- The name is refused: it is empty, has a slash, or its link is too long or could not be unlinked.
abbrev pub Undisabled : {W : Type 0} → System W → Text → Type 0
Undisabled {W} os name =
    (name ≡ [])
    ⊎ ((has_byte 47 name ≡ true)
        ⊎ ((leb path_max (length (joined onboot_dir name)) ≡ true)
            ⊎ ((e : ℕ) × (w : W) × ((os.unlink (joined onboot_dir name) w).0 ≡ failed e)
                × (e ≢ enoent))))

-- The link is removed, or unlink says that it is not there, or the name is refused.
abbrev pub Disables : {W : Type 0} → System W → Text → Image W → ℤ × Image W → Type 0
Disables {W} os name s r =
    Outward s r.1
    × (((r.0 ≡ minus_one) × (r.1.out.trace ≡ s.out.trace) × Undisabled os name)
        ⊎ ((r.0 ≡ pos 0)
            × (has_byte 47 name ≡ false)
            × (((w : W) × ((os.unlink (joined onboot_dir name) w).0 ≡ failed enoent)
                  × (r.1.out.trace ≡ s.out.trace))
                ⊎ ((w : W) × ((os.unlink (joined onboot_dir name) w).0 ≡ done tt)
                    × (r.1.out.trace ≡ unlinked (joined onboot_dir name) ∷ s.out.trace)))))

module _ {W : Type 0} (os : System W) where
  refused-Enables :
      (path link m : Text) (level : ℕ) (s : Image W)
      → Enables path link s.out.trace s (refused os m level s)
  unfolding refused load_log
  refused-Enables path link m level s = (((refl, refl), refl), inl (refl, trace-say os _ _ _ s.out))

  refused-Disables :
      (name m : Text) (level : ℕ) (s : Image W)
      → Undisabled os name
      → Disables os name s (refused os m level s)
  unfolding refused load_log
  refused-Disables name m level s h =
      (((refl, refl), refl), inl (refl, trace-say os _ _ _ s.out, h))

  symlink_made-Enables :
      (name path link : Text) (a : Answer (Unit {0})) (s : Image W)
      → Enables path link s.out.trace s (symlink_made os name path link a s)
  unfolding symlink_made load_log
  symlink_made-Enables name path link (failed e) s =
      refused-Enables path link
        (codes "CANNOT ENABLE SERVICE " ++ (name ++ (codes ": " ++ os.strerror e)))
        log_level_critical s
  symlink_made-Enables name path link (done _) s =
      (((refl, refl), refl), inr (refl, trace-say os _ _ _ _))

  make_symlink-Enables :
      (name path link : Text) (s : Image W)
      → Enables path link s.out.trace s (make_symlink os name path link s)
  unfolding make_symlink
  make_symlink-Enables name path link s =
      symlink_made-Enables name path link _
        (record s { out = record s.out { world = (os.symlink path link s.out.world).1 } })

  old_unlinked-Replaces :
      (name path link : Text) (a : Answer (Unit {0})) (s : Image W)
      → Replaces path link s (old_unlinked os name path link a s)
  unfolding old_unlinked
  old_unlinked-Replaces name path link (done _) s = inr (
      make_symlink-Enables name path link
        (record s { out = record s.out { trace = unlinked link ∷ s.out.trace } }))
  old_unlinked-Replaces name path link (failed e) s =
      if_cases (λ (f : M (Image W) ℤ). Replaces path link s (f s)) (e == enoent)
        (λ _. inl (make_symlink-Enables name path link s))
        (λ _. inl (
          refused-Enables path link
            (codes "CANNOT REPLACE ENABLE LINK FOR " ++ (name ++ (codes ": " ++ os.strerror e)))
            log_level_critical s))

  enable_link-Replaces :
      (name path text : Text) (s : Image W)
      → Replaces path text s (enable_link os name path (fitted path_max text) s)
  unfolding enable_link
  enable_link-Replaces name path text s =
      if_cases (λ (o : Option Text). Replaces path text s (enable_link os name path o s))
        (leb path_max (length text))
        (λ _. inl (refused-Enables path text (codes "ONBOOT LINK PATH TOO LONG") log_level_warn s))
        (λ _.
          old_unlinked-Replaces name path text _
            (record s { out = record s.out { world = (os.unlink text s.out.world).1 } }))

  enable_found-Replaces :
      (name path : Text) (a : Answer FileKind) (s : Image W)
      → Replaces path (joined onboot_dir name) s (enable_found os name path a s)
  unfolding enable_found
  enable_found-Replaces name path (failed e) s = inl (
      refused-Enables path (joined onboot_dir name)
        (codes "SERVICE " ++ (name ++ (codes " DOES NOT EXIST: " ++ os.strerror e))) log_level_warn
        s)
  enable_found-Replaces name path (done kind) s =
      if_cases (λ (f : M (Image W) ℤ). Replaces path (joined onboot_dir name) s (f s))
        (not (is_directory kind))
        (λ _. inl (
          refused-Enables path (joined onboot_dir name)
            (codes "SERVICE " ++ (name ++ codes " IS NOT A DIRECTORY")) log_level_warn s))
        (λ _. enable_link-Replaces name path (joined onboot_dir name) s)

  enable_at-Replaces :
      (name path : Text) (s : Image W)
      → Replaces path (joined onboot_dir name) s (enable_at os name (some path) s)
  unfolding enable_at
  enable_at-Replaces name path s =
      enable_found-Replaces name path _
        (record s { out = record s.out { world = (os.stat path s.out.world).1 } })

  -- For a name that load_service_path accepts, load_enable_service does no more to the file
  -- system than to unlink the service's name in the onboot directory and then to link it to the
  -- service's directory; it returns 0 when that link is made and -1 when it is not, and the
  -- variables of the program, but for those of the log, are as before.
  pub load_enable_service-Replaces :
      (name path : Text) (s : Image W)
      → load_service_path path_max (some name) ≡ some path
      → Replaces path (joined onboot_dir name) s (load_enable_service os (some name) s)
  unfolding load_enable_service
  load_enable_service-Replaces name path s e = rw e (enable_at-Replaces name path s)

  link_removed-Disables :
      (name : Text) (a : Answer (Unit {0})) (w : W) (s : Image W)
      → (os.unlink (joined onboot_dir name) w).0 ≡ a
      → has_byte 47 name ≡ false
      → Disables os name s (link_removed os name (joined onboot_dir name) a s)
  unfolding link_removed load_log
  link_removed-Disables name (done _) w s h n =
      (((refl, refl), refl), inr (refl, n, inr (w, h, trace-say os _ _ _ _)))
  link_removed-Disables name (failed e) w s h n =
      if_cases (λ (f : M (Image W) ℤ). Disables os name s (f s)) (e == enoent)
        (λ t. (
          ((refl, refl), refl),
          inr (refl, n, inl (w, h ∙ ap failed ((==_iff e enoent).0 t), refl)),
        ))
        (λ t.
          refused-Disables name
            (codes "CANNOT DISABLE SERVICE " ++ (name ++ (codes ": " ++ os.strerror e)))
            log_level_critical s (inr (inr (inr (e, w, h, ne_of_test e enoent t)))))

  disable_link-Disables :
      (name : Text) (s : Image W)
      → has_byte 47 name ≡ false
      → Disables os name s (disable_link os name (fitted path_max (joined onboot_dir name)) s)
  unfolding disable_link
  disable_link-Disables name s n =
      let link = joined onboot_dir name in
      if_cases (λ (o : Option Text). Disables os name s (disable_link os name o s))
        (leb path_max (length link))
        (λ t.
          refused-Disables name (codes "ONBOOT DISABLE LINK PATH TOO LONG") log_level_warn s
            (inr (inr (inl t))))
        (λ _.
          link_removed-Disables name (os.unlink link s.out.world).0 s.out.world
            (record s { out = record s.out { world = (os.unlink link s.out.world).1 } }) refl n)

  -- For every name, load_disable_service returns 0 only when the name has no slash and unlink of
  -- that name in the onboot directory succeeded or said ENOENT, and -1 only when the name is
  -- refused or unlink failed otherwise; that one unlink is all it does to the file system, and
  -- the variables of the program, but for those of the log, are as before.
  pub load_disable_service-Disables :
      (name : Text) (s : Image W) → Disables os name s (load_disable_service os (some name) s)
  unfolding load_disable_service
  load_disable_service-Disables [] s = refused-Disables [] _ log_level_warn s (inl refl)
  load_disable_service-Disables (c ∷ cs) s =
      if_cases (λ (f : M (Image W) ℤ). Disables os (c ∷ cs) s (f s)) (has_byte 47 (c ∷ cs))
        (λ t. refused-Disables (c ∷ cs) _ log_level_warn s (inr (inl t)))
        (disable_link-Disables (c ∷ cs) s)
