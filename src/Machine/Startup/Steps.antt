-- ===== src/Machine/Startup/Steps.antt =====
-- The directories and mounts that sysload_prepare makes, in their order.
use hail2_repos.Prelude.{
  ℕ, ◌≡◌, ◌≢◌, refl, ◌∙◌, ap, ◌⊎◌, inl, inr, true, false, not, Option, List, [], ◌∷◌, ◌++◌, ℤ, pos,
  minus_one, Text, ◌==◌, ==_iff, not-false, not-true, ne_of_test, if_cases,
}
use hail2_repos.Kernel.{
  System, Answer, done, failed, FileKind, M, is_directory, Event, made_directory, mounted, Out,
}
use hail2_repos.Kernel.Errno.{eexist, ebusy}
use hail2_repos.Machine.Startup.{
  check, mkdir_existing, mkdir_answered, sysload_mkdir, mount_answered, mount_checked, mount_point,
}

-- The kernel says that what the step makes is there already.
pub data InPlace {W : Type 0} (os : System W) : Event → Type 0 where
  existing :
      (path : Text) (mode : ℕ) (w v : W) (kind : FileKind)
      → (os.mkdir path mode w).0 ≡ failed eexist
      → (os.stat path v).0 ≡ done kind
      → is_directory kind ≡ true
      → InPlace os (made_directory path)
  busy :
      (source target type : Text) (options : Option Text) (w : W)
      → (os.mount source target type options w).0 ≡ failed ebusy
      → InPlace os (mounted target)

-- A call that the step needs has failed, and the kernel does not say that it is there already.
pub data Refused {W : Type 0} (os : System W) : Event → Type 0 where
  not_made :
      (path : Text) (mode e : ℕ) (w : W)
      → (os.mkdir path mode w).0 ≡ failed e
      → e ≢ eexist
      → Refused os (made_directory path)
  not_seen :
      (path : Text) (mode e : ℕ) (w v : W)
      → (os.mkdir path mode w).0 ≡ failed eexist
      → (os.stat path v).0 ≡ failed e
      → Refused os (made_directory path)
  no_directory :
      (path : Text) (mode : ℕ) (w v : W) (kind : FileKind)
      → (os.mkdir path mode w).0 ≡ failed eexist
      → (os.stat path v).0 ≡ done kind
      → is_directory kind ≡ false
      → Refused os (made_directory path)
  not_mounted :
      (source target type : Text) (options : Option Text) (e : ℕ) (w : W)
      → (os.mount source target type options w).0 ≡ failed e
      → e ≢ ebusy
      → Refused os (mounted target)

-- Every step was done, or was found done, in order.
abbrev pub Through : {W : Type 0} → System W → List Event → List Event → List Event → Type 0
Through os [] old new = new ≡ old
Through os (e ∷ steps) old new =
    Through os steps (e ∷ old) new ⊎ (InPlace os e × Through os steps old new)

-- The steps stopped before one of them, which was refused.
abbrev pub Stopped : {W : Type 0} → System W → List Event → List Event → List Event → Type 0
Stopped os [] old new = ⊥
Stopped os (e ∷ steps) old new =
    (Refused os e × (new ≡ old))
    ⊎ (Stopped os steps (e ∷ old) new ⊎ (InPlace os e × Stopped os steps old new))

abbrev pub Does : {W : Type 0} → System W → List Event → List Event → ℤ → List Event → Type 0
Does os steps old result new =
    ((result ≡ pos 0) × Through os steps old new)
    ⊎ ((result ≡ minus_one) × Stopped os steps old new)

module _ {W : Type 0} (os : System W) where
  pub Through-trans :
      (es fs a b c : List Event) → Through os es a b → Through os fs b c → Through os (es ++ fs) a c
  Through-trans [] fs a b c h k = rw h at k
  Through-trans (e ∷ es) fs a b c (inl h) k = inl (Through-trans es fs (e ∷ a) b c h k)
  Through-trans (e ∷ es) fs a b c (inr h) k = inr (h.0, Through-trans es fs a b c h.1 k)

  pub Stopped-later : (es fs a b : List Event) → Stopped os es a b → Stopped os (es ++ fs) a b
  Stopped-later [] fs a b x = absurd x
  Stopped-later (e ∷ es) fs a b (inl h) = inl h
  Stopped-later (e ∷ es) fs a b (inr (inl h)) = inr (inl (Stopped-later es fs (e ∷ a) b h))
  Stopped-later (e ∷ es) fs a b (inr (inr h)) = inr (inr (h.0, Stopped-later es fs a b h.1))

  pub Stopped-after :
      (es fs a b c : List Event) → Through os es a b → Stopped os fs b c → Stopped os (es ++ fs) a c
  Stopped-after [] fs a b c h k = rw h at k
  Stopped-after (e ∷ es) fs a b c (inl h) k = inr (inl (Stopped-after es fs (e ∷ a) b c h k))
  Stopped-after (e ∷ es) fs a b c (inr h) k = inr (inr (h.0, Stopped-after es fs a b c h.1 k))

  pub check-Does :
      (es fs : List Event) (m k : M (Out W) ℤ) (o : Out W)
      → Does os es o.trace (m o).0 (m o).1.trace
      → ((u : Out W) → Does os fs u.trace (k u).0 (k u).1.trace)
      → Does os (es ++ fs) o.trace (check m k o).0 (check m k o).1.trace
  unfolding check
  check-Does es fs m k o (inl h) f =
      let u = (m o).1 in
      rw h.0 (elim (f u) [
        | inl g ↦ inl (g.0, Through-trans es fs o.trace u.trace (k u).1.trace h.1 g.1)
        | inr g ↦ inr (g.0, Stopped-after es fs o.trace u.trace (k u).1.trace h.1 g.1)
      ])
  check-Does es fs m k o (inr h) f =
      rw h.0 (inr (refl, Stopped-later es fs o.trace (m o).1.trace h.1))

  mkdir_existing-result :
      (path : Text) (mode : ℕ) (w v : W) (r : Answer FileKind) (o : Out W)
      → (os.mkdir path mode w).0 ≡ failed eexist
      → (os.stat path v).0 ≡ r
      → let q = mkdir_existing os path r o in
        Does os (made_directory path ∷ []) o.trace q.0 q.1.trace
  unfolding mkdir_existing
  mkdir_existing-result path mode w v (failed e) o h k =
      inr (refl, inl (not_seen path mode e w v h k, refl))
  mkdir_existing-result path mode w v (done kind) o h k =
      if_cases
        (λ (m : M (Out W) ℤ). Does os (made_directory path ∷ []) o.trace (m o).0 (m o).1.trace)
        (not (is_directory kind))
        (λ t.
          inr (
            refl,
            inl (no_directory path mode w v kind h k (not-true (is_directory kind) t), refl),
          ))
        (λ t.
          inl (refl, inr (existing path mode w v kind h k (not-false (is_directory kind) t), refl)))

  mkdir_answered-Does :
      (path : Text) (mode : ℕ) (w : W) (r : Answer (Unit {0})) (o : Out W)
      → (os.mkdir path mode w).0 ≡ r
      → let q = mkdir_answered os path r o in
        Does os (made_directory path ∷ []) o.trace q.0 q.1.trace
  unfolding mkdir_answered
  mkdir_answered-Does path mode w (done _) o h = inl (refl, inl refl)
  mkdir_answered-Does path mode w (failed e) o h =
      if_cases
        (λ (m : M (Out W) ℤ). Does os (made_directory path ∷ []) o.trace (m o).0 (m o).1.trace)
        (not (e == eexist))
        (λ t. inr (
          refl,
          inl (not_made path mode e w h (ne_of_test e eexist (not-true (e == eexist) t)), refl),
        ))
        (λ t.
          mkdir_existing-result path mode w o.world (os.stat path o.world).0
            (record o { world = (os.stat path o.world).1 })
            (h ∙ ap failed ((==_iff e eexist).0 (not-false (e == eexist) t))) refl)

  pub sysload_mkdir-Does :
      (path : Text) (mode : ℕ) (o : Out W)
      → let q = sysload_mkdir os path mode o in
        Does os (made_directory path ∷ []) o.trace q.0 q.1.trace
  unfolding sysload_mkdir
  sysload_mkdir-Does path mode o =
      mkdir_answered-Does path mode o.world (os.mkdir path mode o.world).0
        (record o { world = (os.mkdir path mode o.world).1 }) refl

  mount_answered-Does :
      (source target type : Text) (options : Option Text) (w : W) (r : Answer (Unit {0}))
      (o : Out W)
      → (os.mount source target type options w).0 ≡ r
      → let q = mount_answered os target r o in Does os (mounted target ∷ []) o.trace q.0 q.1.trace
  unfolding mount_answered
  mount_answered-Does source target type options w (done _) o h = inl (refl, inl refl)
  mount_answered-Does source target type options w (failed e) o h =
      if_cases (λ (m : M (Out W) ℤ). Does os (mounted target ∷ []) o.trace (m o).0 (m o).1.trace)
        (not (e == ebusy))
        (λ t. inr (
          refl,
          inl (
            not_mounted source target type options e w h
                (ne_of_test e ebusy (not-true (e == ebusy) t)),
            refl,
          ),
        ))
        (λ t. inl (
          refl,
          inr (
            busy source target type options w
                (h ∙ ap failed ((==_iff e ebusy).0 (not-false (e == ebusy) t))),
            refl,
          ),
        ))

  pub mount_point-Does :
      (target : Text) (mode : ℕ) (type : Text) (options : Option Text) (o : Out W)
      → let q = mount_point os target mode type options o in
        Does os (made_directory target ∷ mounted target ∷ []) o.trace q.0 q.1.trace
  unfolding mount_point mount_checked
  mount_point-Does target mode type options o =
      check-Does (made_directory target ∷ []) (mounted target ∷ []) (sysload_mkdir os target mode)
        (mount_checked os type target options) o (sysload_mkdir-Does target mode o)
        λ u.
          mount_answered-Does type target type options u.world
            (os.mount type target type options u.world).0
            (record u { world = (os.mount type target type options u.world).1 }) refl
