-- ===== src/Feed/Commands/Requests.antt =====
-- What feed_command runs.
use hail2_repos.Prelude.{
  ◌<◌, ap, length, has_byte, Bool, Bool-cases, ==_iff, ◌==◌, false, ℕ, ◌≤◌, ◌≡◌, refl, ◌⊎◌, inl,
  inr, true, ◌||◌, Option, none, some, [], ◌∷◌, ℤ, pos, negsuc, lt_ℤ, Text, codes, text_eq,
  if_cases, arith,
}
use hail2_repos.Kernel.{System, M}
use hail2_repos.Image.{Image}
use hail2_repos.Mode.{mode_start}
use hail2_repos.Load.Services.{load_start_service, load_stop_service, load_restart_service}
use hail2_repos.Load.Boot.{load_enable_service, load_disable_service}
use hail2_repos.Feed.Words.{isspace, strtok, strtol}
use hail2_repos.Feed.Commands.{
  all_valid, Session, feed_valid_service, answer, set_mode, mode_command, service_operation,
  service_command, command_read, feed_command,
}

-- One operation on a service, with its name.
abbrev pub Operates : {W : Type 0} → System W → Text → Image W → Image W → Type 0
Operates os name i j =
    (j ≡ (load_enable_service os (some name) i).1)
    ⊎ ((j ≡ (load_disable_service os (some name) i).1)
        ⊎ ((j ≡ (load_start_service os (some name) i).1)
            ⊎ ((j ≡ (load_stop_service os (some name) i).1)
                ⊎ (j ≡ (load_restart_service os (some name) i).1))))

-- A name that is not empty and has none of the bytes of isspace, no slash and no backslash.
abbrev pub IsServiceName : Text → Type 0
IsServiceName name =
    (0 < length name)
    × (has_byte 9 name ≡ false)
    × (has_byte 10 name ≡ false)
    × (has_byte 11 name ≡ false)
    × (has_byte 12 name ≡ false)
    × (has_byte 13 name ≡ false)
    × (has_byte 32 name ≡ false)
    × (has_byte 47 name ≡ false)
    × (has_byte 92 name ≡ false)

-- No byte of an accepted name is `b`, when `b` is refused by itself.
all_valid-has_byte :
    (b : ℕ) (name : Text)
    → (b == 47 || (isspace b || b == 92)) ≡ true
    → all_valid name ≡ true
    → has_byte b name ≡ false
all_valid-has_byte b [] r h = refl
all_valid-has_byte b (c ∷ cs) r h =
    if_cases (λ (valid : Bool). valid ≡ true → has_byte b (c ∷ cs) ≡ false)
      (c == 47 || (isspace c || c == 92)) (λ refused k. cc k)
      (λ fine k. elim (Bool-cases (c == b)) [
        | inl same ↦
            absurd (cc (ap (λ d. d == 47 || (isspace d || d == 92)) ((==_iff c b).0 same), r, fine))
        | inr other ↦ rw (other, all_valid-has_byte b cs r k) refl
      ])
      h

feed_valid_service-IsServiceName :
    (name : Text) → feed_valid_service name ≡ true → IsServiceName name
feed_valid_service-IsServiceName [] h = cc h
feed_valid_service-IsServiceName (c ∷ cs) h = (
  omega arith,
  all_valid-has_byte 9 (c ∷ cs) refl h,
  all_valid-has_byte 10 (c ∷ cs) refl h,
  all_valid-has_byte 11 (c ∷ cs) refl h,
  all_valid-has_byte 12 (c ∷ cs) refl h,
  all_valid-has_byte 13 (c ∷ cs) refl h,
  all_valid-has_byte 32 (c ∷ cs) refl h,
  all_valid-has_byte 47 (c ∷ cs) refl h,
  all_valid-has_byte 92 (c ∷ cs) refl h,
)

-- What a command may do: nothing, one request for a mode, or one operation on a valid name.
abbrev pub Allowed : {W : Type 0} → System W → Image W → Image W → Type 0
Allowed os i j =
    (j ≡ i)
    ⊎ (((mode : ℕ) × (mode ≤ 2) × (j ≡ (mode_start os (pos mode) i).1))
        ⊎ ((name : Text) × IsServiceName name × Operates os name i j))

-- And there is one reply.
abbrev pub Serves : {W : Type 0} → System W → Session W → Session W → Type 0
Serves os s u = Allowed os s.image u.image × ((r : Text) × (u.replies ≡ r ∷ s.replies))

module _ {W : Type 0} (os : System W) where
  set_mode-Serves : (r : ℤ × Text) (s : Session W) → Serves os s (set_mode os r s).1
  unfolding set_mode
  set_mode-Serves (mode, c ∷ cs) s = (inl refl, (_, refl))
  set_mode-Serves (negsuc n, []) s = (inl refl, (_, refl))
  set_mode-Serves (pos n, []) s =
      if_cases (λ (m : M (Session W) (Unit {0})). Serves os s (m s).1)
        (lt_ℤ (pos n) (pos 0) || lt_ℤ (pos 2) (pos n)) (λ _. (inl refl, (_, refl)))
        (λ e. (inr (inl (n, ground (arith, e), refl)), (_, refl)))

  mode_command-Serves :
      (arg : Option (Text × Text)) (s : Session W) → Serves os s (mode_command os arg s).1
  unfolding mode_command
  mode_command-Serves none s = (inl refl, (_, refl))
  mode_command-Serves (some (arg, rest)) s = set_mode-Serves (strtol arg) s

  service_operation-Serves :
      (cmd arg : Text) (s : Session W)
      → IsServiceName arg
      → Serves os s (service_operation os cmd arg s).1
  unfolding service_operation answer
  service_operation-Serves cmd arg s h =
      let P = λ (m : M (Session W) (Unit {0})). Serves os s (m s).1 in
      if_cases P (text_eq cmd (codes "enable")) (λ _. (inr (inr (arg, h, inl refl)), (_, refl)))
        (λ _.
          if_cases P (text_eq cmd (codes "disable"))
            (λ _. (inr (inr (arg, h, inr (inl refl))), (_, refl)))
            (λ _.
              if_cases P (text_eq cmd (codes "start"))
                (λ _. (inr (inr (arg, h, inr (inr (inl refl)))), (_, refl)))
                (λ _.
                  if_cases P (text_eq cmd (codes "stop"))
                    (λ _. (inr (inr (arg, h, inr (inr (inr (inl refl))))), (_, refl)))
                    (λ _.
                      if_cases P (text_eq cmd (codes "restart"))
                        (λ _. (inr (inr (arg, h, inr (inr (inr (inr refl))))), (_, refl)))
                        (λ _. (inl refl, (_, refl)))))))

  service_command-Serves :
      (cmd : Text) (arg : Option (Text × Text)) (s : Session W)
      → Serves os s (service_command os cmd arg s).1
  unfolding service_command
  service_command-Serves cmd none s = (inl refl, (_, refl))
  service_command-Serves cmd (some (arg, rest)) s =
      if_cases (λ (m : M (Session W) (Unit {0})). Serves os s (m s).1) (feed_valid_service arg)
        (λ valid. service_operation-Serves cmd arg s (feed_valid_service-IsServiceName arg valid))
        (λ _. (inl refl, (_, refl)))

  command_read-Serves :
      (read : Option (Text × Text)) (s : Session W) → Serves os s (command_read os read s).1
  unfolding command_read
  command_read-Serves none s = (inl refl, (_, refl))
  command_read-Serves (some (cmd, rest)) s =
      if_cases (λ (m : M (Session W) (Unit {0})). Serves os s (m s).1)
        (text_eq cmd (codes "setmode")) (λ _. mode_command-Serves (strtok rest) s)
        (λ _. service_command-Serves cmd (strtok rest) s)

  -- For every command text, feed_command sends exactly one reply, and what it does to the rest
  -- of the program is nothing, or one request for a mode from 0 to 2, or one of the five
  -- operations on a service whose name is not empty and has no white space, slash or backslash.
  pub feed_command-Serves :
      (command : Text) (s : Session W) → Serves os s (feed_command os command s).1
  unfolding feed_command
  feed_command-Serves command s = command_read-Serves (strtok command) s
