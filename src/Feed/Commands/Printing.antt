-- ===== src/Feed/Commands/Printing.antt =====
-- A command that is written out as a line is read back.
use hail2_repos.Prelude.{
  ℤ, is_negative, if◌then◌else◌, ℕ, ◌<◌, ◌≡◌, refl, ◌∙◌, ap, Bool, true, false, ◌||◌, some, [], ◌∷◌,
  ◌++◌, Text, codes, text_eq, length, arith,
}
use hail2_repos.Kernel.{System, M}
use hail2_repos.Image.{Image}
use hail2_repos.Load.Services.{load_start_service, load_stop_service, load_restart_service}
use hail2_repos.Load.Boot.{load_enable_service, load_disable_service}
use hail2_repos.Feed.Words.{is_delimiter, skip_delimiters, split_token, token_of, strtok}
use hail2_repos.Feed.Commands.{
  Session, all_valid, feed_valid_service, answer, service_operation, service_command, command_read,
  feed_command,
}

-- No byte of a word ends a token.
abbrev pub has_delimiter : Text → Bool
has_delimiter [] = false
has_delimiter (c ∷ cs) = is_delimiter c || has_delimiter cs

split_token-word :
    (word : Text) (d : ℕ) (rest : Text)
    → has_delimiter word ≡ false
    → is_delimiter d ≡ true
    → split_token (word ++ d ∷ rest) ≡ (word, rest)
split_token-word [] d rest h k = rw k refl
split_token-word (c ∷ cs) d rest h k =
    let a : is_delimiter c ≡ false = ground (arith, h) in
    let b : has_delimiter cs ≡ false = ground (arith, h) in
    rw (a, split_token-word cs d rest b k) refl

skip_delimiters-word :
    (c : ℕ) (cs : Text) → is_delimiter c ≡ false → skip_delimiters (c ∷ cs) ≡ c ∷ cs
skip_delimiters-word c cs h = rw h refl

strtok-word :
    (word : Text) (d : ℕ) (rest : Text)
    → 0 < length word
    → has_delimiter word ≡ false
    → is_delimiter d ≡ true
    → strtok (word ++ d ∷ rest) ≡ some (word, rest)
strtok-word [] d rest n h k = absurd (omega (arith, n))
strtok-word (c ∷ cs) d rest n h k =
    let a : is_delimiter c ≡ false = ground (arith, h) in
    ap token_of (skip_delimiters-word c (cs ++ d ∷ rest) a)
    ∙ ap some (split_token-word (c ∷ cs) d rest h k)

-- A name that is accepted is one token.
all_valid-word : (name : Text) → all_valid name ≡ true → has_delimiter name ≡ false
all_valid-word [] h = refl
all_valid-word (c ∷ cs) h =
    let b : all_valid cs ≡ true = ground (arith, h) in
    let rest = all_valid-word cs b in ground (arith, h, rest)

valid-word : (name : Text) → feed_valid_service name ≡ true → has_delimiter name ≡ false
valid-word [] h = refl
valid-word (c ∷ cs) h = all_valid-word (c ∷ cs) h

valid-length : (name : Text) → feed_valid_service name ≡ true → 0 < length name
valid-length [] h = cc h
valid-length (c ∷ cs) h = omega arith

-- "<command> <name>\n"
abbrev pub service_line : Text → Text → Text
service_line command name = command ++ (32 ∷ name ++ 10 ∷ [])

module _ {W : Type 0} (os : System W) where
  feed_command-service_line :
      (command name : Text) (s : Session W)
      → 0 < length command
      → has_delimiter command ≡ false
      → text_eq command (codes "setmode") ≡ false
      → feed_valid_service name ≡ true
      → feed_command os (service_line command name) s ≡ service_operation os command name s
  unfolding feed_command command_read service_command
  feed_command-service_line command name s n h k valid =
      rw
        (
          strtok-word command 32 (name ++ 10 ∷ []) n h refl,
          k,
          strtok-word name 10 [] (valid-length name valid) (valid-word name valid) refl,
          valid,
        )
        refl

  -- The operation is run, and the reply is OK unless its result is negative.
  abbrev pub Replies : Text → M (Image W) ℤ → Session W → Session W → Type 0
  Replies failure operation s u =
      (u.image ≡ (operation s.image).1)
      × (u.replies
          ≡ (if is_negative (operation s.image).0 then failure else codes "OK\n") ∷ s.replies)

  service_operation-Replies :
      (failure command name : Text) (operation : M (Image W) ℤ) (s : Session W)
      → service_operation os command name s ≡ answer os failure operation s
      → feed_command os (service_line command name) s ≡ service_operation os command name s
      → Replies failure operation s (feed_command os (service_line command name) s).1
  unfolding answer
  service_operation-Replies failure command name operation s e f = rw (f, e) (refl, refl)

  -- For a valid name of a service, the line that is a command, a blank, the name and a newline
  -- is read back: enable, disable, start, stop and restart each run the operation of load.c for
  -- that name, and the one reply is OK when its result is not negative, else that the command
  -- failed.
  pub feed_command-Replies :
      (name : Text) (s : Session W)
      → feed_valid_service name ≡ true
      → let sent = λ (command : Text). (feed_command os (service_line command name) s).1 in
        Replies
          (codes "ERR enable failed\n")
          (load_enable_service os (some name))
          s
          (sent (codes "enable"))
        × Replies
            (codes "ERR disable failed\n")
            (load_disable_service os (some name))
            s
            (sent (codes "disable"))
        × Replies
            (codes "ERR start failed\n")
            (load_start_service os (some name))
            s
            (sent (codes "start"))
        × Replies
            (codes "ERR stop failed\n")
            (load_stop_service os (some name))
            s
            (sent (codes "stop"))
        × Replies
            (codes "ERR restart failed\n")
            (load_restart_service os (some name))
            s
            (sent (codes "restart"))
  unfolding codes service_operation
  feed_command-Replies name s valid = (
    service_operation-Replies _ (codes "enable") name (load_enable_service os (some name)) s refl
        (feed_command-service_line (codes "enable") name s (omega arith) refl refl valid),
    service_operation-Replies _ (codes "disable") name (load_disable_service os (some name)) s refl
        (feed_command-service_line (codes "disable") name s (omega arith) refl refl valid),
    service_operation-Replies _ (codes "start") name (load_start_service os (some name)) s refl
        (feed_command-service_line (codes "start") name s (omega arith) refl refl valid),
    service_operation-Replies _ (codes "stop") name (load_stop_service os (some name)) s refl
        (feed_command-service_line (codes "stop") name s (omega arith) refl refl valid),
    service_operation-Replies _ (codes "restart") name (load_restart_service os (some name)) s refl
        (feed_command-service_line (codes "restart") name s (omega arith) refl refl valid),
  )
